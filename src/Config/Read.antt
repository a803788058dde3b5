-- ===== src/Config/Read.antt =====
-- include/atp/config/read.hpp: the value of a node that may be missing or of another form.
use ani_tools_platform.Prelude.{Bool, ℕ, Option, none, some, Text}
use ani_tools_platform.Prelude.Int.{ℤ}
use ani_tools_platform.Config.Node.{Node, try_as_bool, try_as_int, try_as_double, try_as_string}

-- `value_or`, at each of the four types.
abbrev value_or {ℓ} : {A : Type ℓ} → (Node → Option A) → Option Node → A → A
value_or try_as none fallback = fallback
value_or try_as (some j) fallback = elim (try_as j) [ none ↦ fallback | some a ↦ a ]

abbrev pub bool_or : Option Node → Bool → Bool
bool_or = value_or try_as_bool

abbrev pub int_or : Option Node → ℤ → ℤ
int_or = value_or try_as_int

abbrev pub double_or : Option Node → ℕ → ℕ
double_or = value_or try_as_double

abbrev pub string_or : Option Node → Text → Text
string_or = value_or try_as_string
