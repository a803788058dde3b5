-- ===== src/Runtime/Runner.antt =====
-- src/runtime/include/atp/runtime/pipeline_runner.hpp: the threads of a run and the layout of the
-- groups on them. The control methods belong to one owner thread, so each is one step.
pub mod Config
pub mod Layout
pub mod Run
pub mod Loop
use ani_tools_platform.Prelude.{
  ℕ, zero, suc, ◌+◌, Bool, true, false, not, ◌&&◌, List, [], ◌∷◌, ◌++◌, Option, none, some, ◌==◌,
  if◌then◌else◌, Text, text_eq, Result, ok, err, ◌>>=◌,
}
use ani_tools_platform.Prelude.Int.{ℤ, pos, is_zero, is_positive}
use ani_tools_platform.Prelude.Assoc.{lookup, put, nat_eq}
use ani_tools_platform.Runtime.Cascade.{Failure}

pub data ThreadMode : Type 0 where
  on_demand throttled spinning : ThreadMode

pub record ThreadOptions : Type 0 where
  pub mode : ThreadMode
  pub period : ℤ

abbrev pub default_options : ThreadOptions
default_options = record { mode = on_demand; period = pos 0 }

pub record ThreadConfig : Type 0 where
  pub name : Text
  pub options : ThreadOptions

pub data RunnerError : Type 0 where
  already_running period_required period_forbidden duplicate_thread unknown_thread foreign_group :
      RunnerError
  out_of_range : RunnerError
  unsafe_connection : ℕ → RunnerError
  thrown : ℕ → RunnerError

-- `assigned` maps the address of a group to the index of a thread. `error` is the first failure of
-- the run.
pub record Runner : Type 0 where
  pub threads : List ThreadConfig
  pub assigned : List (ℕ × ℕ)
  pub running : Bool
  pub error : Failure

abbrev pub new_runner : Runner
new_runner = record { threads = []; assigned = []; running = false; error = none }

index_from : ℕ → Text → List ThreadConfig → Option ℕ
index_from i name [] = none
index_from i name (t ∷ rest) = if text_eq t.name name then some i else index_from (suc i) name rest

unfoldable pub index_of : Text → Runner → Option ℕ
unfolding index_from
index_of name r = index_from 0 name r.threads

abbrev pub is_throttled : ThreadMode → Bool
is_throttled throttled = true
is_throttled on_demand = false
is_throttled spinning = false

abbrev push_unless : Option ℕ → ThreadConfig → Runner → Result RunnerError Runner
push_unless (some i) t r = err duplicate_thread
push_unless none t r = ok (record r { threads = r.threads ++ t ∷ [] })

unfoldable pub add_thread : Text → ThreadOptions → Runner → Result RunnerError Runner
unfolding index_of
add_thread name o r =
    if r.running
    then err already_running
    else if is_throttled o.mode && not (is_positive o.period)
    then err period_required
    else if not (is_throttled o.mode) && not (is_zero o.period)
    then err period_forbidden
    else push_unless (index_of name r) (record { name = name; options = o }) r

abbrev assign_to : ℕ → Option ℕ → Runner → Result RunnerError Runner
assign_to g none r = err unknown_thread
assign_to g (some i) r = ok (record r { assigned = put g i r.assigned })

-- assign(g, thread_name), of the group at address `g`.
unfoldable pub assign : ℕ → Text → Runner → Result RunnerError Runner
unfolding index_of
assign g name r = if r.running then err already_running else assign_to g (index_of name r) r
