-- ===== src/Prelude/Results.antt =====
-- A C++ function that may throw returns a `Result`: the value, or which error it threw.
use mathlib.Core.Path.{◌≡◌, refl}
use mathlib.Core.Bool.{Bool, true, false}

pub data Result {ℓ} (E : Type 0) (A : Type ℓ) : Type ℓ where
  ok : A → Result E A
  err : E → Result E A

-- `if (!b) throw thrown;`
abbrev pub guard : {E : Type 0} → Bool → E → Result E (Unit {0})
guard false thrown = err thrown
guard true thrown = ok tt

module _ {ℓ κ} {E : Type 0} {A : Type ℓ} {B : Type κ} where
  infixl 5 ◌>>=◌
  abbrev pub ◌>>=◌ : Result E A → (A → Result E B) → Result E B
  err thrown >>= next = err thrown
  ok value >>= next = next value

  -- A call that succeeds and whose value another one takes up.
  pub >>=-eq-ok :
      (call : Result E A) (next : A → Result E B) {result : B}
      → (call >>= next) ≡ ok result
      → (value : A) × (call ≡ ok value) × (next value ≡ ok result)
  >>=-eq-ok (err thrown) next e = cc
  >>=-eq-ok (ok value) next e = (value, refl, e)

infixl 5 ◌>>◌
abbrev pub ◌>>◌ {κ} : {E : Type 0} {B : Type κ} → Result E (Unit {0}) → Result E B → Result E B
call >> next = call >>= λ done. next
