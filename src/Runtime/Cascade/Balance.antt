-- ===== src/Runtime/Cascade/Balance.antt =====
-- src/runtime/include/atp/runtime/group.hpp: how often the cascades initialise and stop a module.
use mathlib.Core.List.{reverse, reverse-cons}
use ani_tools_platform.Prelude.{
  ℕ, ◌≡◌, refl, ◌+◌, ◌==◌, if◌then◌else◌, List, [], ◌∷◌, ◌++◌, none, some, arith, Option-cases, inl,
  inr,
}
use ani_tools_platform.Runtime.Cascade.{
  Modules, Trace, initializes, starts, stops, iterates, initialize_leaf, start_leaf, stop_leaf,
}
use ani_tools_platform.Runtime.Cascade.Flat.{stop_all, start_all, initialize_all}

unfoldable pub hit : ℕ → ℕ → ℕ
hit a x = if x == a then 1 else 0

unfoldable pub count : ℕ → List ℕ → ℕ
count a [] = 0
count a (x ∷ xs) = hit a x + count a xs

pub count-append : (a : ℕ) (xs ys : List ℕ) → count a (xs ++ ys) ≡ count a xs + count a ys
unfolding count
count-append a [] ys = omega arith
count-append a (x ∷ xs) ys = omega (arith, count-append a xs ys)

pub count-reverse : (a : ℕ) (xs : List ℕ) → count a (reverse xs) ≡ count a xs
unfolding count
count-reverse a [] = refl
count-reverse a (x ∷ xs) =
    rw (reverse-cons x xs, count-append a (reverse xs) (x ∷ [])) (omega (arith, count-reverse a xs))

-- The calls of `stop` on module `a`.
unfoldable pub stopped : ℕ → Trace → ℕ
stopped a [] = 0
stopped a (initializes x ∷ t) = stopped a t
stopped a (starts x ∷ t) = stopped a t
stopped a (stops x ∷ t) = hit a x + stopped a t
stopped a (iterates x ∷ t) = stopped a t

module _ (m : Modules) (a : ℕ) where
  -- The calls of `initialize` on module `a` that returned.
  unfoldable pub initialized : Trace → ℕ
  initialized [] = 0
  initialized (initializes x ∷ t) = elim (m.initialize x t) [
    | none ↦ hit a x + initialized t
    | some e ↦ initialized t
  ]
  initialized (starts x ∷ t) = initialized t
  initialized (stops x ∷ t) = initialized t
  initialized (iterates x ∷ t) = initialized t

  pub stop_all-counts :
      (xs : List ℕ) (t : Trace)
      → (initialized (stop_all m xs t).0 ≡ initialized t)
        × (stopped a (stop_all m xs t).0 ≡ stopped a t + count a xs)
  unfolding stop_all initialized stopped count
  stop_all-counts [] t = ground arith
  stop_all-counts (x ∷ xs) t = ground (arith, stop_all-counts xs (stop_leaf m x t).0)

  pub start_all-counts :
      (xs : List ℕ) (t : Trace)
      → (initialized (start_all m xs t).0 ≡ initialized t)
        × (stopped a (start_all m xs t).0 ≡ stopped a t)
  unfolding start_all initialized stopped
  start_all-counts [] t = ground arith
  start_all-counts (x ∷ xs) t = ground (arith, start_all-counts xs (start_leaf m x t).0)

  -- What `initialize_all` adds to the modules that are initialised and not stopped: its modules on
  -- success; on failure it takes off those initialised before.
  pub initialize_all-done_counts :
      (xs done : List ℕ) (t : Trace)
      → (initialize_all m xs done t).1 ≡ none
      → initialized (initialize_all m xs done t).0 + stopped a t
        ≡ stopped a (initialize_all m xs done t).0 + count a xs + initialized t
  unfolding initialize_all initialized stopped count
  initialize_all-done_counts [] done t f = ground arith
  initialize_all-done_counts (x ∷ xs) done t f = elim (Option-cases (m.initialize x t)) [
    | inl fine ↦ ground (arith, initialize_all-done_counts xs (x ∷ done) (initialize_leaf m x t).0)
    | inr (e, failed) ↦ ground arith
  ]

  pub initialize_all-failed_counts :
      (xs done : List ℕ) (t : Trace) (e : ℕ)
      → (initialize_all m xs done t).1 ≡ some e
      → initialized (initialize_all m xs done t).0 + count a done + stopped a t
        ≡ stopped a (initialize_all m xs done t).0 + initialized t
  unfolding initialize_all initialized stopped count
  initialize_all-failed_counts [] done t e f = ground arith
  initialize_all-failed_counts (x ∷ xs) done t e f = elim (Option-cases (m.initialize x t)) [
    | inl fine ↦
        ground (arith, initialize_all-failed_counts xs (x ∷ done) (initialize_leaf m x t).0 e)
    | inr (e', failed) ↦ ground (arith, stop_all-counts done (initialize_leaf m x t).0)
  ]
