-- ===== src/Runtime/Cascade/Flat.antt =====
-- The specification of the cascades of src/runtime/include/atp/runtime/group.hpp: one loop over a
-- list of modules, as if there were no groups.
use mathlib.Core.List.{reverse, reverse-cons}
use ani_tools_platform.Prelude.{
  ℕ, ◌≡◌, refl, ap, List, [], ◌∷◌, ◌++◌, none, some, arith, append_assoc,
}
use ani_tools_platform.Runtime.Cascade.{
  Modules, Trace, Failure, first, initialize_leaf, start_leaf, stop_leaf,
}

module _ (m : Modules) where
  -- Stops the modules of the list in its order, past failing ones; the first failure is kept.
  unfoldable pub stop_all : List ℕ → Trace → Trace × Failure
  stop_all [] t = (t, none)
  stop_all (a ∷ rest) t =
      let (t', e) = stop_leaf m a t in let (t'', e') = stop_all rest t' in (t'', first e e')

  unfoldable pub start_all : List ℕ → Trace → Trace × Failure
  start_all [] t = (t, none)
  start_all (a ∷ rest) t =
      let (t', e) = start_leaf m a t in elim e [ none ↦ start_all rest t' | some f ↦ (t', some f) ]

  -- `done` are the modules initialised so far, the latest first; a failure stops them in that order.
  unfoldable pub initialize_all : List ℕ → List ℕ → Trace → Trace × Failure
  unfolding stop_all
  initialize_all [] done t = (t, none)
  initialize_all (a ∷ rest) done t =
      let (t', e) = initialize_leaf m a t in
      elim e [ none ↦ initialize_all rest (a ∷ done) t' | some f ↦ ((stop_all done t').0, some f) ]

  first_assoc : (a b c : Failure) → first a (first b c) ≡ first (first a b) c
  first_assoc none b c = refl
  first_assoc (some a) b c = refl

  abbrev pub then_stop : List ℕ → Trace × Failure → Trace × Failure
  then_stop ys (t, e) = let (t', e') = stop_all ys t in (t', first e e')

  pub stop_all-append :
      (xs ys : List ℕ) (t : Trace) → stop_all (xs ++ ys) t ≡ then_stop ys (stop_all xs t)
  unfolding stop_all
  stop_all-append [] ys t = refl
  stop_all-append (a ∷ xs) ys t = rw (stop_all-append xs ys (stop_leaf m a t).0, first_assoc) refl

  pub first-none : (a : Failure) → first a none ≡ a
  first-none none = refl
  first-none (some a) = refl

  pub start_all-append :
      (xs ys : List ℕ) (t : Trace)
      → start_all (xs ++ ys) t ≡ (
          let (t', e) = start_all xs t in elim e [ none ↦ start_all ys t' | some f ↦ (t', some f) ])
  unfolding start_all
  start_all-append [] ys t = refl
  start_all-append (a ∷ xs) ys t = ground (arith, start_all-append xs ys (start_leaf m a t).0)

  -- A second list of modules to stop on failure.
  pub initialize_all-done :
      (xs done earlier : List ℕ) (t : Trace)
      → initialize_all xs (done ++ earlier) t ≡ (
          let (t', e) = initialize_all xs done t in
          elim e [ none ↦ (t', none) | some f ↦ ((stop_all earlier t').0, some f) ])
  unfolding initialize_all
  initialize_all-done [] done earlier t = refl
  initialize_all-done (a ∷ xs) done earlier t = ground (
    arith,
    initialize_all-done xs (a ∷ done) earlier (initialize_leaf m a t).0,
    stop_all-append done earlier (initialize_leaf m a t).0,
  )

  pub initialize_all-append :
      (xs ys done : List ℕ) (t : Trace)
      → initialize_all (xs ++ ys) done t ≡ (
          let (t', e) = initialize_all xs done t in
          elim e [ none ↦ initialize_all ys (reverse xs ++ done) t' | some f ↦ (t', some f) ])
  unfolding initialize_all
  initialize_all-append [] ys done t = refl
  initialize_all-append (a ∷ xs) ys done t = ground (
    arith,
    initialize_all-append xs ys (a ∷ done) (initialize_leaf m a t).0,
    ap (λ l. l ++ done) (reverse-cons a xs),
    append_assoc (reverse xs) (a ∷ []) done,
  )
