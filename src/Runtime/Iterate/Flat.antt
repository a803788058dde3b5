-- ===== src/Runtime/Iterate/Flat.antt =====
-- A pass of src/runtime/include/atp/runtime/group.hpp as one loop over a list of modules.
use ani_tools_platform.Prelude.{
  ℕ, ◌≡◌, refl, Bool, true, false, List, [], ◌∷◌, ◌++◌, arith, Result, ok, err,
}
use ani_tools_platform.Runtime.Tree.{
  Group, Children, group, end, leaf, sub, address, WorkStatus, idle, busy,
}
use ani_tools_platform.Runtime.Cascade.{Trace, iterates}
use ani_tools_platform.Runtime.Iterate.{
  Execution, State, Pass, join, iterate_leaf, read_clock, note_cost, iterate, iterate_children,
}

-- The modules that a pass over the group runs: those of its subtree, less the detached subgroups.
unfoldable mutual
  pub attached : Group → List ℕ
  attached (group i cs) = attached_in cs

  pub attached_in : Children → List ℕ
  attached_in end = []
  attached_in (leaf n a cs) = a ∷ attached_in cs
  attached_in (sub n detached g cs) = elim detached [
    | true ↦ attached_in cs
    | false ↦ attached g ++ attached_in cs
  ]

module _ (x : Execution) where
  -- The pass over a list of modules: up to the stop token, or to the first that throws.
  unfoldable pub iterate_all : List ℕ → WorkStatus → Trace → Trace × Result ℕ WorkStatus
  iterate_all [] pass t = (t, ok pass)
  iterate_all (a ∷ rest) pass t = elim (x.stop_requested t) [
    | true ↦ (t, ok pass)
    | false ↦ elim (x.iterate a t) [
      | err e ↦ (iterates a ∷ t, err e)
      | ok status ↦ iterate_all rest (join pass status) (iterates a ∷ t)
    ]
  ]

  abbrev pub seen : Pass → Trace × Result ℕ WorkStatus
  seen (s, r) = (s.trace, r)

  -- Once the token is set, the rest of the list is left out.
  iterate_all-stopped :
      (rest : List ℕ) (pass : WorkStatus) (t : Trace)
      → x.stop_requested t ≡ true
      → iterate_all rest pass t ≡ (t, ok pass)
  unfolding iterate_all
  iterate_all-stopped [] pass t h = refl
  iterate_all-stopped (a ∷ rest) pass t h = ground arith

  abbrev pub then_iterate : List ℕ → Trace × Result ℕ WorkStatus → Trace × Result ℕ WorkStatus
  then_iterate ys (t, err e) = (t, err e)
  then_iterate ys (t, ok pass) = iterate_all ys pass t

  pub iterate_all-append :
      (xs ys : List ℕ) (pass : WorkStatus) (t : Trace)
      → iterate_all (xs ++ ys) pass t ≡ then_iterate ys (iterate_all xs pass t)
  unfolding iterate_all
  iterate_all-append [] ys pass t = refl
  iterate_all-append (a ∷ xs) ys pass t = ground (
    arith,
    iterate_all-append xs ys (join pass idle) (iterates a ∷ t),
    iterate_all-append xs ys (join pass busy) (iterates a ∷ t),
    iterate_all-stopped ys pass t,
  )

  abbrev pub joined : WorkStatus → Trace × Result ℕ WorkStatus → Trace × Result ℕ WorkStatus
  joined pass (t, err e) = (t, err e)
  joined pass (t, ok status) = (t, ok (join pass status))

  join_assoc : (a b c : WorkStatus) → join (join a b) c ≡ join a (join b c)
  join_assoc a b idle = refl
  join_assoc a b busy = refl

  pub iterate_all-join :
      (xs : List ℕ) (p q : WorkStatus) (t : Trace)
      → iterate_all xs (join p q) t ≡ joined p (iterate_all xs q t)
  unfolding iterate_all
  iterate_all-join [] p q t = refl
  iterate_all-join (a ∷ xs) p q t = ground (
    arith,
    iterate_all-join xs p (join q idle) (iterates a ∷ t),
    iterate_all-join xs p (join q busy) (iterates a ∷ t),
    join_assoc p q idle,
    join_assoc p q busy,
  )

  trace-read_clock : (metrics : Bool) (s : State) → (read_clock x metrics s).trace ≡ s.trace
  trace-read_clock true s = refl
  trace-read_clock false s = refl

  trace-note_cost :
      (metrics : Bool) (a b : ℕ) (status : WorkStatus) (s : State)
      → (note_cost x metrics a b status s).trace ≡ s.trace
  trace-note_cost true a b status s = refl
  trace-note_cost false a b status s = refl

  mutual
    unfolding iterate attached iterate_all

    iterate_flat :
        (g : Group) (s : State) → seen (iterate x g s) ≡ iterate_all (attached g) idle s.trace
    iterate_flat (group i cs) s = iterate_children_flat i.metrics_enabled cs idle s

    iterate_children_flat :
        (metrics : Bool) (cs : Children) (pass : WorkStatus) (s : State)
        → seen (iterate_children x metrics cs pass s) ≡ iterate_all (attached_in cs) pass s.trace
    iterate_children_flat metrics end pass s = refl
    iterate_children_flat metrics (leaf n a cs) pass s =
        let s' = (iterate_leaf x a (read_clock x metrics s)).0 in
        ground (
          arith,
          trace-read_clock metrics s,
          trace-note_cost metrics a s.readings idle s',
          trace-note_cost metrics a s.readings busy s',
          iterate_children_flat metrics cs (join pass idle)
              (note_cost x metrics a s.readings idle s'),
          iterate_children_flat metrics cs (join pass busy)
              (note_cost x metrics a s.readings busy s'),
        )
    iterate_children_flat metrics (sub n true g cs) pass s = ground (
      arith,
      iterate_children_flat metrics cs pass s,
      iterate_all-stopped (attached_in cs) pass s.trace,
    )
    iterate_children_flat metrics (sub n false g cs) pass s =
        let s' = (iterate x g (read_clock x metrics s)).0 in
        ground (
          arith,
          trace-read_clock metrics s,
          iterate_flat g (read_clock x metrics s),
          iterate_all-append (attached g) (attached_in cs) pass s.trace,
          iterate_all-join (attached g) pass idle s.trace,
          iterate_all-stopped (attached g ++ attached_in cs) pass s.trace,
          trace-note_cost metrics (address g) s.readings idle s',
          trace-note_cost metrics (address g) s.readings busy s',
          iterate_children_flat metrics cs (join pass idle)
              (note_cost x metrics (address g) s.readings idle s'),
          iterate_children_flat metrics cs (join pass busy)
              (note_cost x metrics (address g) s.readings busy s'),
        )

  -- However the modules are nested, a pass over a group calls `iterate` on the attached modules of
  -- its subtree in insertion order, until the stop token is set or one of them throws; it answers
  -- busy exactly if one of those called was busy, and an exception goes on up.
  pub iterate-eq-iterate_all :
      (g : Group) (s : State)
      → ◌≡◌ {A = Trace × Result ℕ WorkStatus}
          ((iterate x g s).0.trace, (iterate x g s).1)
          (iterate_all (attached g) idle s.trace)
  iterate-eq-iterate_all g s = iterate_flat g s
