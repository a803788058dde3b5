-- ===== src/Runtime/Runner/Layout/Units.antt =====
-- src/runtime/include/atp/runtime/pipeline_runner.hpp: the units that `launch_threads` hands out,
-- by recursion over the tree.
use ani_tools_platform.Prelude.{
  ℕ, ◌≡◌, refl, sym, ◌∙◌, ap, List, [], ◌∷◌, ◌++◌, append_assoc, append-nil, none, some, arith,
  Result, ok, err, ◌>>=◌, All,
}
use ani_tools_platform.Prelude.Assoc.{lookup, nat_eq}
use ani_tools_platform.Io.Output.Connect.{Distinct}
use ani_tools_platform.Runtime.Tree.{Group, Children, group, end, leaf, sub, address, addresses}
use ani_tools_platform.Runtime.Runner.{RunnerError}
use ani_tools_platform.Runtime.Runner.Layout.{
  GroupNode, collect_groups, collect_in, Threads, add_unit, launch_units, build_thread_map,
  apply_detach, detach_in,
}
use ani_tools_platform.Runtime.Runner.Layout.Threads.{
  own_thread, threads_of, threads_in, puts, map_threads-eq,
}

abbrev pub own_unit : List (ℕ × ℕ) → Group → List (ℕ × Group)
own_unit assigned g = elim (lookup (address g) assigned) [ none ↦ [] | some t ↦ (t, g) ∷ [] ]

-- The units inside a group that runs on the given thread, in the order of the groups.
unfoldable mutual
  unfolding own_thread

  pub units_below : List (ℕ × ℕ) → ℕ → Group → List (ℕ × Group)
  units_below assigned t (group i cs) = units_in assigned t cs

  pub units_in : List (ℕ × ℕ) → ℕ → Children → List (ℕ × Group)
  units_in assigned t end = []
  units_in assigned t (leaf n a cs) = units_in assigned t cs
  units_in assigned t (sub n d g cs) =
      own_unit assigned g
      ++ (units_below assigned (own_thread assigned t (address g)) g ++ units_in assigned t cs)

abbrev Finds : Threads → Threads → Type 0
Finds m l = All (λ e. lookup e.0 m ≡ some e.1) l

Finds-split : (m l r : Threads) → Finds m (l ++ r) → Finds m l × Finds m r
Finds-split m [] r h = (tt, h)
Finds-split m (e ∷ l) r h = ((h.0, (Finds-split m l r h.1).0), (Finds-split m l r h.1).1)

abbrev prepend :
    List (ℕ × Group) → Result RunnerError (List (ℕ × Group)) → Result RunnerError (List (ℕ × Group))
prepend units later = later >>= (λ rest. ok (units ++ rest))

prepend-append :
    (u v : List (ℕ × Group)) (r : Result RunnerError (List (ℕ × Group)))
    → prepend (u ++ v) r ≡ prepend u (prepend v r)
prepend-append u v (ok r) = ap (λ l. ok l) (append_assoc u v r)
prepend-append u v (err e) = refl

prepend-nil : (r : Result RunnerError (List (ℕ × Group))) → prepend [] r ≡ r
prepend-nil (ok r) = refl
prepend-nil (err e) = refl

add_unit-ok :
    (t : ℕ) (g : Group) (r : Result RunnerError (List (ℕ × Group)))
    → add_unit (ok t) g r ≡ prepend ((t, g) ∷ []) r
add_unit-ok t g (ok r) = refl
add_unit-ok t g (err e) = refl

mutual
  unfolding launch_units collect_groups threads_of units_below

  launch_group :
      (assigned : List (ℕ × ℕ)) (m : Threads) (g : Group) (p around : ℕ) (rest : List GroupNode)
      → Finds m (threads_of assigned around g)
      → launch_units assigned m (collect_groups g (some p) ++ rest)
        ≡ prepend (own_unit assigned g) (
            prepend
              (units_below assigned (own_thread assigned around (address g)) g)
              (launch_units assigned m rest))
  launch_group assigned m (group i cs) p around rest h =
      let own : ℕ = own_thread assigned around i.address in
      ground (
        arith,
        h.0,
        launch_children assigned m cs i.address own rest h.1,
        add_unit-ok own (group i cs) (launch_units assigned m (collect_in cs i.address ++ rest)),
        prepend-nil (launch_units assigned m (collect_in cs i.address ++ rest)),
      )

  launch_children :
      (assigned : List (ℕ × ℕ)) (m : Threads) (cs : Children) (p around : ℕ) (rest : List GroupNode)
      → Finds m (threads_in assigned around cs)
      → launch_units assigned m (collect_in cs p ++ rest)
        ≡ prepend (units_in assigned around cs) (launch_units assigned m rest)
  launch_children assigned m end p around rest h = sym (prepend-nil (launch_units assigned m rest))
  launch_children assigned m (leaf n a cs) p around rest h =
      launch_children assigned m cs p around rest h
  launch_children assigned m (sub n d g cs) p around rest h =
      let (hg, hcs) =
        Finds-split m (threads_of assigned around g) (threads_in assigned around cs) h in
      let below = units_below assigned (own_thread assigned around (address g)) g in
      let later = units_in assigned around cs in
      rw append_assoc (
        launch_group assigned m g p around (collect_in cs p ++ rest) hg
        ∙ rw
            (
              launch_children assigned m cs p around rest hcs,
              prepend-append (own_unit assigned g) (below ++ later),
              prepend-append below later,
            )
            refl)

-- The whole pipeline: the root is a unit whether it is assigned or not.
pub launch_root :
    (assigned : List (ℕ × ℕ)) (m : Threads) (g : Group)
    → Finds m (threads_of assigned 0 g)
    → launch_units assigned m (collect_groups g none)
      ≡ ok (
          (own_thread assigned 0 (address g), g)
          ∷ units_below assigned (own_thread assigned 0 (address g)) g)
unfolding launch_units collect_groups threads_of units_below
launch_root assigned m (group i cs) h =
    let own : ℕ = own_thread assigned 0 i.address in
    ground (
      arith,
      h.0,
      launch_children assigned m cs i.address own [] h.1,
      append-nil (collect_in cs i.address),
      append-nil (units_in assigned own cs),
    )

mutual
  unfolding apply_detach threads_of

  pub threads_of-apply_detach :
      (assigned other : List (ℕ × ℕ)) (around : ℕ) (g : Group)
      → threads_of assigned around (apply_detach other g) ≡ threads_of assigned around g
  threads_of-apply_detach assigned other around (group i cs) =
      ap (◌∷◌ (i.address, own_thread assigned around i.address))
        (threads_in-detach_in assigned other (own_thread assigned around i.address) cs)

  threads_in-detach_in :
      (assigned other : List (ℕ × ℕ)) (around : ℕ) (cs : Children)
      → threads_in assigned around (detach_in other cs) ≡ threads_in assigned around cs
  threads_in-detach_in assigned other around end = refl
  threads_in-detach_in assigned other around (leaf n a cs) =
      threads_in-detach_in assigned other around cs
  threads_in-detach_in assigned other around (sub n d g cs) = cc (
    threads_of-apply_detach assigned other around g,
    threads_in-detach_in assigned other around cs,
  )

-- A map that `build_thread_map` answers is the one that the tree determines.
pub build_thread_map-inversion :
    (assigned m : Threads) (g : Group)
    → Distinct (addresses g)
    → build_thread_map assigned (collect_groups g none) ≡ ok m
    → puts (threads_of assigned 0 g) [] ≡ m
unfolding build_thread_map
build_thread_map-inversion assigned m g d e = ground (arith, map_threads-eq assigned g d)
