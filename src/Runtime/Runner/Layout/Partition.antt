-- ===== src/Runtime/Runner/Layout/Partition.antt =====
-- src/runtime/include/atp/runtime/pipeline_runner.hpp: the modules that each thread runs.
use mathlib.Core.List.{Perm, perm_append_comm, map-append}
use mathlib.Core.List.Perm
use ani_tools_platform.Prelude.{
  ℕ, ◌≡◌, refl, sym, inl, inr, true, false, List, [], ◌∷◌, ◌++◌, map, append_assoc, none, some,
  arith, ok, Option-cases, Text,
}
use ani_tools_platform.Prelude.Assoc.{lookup, nat_eq}
use ani_tools_platform.Io.Output.Connect.{Distinct}
use ani_tools_platform.Runtime.Tree.{Group, Children, group, end, leaf, sub, address, addresses}
use ani_tools_platform.Runtime.Iterate.Flat.{attached, attached_in}
use ani_tools_platform.Runtime.Runner.Layout.{
  collect_groups, Threads, launch_units, build_thread_map, apply_detach, detach_in,
}
use ani_tools_platform.Runtime.Runner.Layout.Threads.{
  own_thread, threads_of, keys-threads_of, puts, lookup-puts-All,
}
use ani_tools_platform.Runtime.Runner.Layout.Units.{
  units_below, units_in, launch_root, threads_of-apply_detach, build_thread_map-inversion,
}

-- A module and the thread that runs it.
abbrev pub Run : Type 0
Run = ℕ × ℕ

abbrev on : ℕ → List ℕ → List Run
on t l = map (λ a. (a, t)) l

-- Every module with the thread of its group, given the thread of the group itself.
unfoldable mutual
  pub placed : List (ℕ × ℕ) → ℕ → Group → List Run
  placed assigned t (group i cs) = placed_in assigned t cs

  pub placed_in : List (ℕ × ℕ) → ℕ → Children → List Run
  placed_in assigned t end = []
  placed_in assigned t (leaf n a cs) = (a, t) ∷ placed_in assigned t cs
  placed_in assigned t (sub n d g cs) =
      placed assigned (own_thread assigned t (address g)) g ++ placed_in assigned t cs

-- What the threads run: each unit's thread runs the attached modules of the unit.
pub runs : List (ℕ × Group) → List Run
runs [] = []
runs ((t, g) ∷ units) = on t (attached g) ++ runs units

runs-append : (u v : List (ℕ × Group)) → runs (u ++ v) ≡ runs u ++ runs v
unfolding runs
runs-append [] v = refl
runs-append ((t, g) ∷ u) v =
    rw (runs-append u v) (sym (append_assoc (on t (attached g)) (runs u) (runs v)))

-- No subgroup is detached: the state of a pipeline that is not running.
unfoldable mutual
  pub IsWhole : Group → Type 0
  IsWhole (group i cs) = WholeIn cs

  pub WholeIn : Children → Type 0
  WholeIn end = Unit
  WholeIn (leaf n a cs) = WholeIn cs
  WholeIn (sub n d g cs) = (d ≡ false) × IsWhole g × WholeIn cs

perm_exchange : (a b c d : List Run) → Perm ((a ++ b) ++ (c ++ d)) ((a ++ c) ++ (b ++ d))
perm_exchange a b c d =
    rw
      (
        append_assoc a b (c ++ d),
        append_assoc a c (b ++ d),
        ← append_assoc b c d,
        ← append_assoc c b d,
      )
      (Perm.append_left a (Perm.append_right d (perm_append_comm b c)))

perm_rotate : (x p q r : List Run) → Perm (x ++ (p ++ (q ++ r))) ((p ++ q) ++ (x ++ r))
perm_rotate x p q r =
    rw (← append_assoc p q r, ← append_assoc x (p ++ q) r, ← append_assoc (p ++ q) x r)
      (Perm.append_right r (perm_append_comm x (p ++ q)))

-- A subgroup that runs inline in its parent.
inline_case :
    (t : ℕ) (ag ac : List ℕ) (ug uc : List (ℕ × Group)) (pg pc : List Run)
    → Perm (on t ag ++ runs ug) pg
    → Perm (on t ac ++ runs uc) pc
    → Perm (on t (ag ++ ac) ++ runs (ug ++ uc)) (pg ++ pc)
inline_case t ag ac ug uc pg pc hg hc =
    rw (map-append, runs-append ug uc)
      (Perm.trans (perm_exchange (on t ag) (on t ac) (runs ug) (runs uc)) (Perm.append hg hc))

-- A subgroup with a thread of its own.
detached_case :
    (t v : ℕ) (g : Group) (ac : List ℕ) (ug uc : List (ℕ × Group)) (pg pc : List Run)
    → Perm (on v (attached g) ++ runs ug) pg
    → Perm (on t ac ++ runs uc) pc
    → Perm (on t ac ++ runs ((v, g) ∷ (ug ++ uc))) (pg ++ pc)
unfolding runs
detached_case t v g ac ug uc pg pc hg hc =
    rw (runs-append ug uc) (
      Perm.trans (perm_rotate (on t ac) (on v (attached g)) (runs ug) (runs uc))
        (Perm.append hg hc))

address-apply_detach :
    (assigned : List (ℕ × ℕ)) (g : Group) → address (apply_detach assigned g) ≡ address g
unfolding apply_detach
address-apply_detach assigned (group i cs) = refl

module _ (assigned : List (ℕ × ℕ)) (t : ℕ) (n : Text) (g : Group) (cs : Children) where
  abbrev inner_attached : List ℕ
  inner_attached = attached (apply_detach assigned g)

  abbrev outer_attached : List ℕ
  outer_attached = attached_in (detach_in assigned cs)

  abbrev inner_units : ℕ → List (ℕ × Group)
  inner_units u = units_below assigned u (apply_detach assigned g)

  abbrev outer_units : List (ℕ × Group)
  outer_units = units_in assigned t (detach_in assigned cs)

  sub_inline :
      lookup (address g) assigned ≡ none
      → (attached_in (detach_in assigned (sub n false g cs)) ≡ inner_attached ++ outer_attached)
        × (units_in assigned t (detach_in assigned (sub n false g cs))
            ≡ inner_units t ++ outer_units)
        × (own_thread assigned t (address g) ≡ t)
  unfolding attached apply_detach units_below
  sub_inline e = ground (arith, e, address-apply_detach assigned g)

  sub_detached :
      (v : ℕ)
      → lookup (address g) assigned ≡ some v
      → (attached_in (detach_in assigned (sub n false g cs)) ≡ outer_attached)
        × (units_in assigned t (detach_in assigned (sub n false g cs))
            ≡ (v, apply_detach assigned g) ∷ (inner_units v ++ outer_units))
        × (own_thread assigned t (address g) ≡ v)
  unfolding attached apply_detach units_below
  sub_detached v e = ground (arith, e, address-apply_detach assigned g)

  partition_sub :
      (pg : ℕ → List Run) (pc : List Run)
      → Perm
          (on (own_thread assigned t (address g)) inner_attached
            ++ runs (inner_units (own_thread assigned t (address g))))
          (pg (own_thread assigned t (address g)))
      → Perm (on t outer_attached ++ runs outer_units) pc
      → Perm
          (on t (attached_in (detach_in assigned (sub n false g cs)))
            ++ runs (units_in assigned t (detach_in assigned (sub n false g cs))))
          (pg (own_thread assigned t (address g)) ++ pc)
  partition_sub pg pc inner outer = elim (Option-cases (lookup (address g) assigned)) [
    | inl e ↦
        let (ea, eu, et) = sub_inline e in
        rw (ea, eu, et)
          (inline_case t inner_attached outer_attached (inner_units t) outer_units (pg t) pc
            (rw et at inner) outer)
    | inr (v, e) ↦
        let (ea, eu, et) = sub_detached v e in
        rw (ea, eu, et)
          (detached_case t v (apply_detach assigned g) outer_attached (inner_units v) outer_units
            (pg v) pc (rw et at inner) outer)
  ]

mutual
  unfolding attached units_below placed apply_detach IsWhole runs

  partition :
      (assigned : List (ℕ × ℕ)) (t : ℕ) (g : Group)
      → IsWhole g
      → Perm
          (on t (attached (apply_detach assigned g))
            ++ runs (units_below assigned t (apply_detach assigned g)))
          (placed assigned t g)
  partition assigned t (group i cs) w = partition_in assigned t cs w

  partition_in :
      (assigned : List (ℕ × ℕ)) (t : ℕ) (cs : Children)
      → WholeIn cs
      → Perm
          (on t (attached_in (detach_in assigned cs))
            ++ runs (units_in assigned t (detach_in assigned cs)))
          (placed_in assigned t cs)
  partition_in assigned t end w = Perm.nil
  partition_in assigned t (leaf n a cs) w = Perm.cons (a, t) (partition_in assigned t cs w)
  partition_in assigned t (sub n true g cs) w = cc (w.0)
  partition_in assigned t (sub n false g cs) w =
      partition_sub assigned t n g cs (λ u. placed assigned u g) (placed_in assigned t cs)
        (partition assigned (own_thread assigned t (address g)) g w.1)
        (partition_in assigned t cs w.2)

-- For a pipeline of distinct groups, none of them detached, and the thread map that the runner
-- built: the launch finds a thread for every unit, and the units run every module of the pipeline
-- exactly once in all, each on the thread of its group, whatever the assignments.
pub launch-partition :
    (assigned m : Threads) (g : Group)
    → Distinct (addresses g)
    → IsWhole g
    → build_thread_map assigned (collect_groups g none) ≡ ok m
    → (units : List (ℕ × Group)) × (launch_units assigned m
          (collect_groups (apply_detach assigned g) none)
        ≡ ok units)
      × Perm (runs units) (placed assigned (own_thread assigned 0 (address g)) g)
unfolding runs
launch-partition assigned m g d w e =
    let own : ℕ = own_thread assigned 0 (address g) in
    let g' = apply_detach assigned g in
    (
      (own, g') ∷ units_below assigned own g',
      rw (← build_thread_map-inversion assigned m g d e) (
          rw (address-apply_detach assigned g) at (
            launch_root assigned (puts (threads_of assigned 0 g) []) g' (
              rw (threads_of-apply_detach assigned assigned 0 g) (
                lookup-puts-All (threads_of assigned 0 g) []
                  (rw (keys-threads_of assigned 0 g) d))))),
      partition assigned own g w,
    )
