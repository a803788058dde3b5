-- ===== src/Runtime/Runner/Layout.antt =====
-- src/runtime/include/atp/runtime/pipeline_runner.hpp: which thread runs which group, computed from
-- the assignments, and the validation of the connections.
pub mod Threads
pub mod Assigned
pub mod Units
pub mod Partition
use ani_tools_platform.Prelude.{
  ℕ, zero, suc, ◌+◌, Bool, true, false, not, ◌&&◌, ◌||◌, List, [], ◌∷◌, ◌++◌, map, Option, none,
  some, ◌==◌, if◌then◌else◌, Result, ok, err, ◌>>=◌, ◌>>◌, guard, length,
}
use ani_tools_platform.Prelude.Assoc.{lookup, put, nat_eq}
use ani_tools_platform.Runtime.Tree.{
  Group, Children, GroupInfo, group, end, leaf, sub, info, children, address,
}
use ani_tools_platform.Runtime.Runner.{RunnerError, out_of_range, foreign_group, unsafe_connection}

-- A group of the pipeline and the address of its parent, `none` for the root.
pub record GroupNode : Type 0 where
  pub parent : Option ℕ
  pub node : Group

-- collect_groups(g, parent): the group before its subgroups.
unfoldable mutual
  pub collect_groups : Group → Option ℕ → List GroupNode
  collect_groups (group i cs) parent =
      record { parent = parent; node = group i cs } ∷ collect_in cs i.address

  pub collect_in : Children → ℕ → List GroupNode
  collect_in end parent = []
  collect_in (leaf n a cs) parent = collect_in cs parent
  collect_in (sub n d g cs) parent = collect_groups g (some parent) ++ collect_in cs parent

abbrev pub Threads : Type 0
Threads = List (ℕ × ℕ)

-- thread_of_.at(g)
abbrev pub thread_at : ℕ → Threads → Result RunnerError ℕ
thread_at g m = elim (lookup g m) [ none ↦ err out_of_range | some t ↦ ok t ]

abbrev pub inherited : Option ℕ → Threads → Result RunnerError ℕ
inherited none m = ok 0
inherited (some p) m = thread_at p m

-- The loop of `build_thread_map`, with the number of assignments that matched.
unfoldable pub map_threads :
    List (ℕ × ℕ) → List GroupNode → Threads × ℕ → Result RunnerError (Threads × ℕ)
map_threads assigned [] (m, matched) = ok (m, matched)
map_threads assigned (n ∷ rest) (m, matched) = do
  index ← inherited n.parent m
  elim (lookup (address n.node) assigned) [
    | none ↦ map_threads assigned rest (put (address n.node) index m, matched)
    | some own ↦ map_threads assigned rest (put (address n.node) own m, suc matched)
  ]

abbrev check_matched : ℕ → Threads × ℕ → Result RunnerError Threads
check_matched wanted (m, matched) = if matched == wanted then ok m else err foreign_group

unfoldable pub build_thread_map : List (ℕ × ℕ) → List GroupNode → Result RunnerError Threads
unfolding map_threads
build_thread_map assigned groups =
    map_threads assigned groups ([], 0) >>= check_matched (length assigned)

-- The ports that a module owns. A group owns none: its registries hold aliases only.
pub record Ports : Type 0 where
  pub owned_inputs : ℕ → List ℕ
  pub owned_outputs : ℕ → List ℕ
  pub thread_safe : ℕ → Bool

abbrev put_all : List ℕ → ℕ → Threads → Threads
put_all [] index m = m
put_all (p ∷ ports) index m = put_all ports index (put p index m)

module _ (w : Ports) where
  pub map_children : Children → ℕ → Threads → Threads
  map_children end index m = m
  map_children (leaf n a cs) index m =
      map_children cs index (put_all (w.owned_outputs a) index (put_all (w.owned_inputs a) index m))
  map_children (sub n d g cs) index m = map_children cs index m

  -- map_ports()
  unfoldable pub map_ports : Threads → List GroupNode → Threads → Result RunnerError Threads
  unfolding map_children
  map_ports threads [] m = ok m
  map_ports threads (n ∷ rest) m =
      thread_at (address n.node) threads
      >>= (λ index. map_ports threads rest (map_children (children n.node) index m))

  abbrev check_connection : Threads → ℕ × ℕ → Result RunnerError (Unit {0})
  check_connection ports (out, in_port) = do
    out_thread ← thread_at out ports
    in_thread ← thread_at in_port ports
    guard (out_thread == in_thread || w.thread_safe in_port) (unsafe_connection in_port)

  check_connections : Threads → List (ℕ × ℕ) → Result RunnerError (Unit {0})
  check_connections ports [] = ok tt
  check_connections ports (c ∷ rest) = check_connection ports c >> check_connections ports rest

  -- validate_connections()
  unfoldable pub validate_connections : Threads → List GroupNode → Result RunnerError (Unit {0})
  unfolding check_connections
  validate_connections ports [] = ok tt
  validate_connections ports (n ∷ rest) =
      check_connections ports (info n.node).connections >> validate_connections ports rest

-- The groups that get a turn of their own: the root, and those assigned to a thread.
unfoldable pub is_unit : List (ℕ × ℕ) → GroupNode → Bool
is_unit assigned n = elim n.parent [
  | none ↦ true
  | some p ↦ elim (lookup (address n.node) assigned) [ none ↦ false | some t ↦ true ]
]

abbrev add_unit :
    Result RunnerError ℕ
    → Group
    → Result RunnerError (List (ℕ × Group))
    → Result RunnerError (List (ℕ × Group))
add_unit thread g later = do t ← thread; units ← later; ok ((t, g) ∷ units)

-- The units of `launch_threads`, each with its thread, in the order of the groups.
unfoldable pub launch_units :
    List (ℕ × ℕ) → Threads → List GroupNode → Result RunnerError (List (ℕ × Group))
unfolding is_unit
launch_units assigned threads [] = ok []
launch_units assigned threads (n ∷ rest) =
    let later = launch_units assigned threads rest in
    if is_unit assigned n then add_unit (thread_at (address n.node) threads) n.node later else later

-- apply_detach(): a subgroup with a thread of its own is left out of its parent's pass.
unfoldable mutual
  pub apply_detach : List (ℕ × ℕ) → Group → Group
  apply_detach assigned (group i cs) = group i (detach_in assigned cs)

  pub detach_in : List (ℕ × ℕ) → Children → Children
  detach_in assigned end = end
  detach_in assigned (leaf n a cs) = leaf n a (detach_in assigned cs)
  detach_in assigned (sub n d g cs) =
      sub n (elim (lookup (address g) assigned) [ none ↦ d | some t ↦ true ])
        (apply_detach assigned g) (detach_in assigned cs)

-- undo_detach(): the flags that `apply_detach` set are cleared.
unfoldable mutual
  pub undo_detach : List (ℕ × ℕ) → Group → Group
  undo_detach assigned (group i cs) = group i (undo_in assigned cs)

  pub undo_in : List (ℕ × ℕ) → Children → Children
  undo_in assigned end = end
  undo_in assigned (leaf n a cs) = leaf n a (undo_in assigned cs)
  undo_in assigned (sub n d g cs) =
      sub n (elim (lookup (address g) assigned) [ none ↦ d | some t ↦ false ])
        (undo_detach assigned g) (undo_in assigned cs)
