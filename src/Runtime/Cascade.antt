-- ===== src/Runtime/Cascade.antt =====
-- src/runtime/include/atp/runtime/group.hpp: the lifecycle cascades over the children. What a module
-- answers is the plugin's code, so it is a parameter, which may depend on everything that was called
-- before.
pub mod Flat
pub mod Stop
pub mod Initialize
pub mod Balance
use ani_tools_platform.Prelude.{
  ℕ, Bool, true, false, List, [], ◌∷◌, ◌++◌, Option, none, some, if◌then◌else◌, Text,
}
use ani_tools_platform.Runtime.Tree.{Group, Children, group, end, leaf, sub}

-- The calls that reached a module, the latest first.
pub data Call : Type 0 where
  initializes starts stops iterates : ℕ → Call

abbrev pub Trace : Type 0
Trace = List Call

-- An exception is known by a number.
abbrev pub Failure : Type 0
Failure = Option ℕ

-- What a module's `initialize`, `start` and `stop` throw, if anything.
pub record Modules : Type 0 where
  pub initialize : ℕ → Trace → Failure
  pub start : ℕ → Trace → Failure
  pub stop : ℕ → Trace → Failure

-- if (!first) first = std::current_exception();
abbrev pub first : Failure → Failure → Failure
first none later = later
first (some e) later = some e

-- A child whose `initialize` returned.
pub data Child : Type 0 where
  plain : ℕ → Child
  subgroup : Group → Child

module _ (m : Modules) where
  abbrev pub initialize_leaf : ℕ → Trace → Trace × Failure
  initialize_leaf a t = (initializes a ∷ t, m.initialize a t)

  abbrev pub start_leaf : ℕ → Trace → Trace × Failure
  start_leaf a t = (starts a ∷ t, m.start a t)

  abbrev pub stop_leaf : ℕ → Trace → Trace × Failure
  stop_leaf a t = (stops a ∷ t, m.stop a t)

  -- stop(): the children in reverse order, past a failing one, the first failure kept.
  unfoldable mutual
    pub stop : Group → Trace → Trace × Failure
    stop (group i cs) t = stop_children cs t

    pub stop_children : Children → Trace → Trace × Failure
    stop_children end t = (t, none)
    stop_children (leaf n a cs) t =
        let (t', e) = stop_children cs t in let (t'', e') = stop_leaf a t' in (t'', first e e')
    stop_children (sub n d g cs) t =
        let (t', e) = stop_children cs t in let (t'', e') = stop g t' in (t'', first e e')

  -- start(): in insertion order, up to the first failure.
  unfoldable mutual
    pub start : Group → Trace → Trace × Failure
    start (group i cs) t = start_children cs t

    pub start_children : Children → Trace → Trace × Failure
    start_children end t = (t, none)
    start_children (leaf n a cs) t =
        let (t', e) = start_leaf a t in
        elim e [ none ↦ start_children cs t' | some f ↦ (t', some f) ]
    start_children (sub n d g cs) t =
        let (t', e) = start g t in elim e [ none ↦ start_children cs t' | some f ↦ (t', some f) ]

  abbrev stop_child : Child → Trace → Trace × Failure
  stop_child (plain a) t = stop_leaf a t
  stop_child (subgroup g) t = stop g t

  -- The children initialised so far, the latest first, are stopped; what they throw is swallowed.
  unfoldable pub roll_back : List Child → Trace → Trace
  unfolding stop
  roll_back [] t = t
  roll_back (c ∷ done) t = roll_back done (stop_child c t).0

  -- initialize(): in insertion order; a failure rolls the earlier children back and goes on up.
  unfoldable mutual
    unfolding roll_back

    pub initialize : Group → Trace → Trace × Failure
    initialize (group i cs) t = initialize_children cs [] t

    pub initialize_children : Children → List Child → Trace → Trace × Failure
    initialize_children end done t = (t, none)
    initialize_children (leaf n a cs) done t =
        let (t', e) = initialize_leaf a t in
        elim e [
          | none ↦ initialize_children cs (plain a ∷ done) t'
          | some f ↦ (roll_back done t', some f)
        ]
    initialize_children (sub n d g cs) done t =
        let (t', e) = initialize g t in
        elim e [
          | none ↦ initialize_children cs (subgroup g ∷ done) t'
          | some f ↦ (roll_back done t', some f)
        ]
