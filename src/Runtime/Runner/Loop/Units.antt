-- ===== src/Runtime/Runner/Loop/Units.antt =====
-- src/runtime/include/atp/runtime/pipeline_runner.hpp: what one turn of a pool thread runs.
use ani_tools_platform.Prelude.{ℕ, ◌≡◌, refl, List, [], ◌∷◌, ◌++◌, arith, Result}
use ani_tools_platform.Runtime.Tree.{Group, WorkStatus, idle, busy}
use ani_tools_platform.Runtime.Cascade.{Trace}
use ani_tools_platform.Runtime.Iterate.{Execution, State, join, iterate}
use ani_tools_platform.Runtime.Iterate.Flat.{
  attached, seen, iterate_all, iterate_all-append, iterate_all-join, iterate-eq-iterate_all,
}
use ani_tools_platform.Runtime.Runner.Loop.{iterate_units}

-- The modules that a thread runs in a turn.
unfoldable pub unit_leaves : List Group → List ℕ
unit_leaves [] = []
unit_leaves (g ∷ gs) = attached g ++ unit_leaves gs

module _ (x : Execution) where
  units_flat :
      (gs : List Group) (pass : WorkStatus) (s : State)
      → seen x (iterate_units x gs pass s) ≡ iterate_all x (unit_leaves gs) pass s.trace
  unfolding iterate_units unit_leaves iterate_all
  units_flat [] pass s = refl
  units_flat (g ∷ gs) pass s = ground (
    arith,
    iterate-eq-iterate_all x g s,
    iterate_all-append x (attached g) (unit_leaves gs) pass s.trace,
    iterate_all-join x (attached g) pass idle s.trace,
    units_flat gs (join pass idle) (iterate x g s).0,
    units_flat gs (join pass busy) (iterate x g s).0,
  )

  -- A turn of a thread calls `iterate` on the attached modules of its groups, group by group and in
  -- insertion order, until the stop token is set or one of them throws, which ends the turn; it is
  -- busy exactly if one of those called was busy.
  pub iterate_units-eq-iterate_all :
      (gs : List Group) (s : State)
      → ◌≡◌ {A = Trace × Result ℕ WorkStatus}
          ((iterate_units x gs idle s).0.trace, (iterate_units x gs idle s).1)
          (iterate_all x (unit_leaves gs) idle s.trace)
  iterate_units-eq-iterate_all gs s = units_flat gs idle s
