-- ===== src/Tests/Runners.antt =====
-- Runs of src/runtime/include/atp/runtime/pipeline_runner.hpp.
use mathlib.Core.List.{Perm}
use ani_tools_platform.Prelude.{
  ℕ, ◌≡◌, ◌⊎◌, refl, ◌+◌, true, false, List, [], ◌∷◌, none, some, if◌then◌else◌, codes, Result, ok,
  err, All,
}
use ani_tools_platform.Prelude.Int.{pos}
use ani_tools_platform.Prelude.Assoc.{lookup, put, nat_eq}
use ani_tools_platform.Io.Output.{member}
use ani_tools_platform.Io.Output.Connect.{Distinct}
use ani_tools_platform.Runtime.Tree.{Group, WorkStatus, idle, address, addresses, leaves}
use ani_tools_platform.Runtime.Cascade.{Trace}
use ani_tools_platform.Runtime.Cascade.Balance.{count, initialized, stopped}
use ani_tools_platform.Runtime.Iterate.Flat.{iterate_all}
use ani_tools_platform.Runtime.Runner.{new_runner, throttled, default_options, foreign_group}
use ani_tools_platform.Runtime.Runner.Config.{Setup, IsConfigured, set_up, set_up-IsConfigured}
use ani_tools_platform.Runtime.Runner.Config
use ani_tools_platform.Runtime.Runner.Layout.{
  Ports, Threads, build_thread_map, collect_groups, launch_units, apply_detach,
}
use ani_tools_platform.Runtime.Runner.Layout.Threads.{own_thread, threads_of, keys, puts}
use ani_tools_platform.Runtime.Runner.Layout.Assigned.{AllInside, build_thread_map_lem}
use ani_tools_platform.Runtime.Runner.Layout.Partition.{IsWhole, runs, placed, launch-partition}
use ani_tools_platform.Runtime.Runner.Run.Idle.{
  Control, declares, starts, stops, captures, waits, IsConsistent, new_system, control_all,
  control_all-IsConsistent,
}
use ani_tools_platform.Runtime.Runner.Run.Balance.{control_all-balances}
use ani_tools_platform.Runtime.Runner.Loop.{
  Pacing, fresh_pacing, iterate_units, pace, yields, sleeps, wakes,
}
use ani_tools_platform.Runtime.Runner.Loop.Units.{unit_leaves, iterate_units-eq-iterate_all}
use ani_tools_platform.Runtime.Runner.Loop.Backoff.{
  Turn, turns, backoff, expected_pauses, streak, timed_waits, IsAnswered, turns-streak,
  turns-notified,
}
use ani_tools_platform.Tests.Pipelines.{
  small_pipeline, inner_group, faulty, short_pass, fresh_state,
}

-- The inner group on a second thread.
abbrev two_threads : Threads
two_threads = (11, 1) ∷ []

abbrev calls : List Setup
calls =
    Config.declares (codes "main") default_options
    ∷ Config.declares (codes "main") default_options
    ∷ Config.declares (codes "tick") (record { mode = throttled; period = pos 5 })
    ∷ Config.assigns 11 (codes "tick")
    ∷ []

new-IsConfigured : IsConfigured new_runner
new-IsConfigured = record { paced = tt; distinct = tt; declared = tt }

set_up-IsConfigured_example : IsConfigured (set_up calls new_runner)
set_up-IsConfigured_example = set_up-IsConfigured calls new_runner new-IsConfigured

Distinct-addresses : Distinct (addresses small_pipeline)
unfolding addresses member
Distinct-addresses = (refl, (refl, tt))

Distinct-keys : Distinct (keys two_threads)
unfolding member
Distinct-keys = (refl, tt)

small-IsWhole : IsWhole small_pipeline
unfolding IsWhole
small-IsWhole = (refl, tt, tt)

builds :
    build_thread_map two_threads (collect_groups small_pipeline none) ≡ ok ((10, 0) ∷ (11, 1) ∷ [])
unfolding build_thread_map collect_groups lookup put
builds = refl

build_thread_map_lem_example :
    (AllInside two_threads small_pipeline
      × (All
          (λ e. lookup e.0 (puts (threads_of two_threads 0 small_pipeline) []) ≡ some e.1)
          (threads_of two_threads 0 small_pipeline))
      × (build_thread_map two_threads (collect_groups small_pipeline none)
          ≡ ok (puts (threads_of two_threads 0 small_pipeline) [])))
    ⊎ ((¬ AllInside two_threads small_pipeline)
        × (build_thread_map two_threads (collect_groups small_pipeline none) ≡ err foreign_group))
build_thread_map_lem_example =
    build_thread_map_lem two_threads small_pipeline Distinct-addresses Distinct-keys

launch-partition_example :
    (units : List (ℕ × Group)) × (launch_units two_threads
        ((10, 0) ∷ (11, 1) ∷ [])
        (collect_groups (apply_detach two_threads small_pipeline) none)
      ≡ ok units)
    × Perm
        (runs units)
        (placed two_threads (own_thread two_threads 0 (address small_pipeline)) small_pipeline)
launch-partition_example =
    launch-partition two_threads ((10, 0) ∷ (11, 1) ∷ []) small_pipeline Distinct-addresses
      small-IsWhole builds

abbrev no_ports : Ports
no_ports = record { owned_inputs = λ a. []; owned_outputs = λ a. []; thread_safe = λ a. true }

-- A start that fails, a stop that does nothing, and another start.
abbrev bad_day : List Control
bad_day =
    declares (codes "main") default_options ∷ starts ∷ captures 5 ∷ stops ∷ starts ∷ waits ∷ []

control_all-IsConsistent_example :
    IsConsistent small_pipeline (control_all faulty no_ports bad_day (new_system small_pipeline))
control_all-IsConsistent_example =
    control_all-IsConsistent faulty no_ports bad_day small_pipeline small-IsWhole

control_all-balances_example :
    initialized faulty 2 (control_all faulty no_ports bad_day (new_system small_pipeline)).trace
    ≡ stopped 2 (control_all faulty no_ports bad_day (new_system small_pipeline)).trace
      + (if (control_all faulty no_ports bad_day (new_system small_pipeline)).runner.running
          then count 2 (leaves small_pipeline)
          else 0)
control_all-balances_example =
    control_all-balances faulty 2 no_ports small_pipeline bad_day small-IsWhole

iterate_units-eq-iterate_all_example :
    ◌≡◌ {A = Trace × Result ℕ WorkStatus}
      (
        (iterate_units short_pass (small_pipeline ∷ inner_group ∷ []) idle fresh_state).0.trace,
        (iterate_units short_pass (small_pipeline ∷ inner_group ∷ []) idle fresh_state).1,
      )
      (iterate_all short_pass
        (unit_leaves (small_pipeline ∷ inner_group ∷ []))
        idle
        fresh_state.trace)
iterate_units-eq-iterate_all_example =
    iterate_units-eq-iterate_all short_pass (small_pipeline ∷ inner_group ∷ []) fresh_state

-- Six idle turns, the last with a notification.
abbrev quiet : List Turn
quiet =
    (false, idle)
    ∷ (false, idle)
    ∷ (false, idle)
    ∷ (false, idle)
    ∷ (false, idle)
    ∷ (false, idle)
    ∷ (true, idle)
    ∷ []

backs_off :
    (turns default_options quiet fresh_pacing).pauses
    ≡ wakes 10 ∷ sleeps 10 ∷ sleeps 8 ∷ sleeps 4 ∷ sleeps 2 ∷ sleeps 1 ∷ yields ∷ []
unfolding turns pace
backs_off = refl

starts_at_zero : fresh_pacing.delay ≡ backoff 0
unfolding backoff
starts_at_zero = refl

turns-streak_example :
    ((turns default_options quiet fresh_pacing).pauses ≡ expected_pauses quiet 0 false [])
    × ((turns default_options quiet fresh_pacing).delay ≡ backoff (streak quiet 0 false))
turns-streak_example = turns-streak default_options refl quiet 0 fresh_pacing starts_at_zero

abbrev notified_pacing : Pacing
notified_pacing = record fresh_pacing { signaled = true }

turns-notified_example :
    IsAnswered (timed_waits notified_pacing.pauses) (turns default_options quiet notified_pacing)
turns-notified_example = turns-notified default_options refl quiet notified_pacing refl
