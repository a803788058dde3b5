-- ===== src/Runtime/Runner/Loop.antt =====
-- src/runtime/include/atp/runtime/pipeline_runner.hpp: the loop of one pool thread. What reaches it
-- from outside, the notifications, is a list with an entry for each turn, so a run over a list of n
-- turns is the first n turns of the loop.
pub mod Units
pub mod Backoff
use ani_tools_platform.Prelude.{
  ℕ, ◌+◌, ◌*◌, ◌==◌, min, Bool, true, false, ◌||◌, List, [], ◌∷◌, ◌++◌, Option, none, some,
  if◌then◌else◌, Result, ok, err, incr64,
}
use ani_tools_platform.Prelude.Int.{ℤ}
use ani_tools_platform.Runtime.Tree.{Group, WorkStatus, idle, busy}
use ani_tools_platform.Runtime.Iterate.{Execution, State, Pass, join, iterate}
use ani_tools_platform.Runtime.Runner.{ThreadMode, on_demand, throttled, spinning, ThreadOptions}

-- idle_sleep_initial, idle_sleep_cap, in milliseconds
abbrev pub idle_sleep_initial : ℕ
idle_sleep_initial = 1

abbrev pub idle_sleep_cap : ℕ
idle_sleep_cap = 10

-- What the thread does after a pass: yields, sleeps a whole delay, sleeps until a notification comes
-- within a delay, or waits for the next tick.
pub data Pause : Type 0 where
  yields : Pause
  sleeps wakes : ℕ → Pause
  ticks : ℤ → Pause

-- The locals of run_loop, the flag of the thread's signal and the thread's counters. `pauses` has the
-- latest first.
pub record Pacing : Type 0 where
  pub delay : ℕ
  pub signaled : Bool
  pub passes : ℕ
  pub busy_passes : ℕ
  pub pauses : List Pause

abbrev pub fresh_pacing : Pacing
fresh_pacing = record { delay = 0; signaled = false; passes = 0; busy_passes = 0; pauses = [] }

-- counter.passes.fetch_add(1), counter.busy.fetch_add(1)
abbrev pub count_pass : WorkStatus → Pacing → Pacing
count_pass busy l = record l { passes = incr64 l.passes; busy_passes = incr64 l.busy_passes }
count_pass idle l = record l { passes = incr64 l.passes }

-- An idle turn of an on-demand thread.
unfoldable pub back_off : Pacing → Pacing
back_off l =
    if l.delay == 0
    then record l { delay = idle_sleep_initial; pauses = yields ∷ l.pauses }
    else if l.signaled
    then record l { delay = 0; signaled = false; pauses = wakes l.delay ∷ l.pauses }
    else record l {
      delay = min (l.delay * 2) idle_sleep_cap;
      signaled = false;
      pauses = sleeps l.delay ∷ l.pauses;
    }

-- The switch over the mode.
unfoldable pub pace : ThreadOptions → WorkStatus → Pacing → Pacing
unfolding back_off
pace o pass l = elim o.mode [
  | spinning ↦ record l { pauses = yields ∷ l.pauses }
  | throttled ↦ record l { pauses = ticks o.period ∷ l.pauses }
  | on_demand ↦ elim pass [ busy ↦ record l { delay = 0 } | idle ↦ back_off l ]
]

-- `notified`: notify() was called since the last turn, before this turn's wait was over.
abbrev pub notify : Bool → Pacing → Pacing
notify notified l = record l { signaled = l.signaled || notified }

abbrev pub turn : ThreadOptions → Bool → WorkStatus → Pacing → Pacing
turn o notified pass l = pace o pass (count_pass pass (notify notified l))

module _ (x : Execution) where
  unfoldable pub iterate_units : List Group → WorkStatus → State → Pass
  iterate_units [] pass s = (s, ok pass)
  iterate_units (g ∷ gs) pass s =
      let (s', r) = iterate x g s in
      elim r [ err e ↦ (s', err e) | ok status ↦ iterate_units gs (join pass status) s' ]

  -- `some e`: the loop has ended by an exception, which is handed to capture_error.
  unfoldable pub run_loop :
      List Group → ThreadOptions → List Bool → State → Pacing → (State × Pacing) × Option ℕ
  unfolding iterate_units pace
  run_loop units o [] s l = ((s, l), none)
  run_loop units o (notified ∷ later) s l = elim (x.stop_requested s.trace) [
    | true ↦ ((s, l), none)
    | false ↦
        let (s', r) = iterate_units units idle s in
        elim r [
          | err e ↦ ((s', notify notified l), some e)
          | ok pass ↦ run_loop units o later s' (turn o notified pass l)
        ]
  ]
