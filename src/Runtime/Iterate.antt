-- ===== src/Runtime/Iterate.antt =====
-- src/runtime/include/atp/runtime/group.hpp: one pass over the children of a group, with the timing
-- of each child when the group's metrics are on. The clock's readings, the stop token and what a
-- module's `iterate` answers are parameters.
pub mod Metrics
pub mod Flat
use ani_tools_platform.Prelude.{
  ℕ, suc, ◌+◌, ◌-◌, ◌%◌, ◌^◌, Bool, true, false, List, [], ◌∷◌, ◌++◌, if◌then◌else◌, max, Text,
  Result, ok, err, ◌==◌, incr64,
}
use ani_tools_platform.Runtime.Tree.{
  Group, GroupInfo, Children, group, end, leaf, sub, address, WorkStatus, idle, busy,
}
use ani_tools_platform.Runtime.Cascade.{Trace, iterates}

-- child_counters
pub record ChildCounters : Type 0 where
  pub calls : ℕ
  pub busy_calls : ℕ
  pub total_ns : ℕ
  pub max_ns : ℕ

abbrev pub zero_counters : ChildCounters
zero_counters = record { calls = 0; busy_calls = 0; total_ns = 0; max_ns = 0 }

-- child_counters::record. A negative span counts as none: `-` stops at 0.
unfoldable pub record_cost : ℕ → ℕ → WorkStatus → ChildCounters → ChildCounters
record_cost begin finish status c = record {
  calls = incr64 c.calls;
  busy_calls = elim status [ busy ↦ incr64 c.busy_calls | idle ↦ c.busy_calls ];
  total_ns = (c.total_ns + (finish - begin)) % 2 ^ 64;
  max_ns = max c.max_ns (finish - begin);
}

-- The calls so far, how often the clock was read, and the counters of the child at each address.
pub record State : Type 0 where
  pub trace : Trace
  pub readings : ℕ
  pub counters : ℕ → ChildCounters

pub record Execution : Type 0 where
  pub iterate : ℕ → Trace → Result ℕ WorkStatus
  pub stop_requested : Trace → Bool
  pub clock : ℕ → ℕ

-- if (status == work_status::busy) pass = work_status::busy;
abbrev pub join : WorkStatus → WorkStatus → WorkStatus
join pass busy = busy
join pass idle = pass

abbrev pub Pass : Type 0
Pass = State × Result ℕ WorkStatus

module _ (x : Execution) where
  abbrev pub iterate_leaf : ℕ → State → Pass
  iterate_leaf a s = (record s { trace = iterates a ∷ s.trace }, x.iterate a s.trace)

  -- The clock is read before and after the call, and not after one that throws.
  abbrev pub read_clock : Bool → State → State
  read_clock metrics s = if metrics then record s { readings = suc s.readings } else s

  abbrev note_cost : Bool → ℕ → ℕ → WorkStatus → State → State
  note_cost metrics a began status s =
      if metrics
      then record s {
        readings = suc s.readings;
        counters = λ b.
            if b == a
            then record_cost (x.clock began) (x.clock s.readings) status (s.counters b)
            else s.counters b;
      }
      else s

  unfoldable mutual
    unfolding record_cost

    pub iterate : Group → State → Pass
    iterate (group i cs) s = iterate_children i.metrics_enabled cs idle s

    pub iterate_children : Bool → Children → WorkStatus → State → Pass
    iterate_children metrics end pass s = (s, ok pass)
    iterate_children metrics (leaf n a cs) pass s = elim (x.stop_requested s.trace) [
      | true ↦ (s, ok pass)
      | false ↦
          let (s', r) = iterate_leaf a (read_clock metrics s) in
          elim r [
            | err e ↦ (s', err e)
            | ok status ↦
                iterate_children metrics cs (join pass status)
                  (note_cost metrics a s.readings status s')
          ]
    ]
    iterate_children metrics (sub n detached g cs) pass s = elim (x.stop_requested s.trace) [
      | true ↦ (s, ok pass)
      | false ↦ elim detached [
        | true ↦ iterate_children metrics cs pass s
        | false ↦
            let (s', r) = iterate g (read_clock metrics s) in
            elim r [
              | err e ↦ (s', err e)
              | ok status ↦
                  iterate_children metrics cs (join pass status)
                    (note_cost metrics (address g) s.readings status s')
            ]
      ]
    ]

-- set_metrics_enabled(on, recursive)
unfoldable mutual
  pub set_metrics : Bool → Bool → Group → Group
  set_metrics on recursive (group i cs) =
      group (record i { metrics_enabled = on })
        (elim recursive [ true ↦ set_metrics_in on cs | false ↦ cs ])

  pub set_metrics_in : Bool → Children → Children
  set_metrics_in on end = end
  set_metrics_in on (leaf n a cs) = leaf n a (set_metrics_in on cs)
  set_metrics_in on (sub n d g cs) = sub n d (set_metrics on true g) (set_metrics_in on cs)
