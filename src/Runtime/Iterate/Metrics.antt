-- ===== src/Runtime/Iterate/Metrics.antt =====
-- The timing of src/runtime/include/atp/runtime/group.hpp: when it is on, when it is
-- off, and what it counts.
use ani_tools_platform.Prelude.{
  ℕ, suc, ◌+◌, ◌-◌, ◌^◌, ◌≤◌, ◌<◌, ◌≡◌, refl, ap, Bool, true, false, List, [], ◌∷◌, arith, max,
  length,
}
use ani_tools_platform.Runtime.Tree.{Group, Children, group, end, leaf, sub, WorkStatus, idle, busy}
use ani_tools_platform.Runtime.Iterate.{
  Execution, State, ChildCounters, zero_counters, record_cost, join, iterate_leaf, iterate,
  iterate_children, set_metrics, set_metrics_in,
}
use ani_tools_platform.Runtime.Iterate.Flat.{attached, attached_in, iterate-eq-iterate_all}

mutual
  unfolding set_metrics attached

  attached-set_metrics :
      (on recursive : Bool) (g : Group) → attached (set_metrics on recursive g) ≡ attached g
  attached-set_metrics on true (group i cs) = attached-set_metrics_in on cs
  attached-set_metrics on false (group i cs) = refl

  attached-set_metrics_in :
      (on : Bool) (cs : Children) → attached_in (set_metrics_in on cs) ≡ attached_in cs
  attached-set_metrics_in on end = refl
  attached-set_metrics_in on (leaf n a cs) = ap (◌∷◌ a) (attached-set_metrics_in on cs)
  attached-set_metrics_in on (sub n true g cs) = attached-set_metrics_in on cs
  attached-set_metrics_in on (sub n false g cs) =
      cc (attached-set_metrics on true g, attached-set_metrics_in on cs)

module _ (x : Execution) where
  -- Switching the metrics on or off, for one group or for its whole subtree, changes neither which
  -- modules a pass calls, nor their order, nor its answer.
  pub iterate-set_metrics :
      (on recursive : Bool) (g : Group) (s : State)
      → ((iterate x (set_metrics on recursive g) s).0.trace ≡ (iterate x g s).0.trace)
        × ((iterate x (set_metrics on recursive g) s).1 ≡ (iterate x g s).1)
  iterate-set_metrics on recursive g s = ground (
    arith,
    iterate-eq-iterate_all x (set_metrics on recursive g) s,
    iterate-eq-iterate_all x g s,
    attached-set_metrics on recursive g,
  )

  abbrev Untimed : State → State → Type 0
  Untimed s s' = (s'.counters ≡ s.counters) × (s'.readings ≡ s.readings)

  mutual
    unfolding iterate set_metrics

    Untimed-iterate : (g : Group) (s : State) → Untimed s (iterate x (set_metrics false true g) s).0
    Untimed-iterate (group i cs) s = Untimed-children cs idle s

    Untimed-children :
        (cs : Children) (pass : WorkStatus) (s : State)
        → Untimed s (iterate_children x false (set_metrics_in false cs) pass s).0
    Untimed-children end pass s = (refl, refl)
    Untimed-children (leaf n a cs) pass s =
        let s' = (iterate_leaf x a s).0 in
        ground
          (arith, Untimed-children cs (join pass idle) s', Untimed-children cs (join pass busy) s')
    Untimed-children (sub n true g cs) pass s = ground (arith, Untimed-children cs pass s)
    Untimed-children (sub n false g cs) pass s =
        let s' = (iterate x (set_metrics false true g) s).0 in
        ground (
          arith,
          Untimed-iterate g s,
          Untimed-children cs (join pass idle) s',
          Untimed-children cs (join pass busy) s',
        )

  -- With the metrics switched off for a whole subtree, a pass over it never reads the clock and
  -- leaves every counter as it was.
  pub iterate-set_metrics_off :
      (g : Group) (s : State)
      → ((iterate x (set_metrics false true g) s).0.counters ≡ s.counters)
        × ((iterate x (set_metrics false true g) s).0.readings ≡ s.readings)
  iterate-set_metrics_off g s = Untimed-iterate g s

-- A timed call: the two readings of the clock and the answer.
pub record Sample : Type 0 where
  pub begin : ℕ
  pub finish : ℕ
  pub status : WorkStatus

unfoldable pub record_costs : List Sample → ChildCounters → ChildCounters
record_costs [] c = c
record_costs (s ∷ rest) c = record_costs rest (record_cost s.begin s.finish s.status c)

unfoldable pub busy_count : List Sample → ℕ
busy_count [] = 0
busy_count (s ∷ rest) = elim s.status [ busy ↦ suc (busy_count rest) | idle ↦ busy_count rest ]

unfoldable pub total_span : List Sample → ℕ
total_span [] = 0
total_span (s ∷ rest) = (s.finish - s.begin) + total_span rest

unfoldable pub longest_span : List Sample → ℕ
longest_span [] = 0
longest_span (s ∷ rest) = max (s.finish - s.begin) (longest_span rest)

record_costs-from :
    (samples : List Sample) (c : ChildCounters)
    → c.calls + length samples < 2 ^ 64
    → c.busy_calls ≤ c.calls
    → c.total_ns + total_span samples < 2 ^ 64
    → ((record_costs samples c).calls ≡ c.calls + length samples)
      × ((record_costs samples c).busy_calls ≡ c.busy_calls + busy_count samples)
      × ((record_costs samples c).total_ns ≡ c.total_ns + total_span samples)
      × ((record_costs samples c).max_ns ≡ max c.max_ns (longest_span samples))
unfolding record_costs record_cost busy_count total_span longest_span
record_costs-from [] c h b t = omega arith
record_costs-from (s ∷ rest) c h b t =
    ground (arith, record_costs-from rest (record_cost s.begin s.finish s.status c))

-- The counters of a child are exact as long as fewer than 2^64 calls are timed and the spans add up
-- to less than 2^64 ns: how many calls, how many of them busy, the sum of the spans and the longest.
pub record_costs-exact :
    (samples : List Sample)
    → length samples < 2 ^ 64
    → total_span samples < 2 ^ 64
    → ((record_costs samples zero_counters).calls ≡ length samples)
      × ((record_costs samples zero_counters).busy_calls ≡ busy_count samples)
      × ((record_costs samples zero_counters).total_ns ≡ total_span samples)
      × ((record_costs samples zero_counters).max_ns ≡ longest_span samples)
record_costs-exact samples h t = omega (arith, record_costs-from samples zero_counters)
