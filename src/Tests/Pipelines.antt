-- ===== src/Tests/Pipelines.antt =====
-- Runs of src/runtime/include/atp/runtime/group.hpp.
use mathlib.Core.List.{reverse}
use ani_tools_platform.Prelude.{
  ℕ, ◌≡◌, ◌<◌, ◌^◌, refl, false, List, [], ◌∷◌, none, some, ◌==◌, if◌then◌else◌, Text, codes,
  Result, ok, length, arith,
}
use ani_tools_platform.Runtime.Tree.{
  Group, GroupInfo, group, end, leaf, sub, WorkStatus, idle, busy, leaves,
}
use ani_tools_platform.Runtime.Cascade.{Modules, Trace, initializes, stops, initialize, stop}
use ani_tools_platform.Runtime.Cascade.Flat.{stop_all, initialize_all}
use ani_tools_platform.Runtime.Cascade.Stop.{stop-eq-stop_all}
use ani_tools_platform.Runtime.Cascade.Initialize.{initialize-eq-initialize_all}
use ani_tools_platform.Runtime.Iterate.{Execution, State, iterate, zero_counters}
use ani_tools_platform.Runtime.Iterate.Flat.{attached, iterate_all, iterate-eq-iterate_all}
use ani_tools_platform.Runtime.Iterate.Metrics.{
  Sample, record_costs, busy_count, total_span, longest_span, record_costs-exact,
}

abbrev pub info_at : ℕ → Text → GroupInfo
info_at a name = record {
  address = a;
  name = name;
  metrics_enabled = false;
  connections = [];
  inputs = [];
  outputs = [];
}

-- Module 1, a group of the modules 2 and 3, and module 4.
abbrev pub inner_group : Group
inner_group = group (info_at 11 (codes "inner")) (leaf (codes "b") 2 (leaf (codes "c") 3 end))

abbrev pub small_pipeline : Group
small_pipeline =
    group (info_at 10 (codes "root"))
      (leaf (codes "a") 1 (sub (codes "inner") false inner_group (leaf (codes "d") 4 end)))

-- Module 4 cannot be initialised, and modules 2 and 3 throw when they are stopped.
abbrev pub faulty : Modules
faulty = record {
  initialize = λ a t. if a == 4 then some 44 else none;
  start = λ a t. if a == 3 then some 33 else none;
  stop = λ a t. if a == 3 then some 3 else if a == 2 then some 2 else none;
}

rolls_back : initialize faulty small_pipeline [] ≡ (
  stops 1 ∷ stops 2 ∷ stops 3 ∷ initializes 4 ∷ initializes 3 ∷ initializes 2 ∷ initializes 1 ∷ [],
  some 44,
)
unfolding initialize
rolls_back = refl

first_failure : (stop faulty small_pipeline []).1 ≡ some 3
unfolding stop
first_failure = refl

initialize-eq-initialize_all_example :
    initialize faulty small_pipeline [] ≡ initialize_all faulty (leaves small_pipeline) [] []
initialize-eq-initialize_all_example = initialize-eq-initialize_all faulty small_pipeline []

stop-eq-stop_all_example :
    stop faulty small_pipeline [] ≡ stop_all faulty (reverse (leaves small_pipeline)) []
stop-eq-stop_all_example = stop-eq-stop_all faulty small_pipeline []

-- Module 2 has work to do, and the stop token is set once three modules have run.
abbrev pub short_pass : Execution
short_pass = record {
  iterate = λ a t. if a == 2 then ok busy else ok idle;
  stop_requested = λ t. length t == 3;
  clock = λ n. n;
}

abbrev pub fresh_state : State
fresh_state = record { trace = []; readings = 0; counters = λ a. zero_counters }

stops_early : (iterate short_pass small_pipeline fresh_state).1 ≡ ok busy
unfolding iterate
stops_early = refl

iterate-eq-iterate_all_example :
    ◌≡◌ {A = Trace × Result ℕ WorkStatus}
      (
        (iterate short_pass small_pipeline fresh_state).0.trace,
        (iterate short_pass small_pipeline fresh_state).1,
      )
      (iterate_all short_pass (attached small_pipeline) idle fresh_state.trace)
iterate-eq-iterate_all_example = iterate-eq-iterate_all short_pass small_pipeline fresh_state

abbrev two_calls : List Sample
two_calls =
    record { begin = 5; finish = 9; status = busy }
    ∷ record { begin = 20; finish = 21; status = idle }
    ∷ []

sum_of_two : total_span two_calls < 2 ^ 64
unfolding total_span
sum_of_two = omega arith

record_costs-exact_example :
    ((record_costs two_calls zero_counters).calls ≡ length two_calls)
    × ((record_costs two_calls zero_counters).busy_calls ≡ busy_count two_calls)
    × ((record_costs two_calls zero_counters).total_ns ≡ total_span two_calls)
    × ((record_costs two_calls zero_counters).max_ns ≡ longest_span two_calls)
record_costs-exact_example = record_costs-exact two_calls (omega arith) sum_of_two
