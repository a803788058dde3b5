-- ===== src/Runtime/Runner/Run.antt =====
-- src/runtime/include/atp/runtime/pipeline_runner.hpp: start, stop and wait, with what they leave
-- behind on every failure. The threads themselves run between these calls; what reaches the owner of
-- them is the first failure. Creating a thread is taken to succeed.
pub mod Idle
pub mod Balance
use ani_tools_platform.Prelude.{
  ℕ, zero, suc, Bool, true, false, not, ◌&&◌, List, [], ◌∷◌, ◌++◌, Option, none, some, ◌==◌,
  if◌then◌else◌, Text, codes, Result, ok, err, ◌>>=◌, ◌>>◌, get_elem?,
}
use ani_tools_platform.Prelude.Assoc.{lookup, nat_eq}
use ani_tools_platform.Runtime.Tree.{
  Group, Children, group, end, leaf, sub, info, children, address,
}
use ani_tools_platform.Runtime.Cascade.{Modules, Trace, Failure, first, initialize}
use ani_tools_platform.Runtime.Cascade
use ani_tools_platform.Runtime.Runner.{
  Runner, RunnerError, already_running, thrown, ThreadMode, on_demand, throttled, spinning,
  ThreadConfig, default_options,
}
use ani_tools_platform.Runtime.Runner.Layout.{
  GroupNode, collect_groups, Threads, thread_at, build_thread_map, Ports, map_ports,
  validate_connections, launch_units, apply_detach, undo_detach,
}

-- The runner with the pipeline that it drives. `notified` are the inputs with a notifier installed,
-- each with the thread that it wakes, `hosts` the children with a wake handle, `units` what the
-- threads run.
pub record System : Type 0 where
  pub runner : Runner
  pub root : Group
  pub trace : Trace
  pub notified : List (ℕ × ℕ)
  pub hosts : List (ℕ × ℕ)
  pub units : List (ℕ × Group)

pub record Plan : Type 0 where
  pub threads : Threads
  pub ports : Threads

-- if (threads_config_.empty()) threads_config_.push_back({"main", {}});
abbrev pub with_main : List ThreadConfig → List ThreadConfig
with_main [] = record { name = codes "main"; options = default_options } ∷ []
with_main (t ∷ rest) = t ∷ rest

abbrev pub fresh_run : Runner → Runner
fresh_run r = record r { threads = with_main r.threads; error = none }

is_on_demand : List ThreadConfig → ℕ → Bool
is_on_demand threads i = elim (get_elem? threads i) [
  | none ↦ false
  | some t ↦ elim t.options.mode [ on_demand ↦ true | throttled ↦ false | spinning ↦ false ]
]

thread_or : ℕ → ℕ → Threads → ℕ
thread_or d a m = elim (lookup a m) [ none ↦ d | some t ↦ t ]

-- The inputs of the connections that cross into an on-demand thread.
notifiers_of : List ThreadConfig → Threads → List (ℕ × ℕ) → List (ℕ × ℕ)
unfolding is_on_demand thread_or
notifiers_of threads ports [] = []
notifiers_of threads ports ((out, in_port) ∷ rest) =
    let in_thread = thread_or 0 in_port ports in
    let later = notifiers_of threads ports rest in
    if not (thread_or 0 out ports == in_thread) && is_on_demand threads in_thread
    then (in_port, in_thread) ∷ later
    else later

-- A module is woken on the thread of its group, a subgroup on its own.
hosts_of : List ThreadConfig → Threads → ℕ → Children → List (ℕ × ℕ)
unfolding is_on_demand thread_or
hosts_of threads m index end = []
hosts_of threads m index (leaf n a cs) =
    let later = hosts_of threads m index cs in
    if is_on_demand threads index then (a, index) ∷ later else later
hosts_of threads m index (sub n d g cs) =
    let later = hosts_of threads m index cs in
    let thread = thread_or index (address g) m in
    if is_on_demand threads thread then (address g, thread) ∷ later else later

install_notifiers : List ThreadConfig → Threads → List GroupNode → List (ℕ × ℕ)
unfolding notifiers_of
install_notifiers threads ports [] = []
install_notifiers threads ports (n ∷ rest) =
    notifiers_of threads ports (info n.node).connections ++ install_notifiers threads ports rest

install_wake_handles : List ThreadConfig → Threads → List GroupNode → List (ℕ × ℕ)
unfolding hosts_of thread_or
install_wake_handles threads m [] = []
install_wake_handles threads m (n ∷ rest) =
    hosts_of threads m (thread_or 0 (address n.node) m) (children n.node)
    ++ install_wake_handles threads m rest

module _ (m : Modules) (w : Ports) where
  -- The steps of start() before anything is touched.
  unfoldable pub plan_run : Runner → Group → Result RunnerError Plan
  plan_run r root = do
    threads ← build_thread_map r.assigned (collect_groups root none)
    ports ← map_ports w threads (collect_groups root none) []
    validate_connections w ports (collect_groups root none)
    ok (record { threads = threads; ports = ports })

  -- store_error, capture_error: the first failure is kept.
  abbrev pub store_error : Failure → Runner → Runner
  store_error f r = record r { error = first r.error f }

  -- shutdown(), the threads joined. `assigned` is what the flags were set by: it cannot change while
  -- the runner runs.
  unfoldable pub shutdown : System → System
  shutdown s =
      let (t, f) = Cascade.stop m s.root s.trace in
      record {
        runner = record (store_error f s.runner) { running = false };
        root = undo_detach s.runner.assigned s.root;
        trace = t;
        notified = [];
        hosts = [];
        units = [];
      }

  unfoldable pub stop : System → System
  unfolding shutdown
  stop s = if not s.runner.running then s else shutdown s

  -- The rollback of start(): nothing is left installed, the flags are undone, and the runner is as it was
  -- before.
  abbrev back_out : System → Runner → Trace → RunnerError → System × Result RunnerError (Unit {0})
  back_out s r t e = (
    record s {
      runner = r;
      trace = t;
      root = undo_detach r.assigned (apply_detach r.assigned s.root);
      notified = [];
      hosts = [];
    },
    err e,
  )

  -- The running system before its threads are launched.
  brought_up : System → Runner → Plan → Trace → System
  unfolding install_notifiers install_wake_handles
  brought_up s r p t =
      let root = apply_detach r.assigned s.root in
      let groups = collect_groups root none in
      record {
        runner = record r { running = true };
        root = root;
        trace = t;
        notified = install_notifiers r.threads p.ports groups;
        hosts = install_wake_handles r.threads p.threads groups;
        units = [];
      }

  launched :
      System
      → Runner
      → Plan
      → Trace
      → Result RunnerError (List (ℕ × Group))
      → System × Result RunnerError (Unit {0})
  unfolding brought_up shutdown
  launched s r p t (err e) = (shutdown (brought_up s r p t), err e)
  launched s r p t (ok us) = (record (brought_up s r p t) { units = us }, ok tt)

  run_cascades : System → Runner → Plan → System × Result RunnerError (Unit {0})
  unfolding launched
  run_cascades s r p =
      let root = apply_detach r.assigned s.root in
      let (t, f) = initialize m root s.trace in
      elim f [
        | some e ↦ back_out s r t (thrown e)
        | none ↦
            let (t', f') = Cascade.start m root t in
            elim f' [
              | some e ↦ back_out s r (Cascade.stop m root t').0 (thrown e)
              | none ↦
                  launched s r p t' (launch_units r.assigned p.threads (collect_groups root none))
            ]
      ]

  pub start_planned :
      System → Runner → Result RunnerError Plan → System × Result RunnerError (Unit {0})
  unfolding run_cascades
  start_planned s r (err e) = (record s { runner = r }, err e)
  start_planned s r (ok p) = run_cascades s r p

  unfoldable pub start : System → System × Result RunnerError (Unit {0})
  unfolding start_planned plan_run
  start s =
      if s.runner.running
      then (s, err already_running)
      else start_planned s (fresh_run s.runner) (plan_run (fresh_run s.runner) s.root)

  -- A pass on a pool thread throws: the failure is captured.
  unfoldable pub capture : ℕ → System → System
  capture e s = if s.runner.running then record s { runner = store_error (some e) s.runner } else s

  -- wait(): `none` where it blocks, the pipeline being healthy.
  unfoldable pub wait : System → Option (System × Result RunnerError (Unit {0}))
  unfolding shutdown
  wait s =
      let after : System = if s.runner.running then shutdown s else s in
      elim s.runner.error [
        | none ↦ if s.runner.running then none else some (s, ok tt)
        | some e ↦ some (after, err (thrown e))
      ]
