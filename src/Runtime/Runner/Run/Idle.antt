-- ===== src/Runtime/Runner/Run/Idle.antt =====
-- src/runtime/include/atp/runtime/pipeline_runner.hpp: what a runner does to the pipeline while it
-- runs and leaves of it afterwards.
use ani_tools_platform.Prelude.{
  ℕ, ◌≡◌, refl, ◌∙◌, ap, true, false, List, [], ◌∷◌, Option, none, some, arith, Text, Result, ok,
  err, Option-cases, Bool-cases, inl, inr, ◌⊎◌,
}
use ani_tools_platform.Prelude.Assoc.{nat_eq}
use ani_tools_platform.Runtime.Tree.{Group, Children, group, end, leaf, sub, address}
use ani_tools_platform.Runtime.Cascade.{Modules, Failure, Trace, initialize}
use ani_tools_platform.Runtime.Cascade
use ani_tools_platform.Runtime.Runner.{
  Runner, RunnerError, already_running, ThreadOptions, add_thread, assign, thrown, new_runner,
}
use ani_tools_platform.Runtime.Runner.Config.{kept}
use ani_tools_platform.Runtime.Runner.Layout.{
  Ports, apply_detach, detach_in, undo_detach, undo_in, launch_units, collect_groups,
}
use ani_tools_platform.Runtime.Runner.Layout.Partition.{IsWhole, WholeIn}
use ani_tools_platform.Runtime.Runner.Run.{
  System, Plan, fresh_run, plan_run, shutdown, stop, start, brought_up, launched, run_cascades,
  start_planned, back_out, capture, wait,
}

address-apply :
    (assigned : List (ℕ × ℕ)) (g : Group) → address (apply_detach assigned g) ≡ address g
unfolding apply_detach
address-apply assigned (group i cs) = refl

mutual
  unfolding apply_detach undo_detach IsWhole

  undo-apply :
      (assigned : List (ℕ × ℕ)) (g : Group)
      → IsWhole g
      → undo_detach assigned (apply_detach assigned g) ≡ g
  undo-apply assigned (group i cs) w = ap (group i) (undo-apply_in assigned cs w)

  undo-apply_in :
      (assigned : List (ℕ × ℕ)) (cs : Children)
      → WholeIn cs
      → undo_in assigned (detach_in assigned cs) ≡ cs
  undo-apply_in assigned end w = refl
  undo-apply_in assigned (leaf n a cs) w = ap (leaf n a) (undo-apply_in assigned cs w)
  undo-apply_in assigned (sub n d g cs) w = ground (
    arith,
    w.0,
    address-apply assigned g,
    undo-apply assigned g w.1,
    undo-apply_in assigned cs w.2,
  )

-- `g` is the pipeline as it was built. Running, its subgroups with a thread are detached and nothing
-- else of it is changed; not running, it is as it was built, no notifier or wake handle is installed
-- on it, and no thread runs.
abbrev pub IsKept : Group → System → Type 0
IsKept g s =
    (s.runner.running ≡ true → s.root ≡ apply_detach s.runner.assigned g)
    × (s.runner.running ≡ false
        → (s.root ≡ g) × (s.notified ≡ []) × (s.hosts ≡ []) × (s.units ≡ []))

-- What the owner of the runner calls, and `captures`, a pass that throws on a pool thread. A `waits`
-- that blocks is no step.
pub data Control : Type 0 where
  declares : Text → ThreadOptions → Control
  assigns : ℕ → Text → Control
  starts stops waits : Control
  captures : ℕ → Control

abbrev resumed : System → Option (System × Result RunnerError (Unit {0})) → System
resumed s none = s
resumed s (some out) = out.0

-- The same, by cases.
abbrev pub IsConsistent : Group → System → Type 0
IsConsistent g s =
    ((s.runner.running ≡ true) × (s.root ≡ apply_detach s.runner.assigned g))
    ⊎ ((s.runner.running ≡ false)
        × (s.root ≡ g)
        × (s.notified ≡ [])
        × (s.hosts ≡ [])
        × (s.units ≡ []))

-- A new runner, and a pipeline that was built and never run.
abbrev pub new_system : Group → System
new_system g = record {
  runner = new_runner;
  root = g;
  trace = [];
  notified = [];
  hosts = [];
  units = [];
}

pub IsKept-new_system : (g : Group) → IsKept g (new_system g)
IsKept-new_system g = (λ up. cc, λ down. (refl, refl, refl, refl))

module _ (m : Modules) (w : Ports) where
  shutdown-IsKept :
      (g : Group) (s : System)
      → IsWhole g
      → s.root ≡ apply_detach s.runner.assigned g
      → IsKept g (shutdown m w s)
  unfolding shutdown
  shutdown-IsKept g s h e = (
    λ up. cc,
    λ down.
        (ap (undo_detach s.runner.assigned) e ∙ undo-apply s.runner.assigned g h, refl, refl, refl),
  )

  pub stop-running : (s : System) → s.runner.running ≡ true → stop m w s ≡ shutdown m w s
  unfolding stop
  stop-running s e = ground arith

  pub stop-idle : (s : System) → s.runner.running ≡ false → stop m w s ≡ s
  unfolding stop
  stop-idle s e = ground arith

  stop-IsKept : (g : Group) (s : System) → IsWhole g → IsKept g s → IsKept g (stop m w s)
  stop-IsKept g s h c = elim (Bool-cases s.runner.running) [
    | inl up ↦ rw (stop-running s up) (shutdown-IsKept g s h (c.0 up))
    | inr down ↦ rw (stop-idle s down) c
  ]

  module _ (g : Group) (s : System) (h : IsWhole g) (same : s.root ≡ g) where
    launched-IsKept :
        (r : Runner) (p : Plan) (t : Trace) (units : Result RunnerError (List (ℕ × Group)))
        → IsKept g (launched m w s r p t units).0
    unfolding launched
    launched-IsKept r p t (err e) =
        shutdown-IsKept g (brought_up m w s r p t) h (ap (apply_detach r.assigned) same)
    launched-IsKept r p t (ok us) = (λ up. ap (apply_detach r.assigned) same, λ down. cc)

    module _ (r : Runner) (idle : r.running ≡ false) (quiet : s.notified ≡ []) (bare : s.hosts ≡ [])
        (empty : s.units ≡ []) where
      back_out-IsKept : (t : Trace) (e : RunnerError) → IsKept g (back_out m w s r t e).0
      back_out-IsKept t e = (
        λ up. cc (up, idle),
        λ down. (
          ap (λ root. undo_detach r.assigned (apply_detach r.assigned root)) same
              ∙ undo-apply r.assigned g h,
          refl,
          refl,
          empty,
        ),
      )

      run_cascades-IsKept : (p : Plan) → IsKept g (run_cascades m w s r p).0
      unfolding run_cascades
      run_cascades-IsKept p =
          let root = apply_detach r.assigned s.root in
          let t = (initialize m root s.trace).0 in
          let t' = (Cascade.start m root t).0 in
          elim (Option-cases (initialize m root s.trace).1) [
            | inr (e, failed) ↦ rw (failed, run_cascades) (back_out-IsKept t (thrown e))
            | inl done ↦ elim (Option-cases (Cascade.start m root t).1) [
              | inr (e, failed) ↦
                  rw (done, failed, run_cascades)
                    (back_out-IsKept (Cascade.stop m root t').0 (thrown e))
              | inl started ↦
                  rw (done, started, run_cascades)
                    (launched-IsKept r p t'
                      (launch_units r.assigned p.threads (collect_groups root none)))
            ]
          ]

      start_planned-IsKept :
          (plan : Result RunnerError Plan) → IsKept g (start_planned m w s r plan).0
      unfolding start_planned
      start_planned-IsKept (err e) = (λ up. cc (up, idle), λ down. (same, quiet, bare, empty))
      start_planned-IsKept (ok p) = run_cascades-IsKept p

  pub start-running : (s : System) → s.runner.running ≡ true → (start m w s).0 ≡ s
  unfolding start
  start-running s e = ground arith

  pub start-idle :
      (s : System)
      → s.runner.running ≡ false
      → start m w s
        ≡ start_planned m w s (fresh_run s.runner) (plan_run m w (fresh_run s.runner) s.root)
  unfolding start
  start-idle s e = ground arith

  start-IsKept : (g : Group) (s : System) → IsWhole g → IsKept g s → IsKept g (start m w s).0
  start-IsKept g s h c = elim (Bool-cases s.runner.running) [
    | inl up ↦ rw (start-running s up) c
    | inr down ↦
        let (same, quiet, bare, empty) = c.1 down in
        let r = fresh_run s.runner in
        rw (start-idle s down)
          (start_planned-IsKept g s h same r down quiet bare empty (plan_run m w r s.root))
  ]

  capture-IsKept : (e : ℕ) (g : Group) (s : System) → IsKept g s → IsKept g (capture m w e s)
  unfolding capture
  capture-IsKept e g s c = ground (arith, c.0, c.1)

  pub wait-blocks :
      (s : System) → s.runner.error ≡ none → s.runner.running ≡ true → wait m w s ≡ none
  unfolding wait
  wait-blocks s e up = ground arith

  pub wait-idle :
      (s : System) → s.runner.error ≡ none → s.runner.running ≡ false → wait m w s ≡ some (s, ok tt)
  unfolding wait
  wait-idle s e down = ground arith

  pub wait-rethrows :
      (s : System) (e : ℕ)
      → s.runner.error ≡ some e
      → wait m w s ≡ some (stop m w s, err (thrown e))
  unfolding wait stop
  wait-rethrows s e h = ground arith

  unfoldable pub control : Control → System → System
  unfolding add_thread assign start stop capture wait
  control (declares n o) s = record s { runner = kept s.runner (add_thread n o s.runner) }
  control (assigns a n) s = record s { runner = kept s.runner (assign a n s.runner) }
  control starts s = (start m w s).0
  control stops s = stop m w s
  control (captures e) s = capture m w e s
  control waits s = resumed s (wait m w s)

  unfoldable pub control_all : List Control → System → System
  unfolding control
  control_all [] s = s
  control_all (c ∷ cs) s = control_all cs (control c s)

  with_runner-IsKept :
      (x : Result RunnerError Runner) (g : Group) (s : System)
      → (s.runner.running ≡ true → x ≡ err already_running)
      → (kept s.runner x).running ≡ s.runner.running
      → IsKept g s
      → IsKept g (record s { runner = kept s.runner x })
  with_runner-IsKept x g s refused same k = elim (Bool-cases s.runner.running) [
    | inl up ↦ rw (refused up) k
    | inr down ↦ (λ up. cc (up, same, down), λ d. k.1 down)
  ]

  assign-running :
      (a : ℕ) (n : Text) (r : Runner) → r.running ≡ true → assign a n r ≡ err already_running
  unfolding assign
  assign-running a n r up = ground arith

  add_thread-running :
      (n : Text) (o : ThreadOptions) (r : Runner)
      → r.running ≡ true
      → add_thread n o r ≡ err already_running
  unfolding add_thread
  add_thread-running n o r up = ground arith

  pub assign-same_running :
      (a : ℕ) (n : Text) (r : Runner) → (kept r (assign a n r)).running ≡ r.running
  unfolding assign
  assign-same_running a n r = ground arith

  pub add_thread-same_running :
      (n : Text) (o : ThreadOptions) (r : Runner) → (kept r (add_thread n o r)).running ≡ r.running
  unfolding add_thread
  add_thread-same_running n o r = ground arith

  pub control-IsKept :
      (c : Control) (g : Group) (s : System) → IsWhole g → IsKept g s → IsKept g (control c s)
  unfolding control
  control-IsKept (declares n o) g s h k =
      with_runner-IsKept (add_thread n o s.runner) g s (add_thread-running n o s.runner)
        (add_thread-same_running n o s.runner) k
  control-IsKept (assigns a n) g s h k =
      with_runner-IsKept (assign a n s.runner) g s (assign-running a n s.runner)
        (assign-same_running a n s.runner) k
  control-IsKept starts g s h k = start-IsKept g s h k
  control-IsKept stops g s h k = stop-IsKept g s h k
  control-IsKept (captures e) g s h k = capture-IsKept e g s k
  control-IsKept waits g s h k = elim (Option-cases s.runner.error) [
    | inr (e, failed) ↦ rw (wait-rethrows s e failed) (stop-IsKept g s h k)
    | inl fine ↦ elim (Bool-cases s.runner.running) [
      | inl up ↦ rw (wait-blocks s fine up) k
      | inr down ↦ rw (wait-idle s fine down) k
    ]
  ]

  pub control_all-IsKept :
      (cs : List Control) (g : Group) (s : System)
      → IsWhole g
      → IsKept g s
      → IsKept g (control_all cs s)
  unfolding control_all
  control_all-IsKept [] g s h k = k
  control_all-IsKept (c ∷ cs) g s h k =
      control_all-IsKept cs g (control c s) h (control-IsKept c g s h k)

  -- Whatever the owner of a new runner calls, whichever passes throw, and whatever of a start, a stop
  -- or a pass fails: a runner that runs has detached exactly the subgroups with a thread of their
  -- own, and one that does not run has left the pipeline as it was built, with no notifier or wake
  -- handle installed and no thread running. The pipeline is built with no subgroup detached.
  pub control_all-IsConsistent :
      (cs : List Control) (g : Group) → IsWhole g → IsConsistent g (control_all cs (new_system g))
  control_all-IsConsistent cs g h =
      let k = control_all-IsKept cs g (new_system g) h (IsKept-new_system g) in
      elim (Bool-cases (control_all cs (new_system g)).runner.running) [
        | inl up ↦ inl (up, k.0 up)
        | inr down ↦
            let (root, notified, hosts, units) = k.1 down in
            inr (down, root, notified, hosts, units)
      ]
