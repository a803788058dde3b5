-- ===== src/Runtime/Runner/Run/Balance.antt =====
-- src/runtime/include/atp/runtime/pipeline_runner.hpp: how often a runner's calls initialise and
-- stop a module.
use mathlib.Core.List.{reverse}
use ani_tools_platform.Prelude.{
  ℕ, ◌≡◌, refl, sym, ◌∙◌, ap, true, false, ◌+◌, List, [], ◌∷◌, none, some, arith, Result, ok, err,
  if◌then◌else◌, Option-cases, Bool-cases, inl, inr,
}
use ani_tools_platform.Runtime.Tree.{Group, Children, group, end, leaf, sub, leaves, leaves_in}
use ani_tools_platform.Runtime.Cascade.{Modules, Failure, Trace, initialize}
use ani_tools_platform.Runtime.Cascade
use ani_tools_platform.Runtime.Cascade.Stop.{stop-eq-stop_all, start-eq-start_all}
use ani_tools_platform.Runtime.Cascade.Initialize.{initialize-eq-initialize_all}
use ani_tools_platform.Runtime.Cascade.Balance.{
  count, count-reverse, initialized, stopped, stop_all-counts, start_all-counts,
  initialize_all-done_counts, initialize_all-failed_counts,
}
use ani_tools_platform.Runtime.Runner.{Runner, RunnerError}
use ani_tools_platform.Runtime.Runner.Layout.{
  Ports, apply_detach, detach_in, launch_units, collect_groups,
}
use ani_tools_platform.Runtime.Runner.Layout.Partition.{IsWhole}
use ani_tools_platform.Runtime.Runner.Run.{
  System, Plan, fresh_run, plan_run, shutdown, stop, start, brought_up, launched, run_cascades,
  start_planned, capture,
}
use ani_tools_platform.Runtime.Runner.Run.Idle.{
  Control, declares, assigns, starts, stops, captures, waits, control, control_all, IsKept,
  IsKept-new_system, new_system, control-IsKept, stop-running, stop-idle, start-running, start-idle,
  wait-blocks, wait-idle, wait-rethrows, add_thread-same_running, assign-same_running,
}

mutual
  unfolding apply_detach leaves

  leaves-apply : (assigned : List (ℕ × ℕ)) (g : Group) → leaves (apply_detach assigned g) ≡ leaves g
  leaves-apply assigned (group i cs) = leaves-detach_in assigned cs

  leaves-detach_in :
      (assigned : List (ℕ × ℕ)) (cs : Children) → leaves_in (detach_in assigned cs) ≡ leaves_in cs
  leaves-detach_in assigned end = refl
  leaves-detach_in assigned (leaf n a cs) = ap (λ xs. a ∷ xs) (leaves-detach_in assigned cs)
  leaves-detach_in assigned (sub n d g cs) =
      rw (leaves-apply assigned g, leaves-detach_in assigned cs) refl

module _ (m : Modules) (a : ℕ) where
  -- `n` calls of `initialize` on module `a` are not matched by one of `stop`.
  abbrev Open : ℕ → Trace → Type 0
  Open n t = initialized m a t ≡ stopped a t + n

  module _ (g : Group) (t : Trace) where
    initialize-Open :
        Open 0 t → (initialize m g t).1 ≡ none → Open (count a (leaves g)) (initialize m g t).0
    initialize-Open o =
        rw (initialize-eq-initialize_all m g t)
          (λ f. omega (arith, o, initialize_all-done_counts m a (leaves g) [] t f))

    initialize-failed :
        (e : ℕ) → Open 0 t → (initialize m g t).1 ≡ some e → Open 0 (initialize m g t).0
    unfolding count
    initialize-failed e o =
        rw (initialize-eq-initialize_all m g t)
          (λ f. omega (arith, o, initialize_all-failed_counts m a (leaves g) [] t e f))

    start-Open : (n : ℕ) → Open n t → Open n (Cascade.start m g t).0
    start-Open n o =
        rw (start-eq-start_all m g t) (omega (arith, o, start_all-counts m a (leaves g) t))

    stop-Open : Open (count a (leaves g)) t → Open 0 (Cascade.stop m g t).0
    stop-Open o =
        rw (stop-eq-stop_all m g t)
          (omega (arith, o, count-reverse a (leaves g), stop_all-counts m a (reverse (leaves g)) t))

  -- A module is initialised once more than it was stopped for every place that it has in a running
  -- pipeline, and as often as it was stopped when nothing runs.
  abbrev pub IsMatched : Group → System → Type 0
  IsMatched g s =
      (s.runner.running ≡ true → Open (count a (leaves g)) s.trace)
      × (s.runner.running ≡ false → Open 0 s.trace)

  module _ (w : Ports) (g : Group) where
    shutdown-IsMatched :
        (s : System)
        → leaves s.root ≡ leaves g
        → Open (count a (leaves g)) s.trace
        → IsMatched g (shutdown m w s)
    unfolding shutdown
    shutdown-IsMatched s same o =
        let closed = stop-Open s.root s.trace (rw same o) in (λ up. cc, λ down. closed)

    stop-IsMatched : (s : System) → IsKept g s → IsMatched g s → IsMatched g (stop m w s)
    stop-IsMatched s c b = elim (Bool-cases s.runner.running) [
      | inl up ↦
          rw (stop-running m w s up)
            (shutdown-IsMatched s (ap leaves (c.0 up) ∙ leaves-apply s.runner.assigned g) (b.0 up))
      | inr down ↦ rw (stop-idle m w s down) b
    ]

    module _ (s : System) (same : s.root ≡ g) where
      same_leaves : (r : Runner) → leaves (apply_detach r.assigned s.root) ≡ leaves g
      same_leaves r = leaves-apply r.assigned s.root ∙ ap leaves same

      launched-IsMatched :
          (r : Runner) (p : Plan) (t : Trace) (units : Result RunnerError (List (ℕ × Group)))
          → Open (count a (leaves g)) t
          → IsMatched g (launched m w s r p t units).0
      unfolding launched
      launched-IsMatched r p t (err e) o =
          shutdown-IsMatched (brought_up m w s r p t) (same_leaves r) o
      launched-IsMatched r p t (ok us) o = (λ up. o, λ down. cc)

      run_cascades-IsMatched :
          (r : Runner) (p : Plan)
          → r.running ≡ false
          → Open 0 s.trace
          → IsMatched g (run_cascades m w s r p).0
      unfolding run_cascades
      run_cascades-IsMatched r p idle o =
          let root = apply_detach r.assigned s.root in
          let t = (initialize m root s.trace).0 in
          let t' = (Cascade.start m root t).0 in
          elim (Option-cases (initialize m root s.trace).1) [
            | inr (e, failed) ↦
                let closed = initialize-failed root s.trace e o failed in
                rw (failed, run_cascades) (λ up. cc (up, idle), λ down. closed)
            | inl done ↦
                let opened = initialize-Open root s.trace o done in
                elim (Option-cases (Cascade.start m root t).1) [
                  | inr (e, failed) ↦
                      let closed =
                        stop-Open root t' (start-Open root t (count a (leaves root)) opened) in
                      rw (done, failed, run_cascades) (λ up. cc (up, idle), λ down. closed)
                  | inl started ↦
                      let ran = start-Open root t (count a (leaves root)) opened in
                      let units = launch_units r.assigned p.threads (collect_groups root none) in
                      rw (done, started, run_cascades)
                        (launched-IsMatched r p t' units (rw (sym (same_leaves r)) ran))
                ]
          ]

      start_planned-IsMatched :
          (r : Runner) (plan : Result RunnerError Plan)
          → r.running ≡ false
          → Open 0 s.trace
          → IsMatched g (start_planned m w s r plan).0
      unfolding start_planned
      start_planned-IsMatched r (err e) idle o = (λ up. cc (up, idle), λ down. o)
      start_planned-IsMatched r (ok p) idle o = run_cascades-IsMatched r p idle o

    start-IsMatched : (s : System) → IsKept g s → IsMatched g s → IsMatched g (start m w s).0
    start-IsMatched s c b = elim (Bool-cases s.runner.running) [
      | inl up ↦ rw (start-running m w s up) b
      | inr down ↦
          let r = fresh_run s.runner in
          rw (start-idle m w s down)
            (start_planned-IsMatched s (c.1 down).0 r (plan_run m w r s.root) down (b.1 down))
    ]

    capture-IsMatched : (e : ℕ) (s : System) → IsMatched g s → IsMatched g (capture m w e s)
    unfolding capture
    capture-IsMatched e s b = ground (arith, b.0, b.1)

    control-IsMatched :
        (c : Control) (s : System) → IsKept g s → IsMatched g s → IsMatched g (control m w c s)
    unfolding control
    control-IsMatched (declares n o) s k b = rw (add_thread-same_running m w n o s.runner) b
    control-IsMatched (assigns x n) s k b = rw (assign-same_running m w x n s.runner) b
    control-IsMatched starts s k b = start-IsMatched s k b
    control-IsMatched stops s k b = stop-IsMatched s k b
    control-IsMatched (captures e) s k b = capture-IsMatched e s b
    control-IsMatched waits s k b = elim (Option-cases s.runner.error) [
      | inr (e, failed) ↦ rw (wait-rethrows m w s e failed) (stop-IsMatched s k b)
      | inl fine ↦ elim (Bool-cases s.runner.running) [
        | inl up ↦ rw (wait-blocks m w s fine up) b
        | inr down ↦ rw (wait-idle m w s fine down) b
      ]
    ]

    control_all-IsMatched :
        (cs : List Control) (s : System)
        → IsWhole g
        → IsKept g s
        → IsMatched g s
        → IsMatched g (control_all m w cs s)
    unfolding control_all
    control_all-IsMatched [] s h k b = b
    control_all-IsMatched (c ∷ cs) s h k b =
        control_all-IsMatched cs (control m w c s) h (control-IsKept m w c g s h k)
          (control-IsMatched c s k b)

    -- Whatever the owner of a new runner calls, whichever passes throw, and whatever of a start, a
    -- stop or a pass fails: when the runner does not run, every module was stopped exactly as often
    -- as a call of its `initialize` returned; when it runs, it has been initialised once more for
    -- each place that it has in the pipeline. The pipeline is built with no subgroup detached.
    pub control_all-balances :
        (cs : List Control)
        → IsWhole g
        → initialized m a (control_all m w cs (new_system g)).trace
          ≡ stopped a (control_all m w cs (new_system g)).trace
            + (if (control_all m w cs (new_system g)).runner.running then count a (leaves g) else 0)
    unfolding initialized stopped
    control_all-balances cs h =
        let b =
          control_all-IsMatched cs (new_system g) h (IsKept-new_system g)
            (λ up. cc, λ down. refl) in
        elim (Bool-cases (control_all m w cs (new_system g)).runner.running) [
          | inl up ↦ rw up (b.0 up)
          | inr down ↦ rw down (b.1 down)
        ]
