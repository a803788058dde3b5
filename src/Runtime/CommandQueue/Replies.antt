-- ===== src/Runtime/CommandQueue/Replies.antt =====
-- What a caller of src/runtime/include/atp/runtime/command_queue.hpp gets back.
use ani_tools_platform.Prelude.{
  ℕ, ◌≡◌, ◌⊎◌, inl, inr, refl, sym, ap, ◌∙◌, ==_iff, Bool, true, false, List, [], ◌∷◌, Option, none,
  some, Result, ok, err,
}
use ani_tools_platform.Io.Output.{member}
use ani_tools_platform.Runtime.Cascade.Balance.{count}
use ani_tools_platform.Runtime.CommandQueue.{
  Entry, fresh_entry, Reply, refused, abandoned, Stage, waiting, returned, Queue, new_queue, worked,
  close, Event, finishes, closes, finish, step, run,
}
use ani_tools_platform.Runtime.CommandQueue.Fates.{
  outcome, Fate, not_made, queued, taken, done, dropped, answered, turned_away, let_down,
  is_running, IsSettled, step-IsSettled,
}

new_queue-IsSettled : (work : ℕ → Result ℕ ℕ) → IsSettled work new_queue
unfolding count member
new_queue-IsSettled work = (tt, λ c. not_made)

run-IsSettled :
    (work : ℕ → Result ℕ ℕ) (events : List Event) (q : Queue)
    → IsSettled work q
    → IsSettled work (run work events q)
unfolding run
run-IsSettled work [] q s = s
run-IsSettled work (e ∷ events) q s =
    run-IsSettled work events (step work e q) (step-IsSettled work q s e)

returned-Fate :
    (work : ℕ → Result ℕ ℕ) (c : ℕ) {x : Stage} {k : ℕ} {p r : Bool} (y : Reply)
    → Fate work c x k p r
    → x ≡ returned y
    → ((y ≡ outcome (work c)) × (k ≡ 1)) ⊎ (((y ≡ refused) ⊎ (y ≡ abandoned)) × (k ≡ 0))
returned-Fate work c y not_made h = cc
returned-Fate work c y queued h = cc
returned-Fate work c y taken h = cc
returned-Fate work c y done h = cc
returned-Fate work c y dropped h = cc
returned-Fate work c y answered h = inl (cc, refl)
returned-Fate work c y turned_away h = inr (inl cc, refl)
returned-Fate work c y let_down h = inr (inr cc, refl)

-- Whatever the order of the calls, the owner's steps and close(): a call that returned gives its
-- caller what its function returned or threw, and the function was run exactly once; or it is
-- refused or abandoned, and its function was never run.
pub run-replies :
    (work : ℕ → Result ℕ ℕ) (events : List Event) (c : ℕ) (y : Reply)
    → (run work events new_queue).calls c ≡ returned y
    → ((y ≡ outcome (work c)) × (count c (run work events new_queue).executed ≡ 1))
      ⊎ (((y ≡ refused) ⊎ (y ≡ abandoned)) × (count c (run work events new_queue).executed ≡ 0))
run-replies work events c y h =
    returned-Fate work c y ((run-IsSettled work events new_queue (new_queue-IsSettled work)).1 c) h

worked-done : (o : Result ℕ ℕ) (e : Entry) → (worked o e).done ≡ true
worked-done (ok v) e = refl
worked-done (err x) e = refl

waiting-Fate :
    (work : ℕ → Result ℕ ℕ) (c : ℕ) {x : Stage} {k : ℕ} {p r : Bool} (e : Entry)
    → Fate work c x k p r
    → x ≡ waiting e
    → (e.done ≡ true) ⊎ ((p ≡ true) ⊎ (r ≡ true))
waiting-Fate work c e not_made h = cc
waiting-Fate work c e queued h = inr (inl refl)
waiting-Fate work c e taken h = inr (inr refl)
waiting-Fate work c e done h =
    let same : worked (work c) fresh_entry ≡ e = cc in
    inl (ap (λ x. x.done) (sym same) ∙ worked-done (work c) fresh_entry)
waiting-Fate work c e dropped h =
    let same : record fresh_entry { done = true } ≡ e = cc in inl (ap (λ x. x.done) (sym same))
waiting-Fate work c e answered h = cc
waiting-Fate work c e turned_away h = cc
waiting-Fate work c e let_down h = cc

running-inversion : (c : ℕ) (y : Option ℕ) → is_running c y ≡ true → y ≡ some c
running-inversion c none h = cc
running-inversion c (some x) h = ap some ((==_iff x c).0 h)

-- No call is forgotten: one that is inside call() is done, so that its caller goes on, or it is
-- pending, or it is the one that the owner is running.
pub run-releases :
    (work : ℕ → Result ℕ ℕ) (events : List Event) (c : ℕ) (e : Entry)
    → (run work events new_queue).calls c ≡ waiting e
    → (e.done ≡ true)
      ⊎ ((member c (run work events new_queue).pending ≡ true)
          ⊎ ((run work events new_queue).running ≡ some c))
run-releases work events c e h =
    elim (waiting-Fate work c e
      ((run-IsSettled work events new_queue (new_queue-IsSettled work)).1 c) h) [
        | inl d ↦ inl d
        | inr (inl p) ↦ inr (inl p)
        | inr (inr r) ↦ inr (inr (running-inversion c (run work events new_queue).running r))
      ]

finish_running :
    (work : ℕ → Result ℕ ℕ) (y : Option ℕ) (q : Queue)
    → q.running ≡ y
    → (finish work y q).running ≡ none
finish_running work none q h = h
finish_running work (some c) q h = refl

finish_pending :
    (work : ℕ → Result ℕ ℕ) (y : Option ℕ) (q : Queue) → (finish work y q).pending ≡ q.pending
finish_pending work none q = refl
finish_pending work (some c) q = refl

-- After close() and the end of the function that the owner is running, if any, every call inside
-- call() is done, whatever came before.
pub close-releases :
    (work : ℕ → Result ℕ ℕ) (events : List Event) (c : ℕ) (e : Entry)
    → (step work finishes (step work closes (run work events new_queue))).calls c ≡ waiting e
    → e.done ≡ true
unfolding step close member
close-releases work events c e h =
    let q = run work events new_queue in
    let s = run-IsSettled work events new_queue (new_queue-IsSettled work) in
    let s' = step-IsSettled work (step work closes q) (step-IsSettled work q s closes) finishes in
    elim (waiting-Fate work c e (s'.1 c) h) [
      | inl d ↦ d
      | inr (inl p) ↦
          let q1 = step work closes q in
          let gone : member c (finish work q1.running q1).pending ≡ false =
            ap (member c) (finish_pending work q1.running q1) in
          cc
      | inr (inr r) ↦
          let q1 = step work closes q in
          let idle : is_running c (finish work q1.running q1).running ≡ false =
            ap (is_running c) (finish_running work q1.running q1 refl) in
          cc
    ]
