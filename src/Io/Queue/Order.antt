-- ===== src/Io/Queue/Order.antt =====
-- The order of what a queued input of include/atp/io/queued_input.hpp hands out.
use mathlib.Core.List.{Sublistᴰ}
use mathlib.Core.List.Sublistᴰ
use ani_tools_platform.Prelude.{
  ◌≡◌, List, [], ◌∷◌, ◌++◌, append_assoc, append-nil, Bool-cases, inl, inr, ltb, length, arith,
  subst,
}
use ani_tools_platform.Io.Input.{
  QueuedInput, OverflowPolicy, drop_oldest, drop_incoming, when_full, write_queued, try_pop, pop,
  drain_queued, reset_queued,
}
use ani_tools_platform.Io.Queue.{
  QueueOp, write, take, pop_value, drain, reset, step, run, written, written_by, option_list,
  popped,
}

module _ {A : Type 0} where
  when_full-Sublist :
      (p : OverflowPolicy) (a : A) (q : List A) → Sublistᴰ (when_full p a q) (q ++ a ∷ [])
  when_full-Sublist drop_oldest a [] = Sublistᴰ.refl _
  when_full-Sublist drop_oldest a (b ∷ q) = Sublistᴰ.cons (Sublistᴰ.refl _)
  when_full-Sublist drop_incoming a q =
      subst (λ l. Sublistᴰ l (q ++ a ∷ [])) (append-nil q)
        (Sublistᴰ.append (Sublistᴰ.refl q) (Sublistᴰ.nil-sublist (a ∷ [])))

  try_pop-splits : (i : QueuedInput A) → option_list (try_pop i).1 ++ (try_pop i).0.queue ≡ i.queue
  unfolding try_pop
  try_pop-splits i = ground arith

  pop-splits : (i : QueuedInput A) → popped (pop i).1 ++ (pop i).0.queue ≡ i.queue
  unfolding pop
  pop-splits i = ground arith

  step-Sublist :
      (op : QueueOp A) (i : QueuedInput A)
      → Sublistᴰ ((step op i).1 ++ (step op i).0.queue) (i.queue ++ written_by op)
  unfolding step write_queued drain_queued reset_queued
  step-Sublist (write a) i = elim (Bool-cases (ltb (length i.queue) i.capacity)) [
    | inl room ↦ rw room (Sublistᴰ.refl _)
    | inr full ↦ rw full (when_full-Sublist i.policy a i.queue)
  ]
  step-Sublist take i = rw (try_pop-splits i, append-nil i.queue) (Sublistᴰ.refl i.queue)
  step-Sublist pop_value i = rw (pop-splits i, append-nil i.queue) (Sublistᴰ.refl i.queue)
  step-Sublist drain i = Sublistᴰ.refl _
  step-Sublist reset i = Sublistᴰ.nil-sublist (i.queue ++ [])

  -- Whatever the order of writes, takes, pops, drains and resets, the values handed out and those still queued
  -- form, in that order, a subsequence of what was queued before followed by what was written: no
  -- value is invented, repeated or overtaken, under either overflow policy.
  pub run-Sublist :
      (ops : List (QueueOp A)) (i : QueuedInput A)
      → Sublistᴰ ((run ops i).1 ++ (run ops i).0.queue) (i.queue ++ written ops)
  unfolding run
  run-Sublist [] i = rw (append-nil i.queue) (Sublistᴰ.refl i.queue)
  run-Sublist (op ∷ ops) i =
      let (j, out) = step op i in
      rw
        (
          append_assoc out (run ops j).1 (run ops j).0.queue,
          ← append_assoc i.queue (written_by op) (written ops),
        )
        (Sublistᴰ.trans (Sublistᴰ.append (Sublistᴰ.refl out) (run-Sublist ops j)) (
          rw (← append_assoc out j.queue (written ops))
            (Sublistᴰ.append (step-Sublist op i) (Sublistᴰ.refl (written ops)))))
