-- ===== src/Io/Queue/Accounts.antt =====
-- The counters of include/atp/io/queued_input.hpp against what was written and read.
use native.Mathlib.Nat.{add-zero}
use ani_tools_platform.Prelude.{
  ℕ, ◌+◌, ◌%◌, ◌^◌, ◌≤◌, ◌<◌, ◌≡◌, refl, Bool, List, [], ◌∷◌, arith, length, length-append, ok,
}
use ani_tools_platform.Io.Input.{
  QueuedInput, OverflowPolicy, drop_oldest, drop_incoming, when_full, make_queued, write_queued,
  try_pop, pop, drain_queued, reset_queued,
}
use ani_tools_platform.Io.Queue.{
  QueueOp, write, take, pop_value, drain, reset, step, run, count_out, read_since,
}

module _ {A : Type 0} where
  -- `n` values have been handed out since the counters were last reset.
  pub record Accounts (n : ℕ) (i : QueuedInput A) : Type 0 where
    pub nonzero : 0 < i.capacity
    pub bounded : length i.queue ≤ i.capacity
    pub deepest : length i.queue ≤ i.counters.peak_pending
    pub peak : i.counters.peak_pending ≤ i.capacity
    pub balanced :
        i.counters.received % 2 ^ 64 ≡ (i.counters.discarded + n + length i.queue) % 2 ^ 64

  make_queued-Accounts :
      (safe : Bool) (capacity : ℕ) (policy : OverflowPolicy) {i : QueuedInput A}
      → make_queued safe capacity policy ≡ ok i
      → Accounts 0 i
  unfolding make_queued
  make_queued-Accounts safe capacity policy e = ground arith

  -- The length after a store into a full queue.
  pub length-when_full :
      (p : OverflowPolicy) (a : A) (q : List A) → 0 < length q → length (when_full p a q) ≡ length q
  length-when_full drop_oldest a [] h = elim h [ ]
  length-when_full drop_oldest a (b ∷ q) h = omega (arith, length-append q (a ∷ []))
  length-when_full drop_incoming a q h = refl

  write-Accounts :
      (n : ℕ) (a : A) (i : QueuedInput A) → Accounts n i → Accounts n (write_queued a i)
  unfolding write_queued
  write-Accounts n a i h =
      ground (arith, length-append i.queue (a ∷ []), length-when_full i.policy a i.queue)

  step-Accounts :
      (n : ℕ) (op : QueueOp A) (i : QueuedInput A)
      → Accounts n i
      → Accounts (count_out op n (step op i).1) (step op i).0
  unfolding step try_pop pop drain_queued reset_queued
  step-Accounts n (write a) i h = rw add-zero (write-Accounts n a i h)
  step-Accounts n take i h = ground arith
  step-Accounts n pop_value i h = ground arith
  step-Accounts n drain i h = ground arith
  step-Accounts n reset i h = ground arith

  run-Accounts :
      (n : ℕ) (ops : List (QueueOp A)) (i : QueuedInput A)
      → Accounts n i
      → Accounts (read_since n ops i) (run ops i).0
  unfolding run read_since
  run-Accounts n [] i h = h
  run-Accounts n (op ∷ ops) i h =
      let (j, out) = step op i in run-Accounts (count_out op n out) ops j (step-Accounts n op i h)

  -- A queued input that was just made, after any writes, takes, pops, drains and resets: the queue never
  -- holds more than its capacity, the peak since the last reset lies between the depth and the capacity,
  -- and up to the wrap of the 64-bit counters every value received since the last reset was discarded and
  -- counted, was handed out since then, or is still queued.
  pub run-make_queued-Accounts :
      (safe : Bool) (capacity : ℕ) (policy : OverflowPolicy) (ops : List (QueueOp A))
      (i : QueuedInput A)
      → make_queued safe capacity policy ≡ ok i
      → Accounts (read_since 0 ops i) (run ops i).0
  run-make_queued-Accounts safe capacity policy ops i e =
      run-Accounts 0 ops i (make_queued-Accounts safe capacity policy e)
