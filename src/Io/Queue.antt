-- ===== src/Io/Queue.antt =====
-- Runs of include/atp/io/queued_input.hpp: any order of writes and reads, and what they hand out.
pub mod Order
pub mod Accounts
pub mod Window
use ani_tools_platform.Prelude.{
  ℕ, List, [], ◌∷◌, ◌++◌, Option, none, some, Result, ok, err, length, ◌+◌,
}
use ani_tools_platform.Io.Input.{
  QueuedInput, InputError, write_queued, try_pop, pop, drain_queued, reset_queued,
}

pub data QueueOp (A : Type 0) : Type 0 where
  write : A → QueueOp A
  take pop_value drain reset : QueueOp A

module _ {A : Type 0} where
  abbrev pub option_list : Option A → List A
  option_list none = []
  option_list (some a) = a ∷ []

  -- What pop() hands out, which throws on an empty queue.
  abbrev pub popped : Result InputError A → List A
  popped (err e) = []
  popped (ok a) = a ∷ []

  -- One operation, and the values that it hands to the reader.
  unfoldable pub step : QueueOp A → QueuedInput A → QueuedInput A × List A
  step (write a) i = (write_queued a i, [])
  step take i = let (j, out) = try_pop i in (j, option_list out)
  step pop_value i = let (j, out) = pop i in (j, popped out)
  step drain i = drain_queued i
  step reset i = (reset_queued i, [])

  unfoldable pub run : List (QueueOp A) → QueuedInput A → QueuedInput A × List A
  run [] i = (i, [])
  run (op ∷ ops) i = let (j, out) = step op i in let (k, rest) = run ops j in (k, out ++ rest)

  -- The values written, in order.
  abbrev pub written_by : QueueOp A → List A
  written_by (write a) = a ∷ []
  written_by take = []
  written_by pop_value = []
  written_by drain = []
  written_by reset = []

  abbrev pub written : List (QueueOp A) → List A
  written [] = []
  written (op ∷ ops) = written_by op ++ written ops

  -- The number of values handed out since the last reset, `n` being those before the operations.
  abbrev pub count_out : QueueOp A → ℕ → List A → ℕ
  count_out (write a) n out = n + length out
  count_out take n out = n + length out
  count_out pop_value n out = n + length out
  count_out drain n out = n + length out
  count_out reset n out = 0

  unfoldable pub read_since : ℕ → List (QueueOp A) → QueuedInput A → ℕ
  unfolding step
  read_since n [] i = n
  read_since n (op ∷ ops) i = let (j, out) = step op i in read_since (count_out op n out) ops j
