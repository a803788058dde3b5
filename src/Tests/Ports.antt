-- ===== src/Tests/Ports.antt =====
-- Runs of include/atp/io/queued_input.hpp and output.hpp.
use mathlib.Core.List.{Sublistᴰ}
use ani_tools_platform.Prelude.{
  ℕ, ◌≡◌, refl, true, false, List, [], ◌∷◌, ◌++◌, none, some, ◌==◌, if◌then◌else◌, ok, err, map,
  incr64,
}
use ani_tools_platform.Io.Input.{
  QueuedInput, drop_oldest, make_queued, zero_capacity, write_queued, stats_queued, try_pop, pop,
  drain_queued, reset_queued,
}
use ani_tools_platform.Io.Queue.{
  QueueOp, write, take, pop_value, drain, reset, step, run, read_since, written,
}
use ani_tools_platform.Io.Queue.Order.{run-Sublist}
use ani_tools_platform.Io.Queue.Accounts.{Accounts, run-make_queued-Accounts}
use ani_tools_platform.Io.Queue.Window.{window, run_writes-make_queued}
use ani_tools_platform.Io.Output.{
  TypeTag, Element, any, typed, Output, connect, member, already_connected, incompatible, World,
  last, queued, accept, accepts, write_output,
}
use ani_tools_platform.Io.Output.Connect.{IsWired}
use ani_tools_platform.Io.Output.Delivery.{notifiers, write-delivers}

-- An empty queue for two values, the oldest dropped when it is full.
abbrev pair : QueuedInput ℕ
pair = record {
  queue = [];
  capacity = 2;
  policy = drop_oldest;
  counters = record { safe = true; received = 0; discarded = 0; peak_pending = 0 };
}

abbrev busy_reader : List (QueueOp ℕ)
busy_reader = write 1 ∷ write 2 ∷ write 3 ∷ take ∷ write 4 ∷ drain ∷ write 5 ∷ []

-- A pop on the empty queue, and a reset with a value in it.
abbrev reset_reader : List (QueueOp ℕ)
reset_reader = write 1 ∷ take ∷ pop_value ∷ write 2 ∷ reset ∷ write 3 ∷ write 4 ∷ pop_value ∷ []

counts_since_reset :
    stats_queued (run reset_reader pair).0
    ≡ record { received = 2; discarded = 0; pending = 1; peak_pending = 2; capacity = 2 }
unfolding run step try_pop pop write_queued reset_queued stats_queued
counts_since_reset = refl

makes : make_queued {A = ℕ} true 2 drop_oldest ≡ ok pair
unfolding make_queued
makes = refl

refuses_zero : make_queued {A = ℕ} true 0 drop_oldest ≡ err zero_capacity
unfolding make_queued
refuses_zero = refl

hands_out : (run busy_reader pair).1 ≡ 2 ∷ 3 ∷ 4 ∷ []
unfolding run step try_pop write_queued drain_queued
hands_out = refl

counts :
    stats_queued (run busy_reader pair).0
    ≡ record { received = 5; discarded = 1; pending = 1; peak_pending = 2; capacity = 2 }
unfolding run step try_pop write_queued drain_queued stats_queued
counts = refl

run-Sublist_example :
    Sublistᴰ
      ((run busy_reader pair).1 ++ (run busy_reader pair).0.queue)
      (pair.queue ++ written busy_reader)
run-Sublist_example = run-Sublist busy_reader pair

run-make_queued-Accounts_example :
    Accounts (read_since 0 reset_reader pair) (run reset_reader pair).0
run-make_queued-Accounts_example =
    run-make_queued-Accounts true 2 drop_oldest reset_reader pair makes

run_writes-make_queued_example :
    (run (map write (1 ∷ 2 ∷ 3 ∷ [])) pair).0.queue ≡ window drop_oldest 2 (1 ∷ 2 ∷ 3 ∷ [])
run_writes-make_queued_example =
    run_writes-make_queued true 2 drop_oldest (1 ∷ 2 ∷ 3 ∷ []) pair makes

abbrev int_tag : TypeTag
int_tag = record { name = 1; address = 1; starred = false }

abbrev text_tag : TypeTag
text_tag = record { name = 2; address = 2; starred = false }

-- Input 1 takes everything, input 2 integers and every other one texts.
abbrev elements : ℕ → Element
elements a = if a == 1 then any else if a == 2 then typed int_tag else typed text_tag

abbrev bare_output : Output
bare_output = record { element = int_tag; safe = true; targets = []; writes = 0 }

abbrev wired_output : Output
wired_output = record { element = int_tag; safe = true; targets = 1 ∷ 2 ∷ []; writes = 0 }

IsWired-bare_output : IsWired elements bare_output
IsWired-bare_output = record { distinct = tt; compatible = tt }

refuses_type : connect (elements 3) 3 wired_output ≡ err incompatible
unfolding connect
refuses_type = refl

refuses_twice : connect (elements 2) 2 wired_output ≡ err already_connected
unfolding connect
refuses_twice = refl

IsWired-wired_output : IsWired elements wired_output
unfolding accepts member
IsWired-wired_output = record { distinct = (refl, (refl, tt)); compatible = (refl, (refl, tt)) }

-- Input 1 queues, every other one keeps the last value; input 2 has a notifier.
abbrev inputs : World ℕ
inputs = record {
  input = λ a.
      if a == 1
      then queued pair
      else last (record {
        value = none;
        counters = record { safe = true; received = 0; discarded = 0; peak_pending = 0 };
      });
  notifier = λ a. if a == 2 then some 7 else none;
  fired = [];
}

write-delivers_example :
    ((b : ℕ)
      → (write_output 5 wired_output inputs).1.input b
        ≡ (if member b wired_output.targets then accept 5 (inputs.input b) else inputs.input b))
    × ((write_output 5 wired_output inputs).1.fired
        ≡ inputs.fired ++ notifiers inputs.notifier wired_output.targets)
    × ((write_output 5 wired_output inputs).0
        ≡ record wired_output { writes = incr64 wired_output.writes })
write-delivers_example = write-delivers elements wired_output 5 inputs IsWired-wired_output
