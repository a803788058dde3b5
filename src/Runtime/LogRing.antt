-- ===== src/Runtime/LogRing.antt =====
-- src/runtime/include/atp/runtime/log_ring.hpp: the log buffer of one module, with any number of
-- writers and one reader. A step is one access to what the threads share: a load of the tail, a load
-- of a slot's sequence number, the exchange that claims a ticket, the store that publishes a line,
-- and the load and the store of the reader. Filling a slot is one step with the store that
-- publishes it, and handing a line to the sink one with the store that frees its slot, since
-- between them no other thread touches the slot.
pub mod Invariant
pub mod Phases
pub mod Writers
pub mod Publish
pub mod Reader
pub mod Order
pub mod Drain
use ani_tools_platform.Prelude.{
  ℕ, ◌+◌, ◌-◌, ◌%◌, ◌^◌, min, Bool, true, false, not, ◌&&◌, List, [], ◌∷◌, ◌++◌, ltb, leb, ◌==◌,
  if◌then◌else◌, take, length, Text, incr64,
}

-- capacity and text_capacity
abbrev pub capacity : ℕ
capacity = 64

abbrev pub text_capacity : ℕ
text_capacity = 256

-- What a module hands to write(), with the time that the clock showed then.
pub record Request : Type 0 where
  pub level : ℕ
  pub text : Text
  pub at : ℕ

-- What a slot holds of it.
pub record Line : Type 0 where
  pub level : ℕ
  pub text : Text
  pub truncated : Bool
  pub at : ℕ

unfoldable pub stored : Request → Line
stored q = record {
  level = q.level;
  text = take (min (length q.text) text_capacity) q.text;
  truncated = ltb text_capacity (length q.text);
  at = q.at;
}

abbrev pub blank : Line
blank = record { level = 0; text = []; truncated = false; at = 0 }

pub record Slot : Type 0 where
  pub seq : ℕ
  pub line : Line

-- Where a writer is in write(): outside, with the tail loaded, with the slot found free, or with
-- the ticket claimed.
pub data Phase : Type 0 where
  resting : Phase
  loaded found claimed : Request → ℕ → Phase

-- The shared state, the writers, whether the reader has found a published line, and two records of
-- the past: the lines that got a ticket, in the order of the tickets, and those that the sink got.
pub record Ring : Type 0 where
  pub slots : ℕ → Slot
  pub tail : ℕ
  pub dropped : ℕ
  pub head : ℕ
  pub writers : ℕ → Phase
  pub reading : Bool
  pub tickets : List Line
  pub sunk : List Line

abbrev pub new_ring : Ring
new_ring = record {
  slots = λ i. record { seq = i; line = blank };
  tail = 0;
  dropped = 0;
  head = 0;
  writers = λ w. resting;
  reading = false;
  tickets = [];
  sunk = [];
}

-- `diff`, the difference of two 64-bit numbers; it counts as negative from 2 ^ 63 on.
abbrev pub difference : ℕ → ℕ → ℕ
difference seq pos = (seq + (2 ^ 64 - pos)) % 2 ^ 64

abbrev pub slot_at : ℕ → Ring → Slot
slot_at pos r = r.slots (pos % capacity)

abbrev pub put_slot : ℕ → Slot → Ring → Ring
put_slot pos s r = record r { slots = λ i. if i == pos % capacity then s else r.slots i }

abbrev pub set_phase : ℕ → Phase → Ring → Ring
set_phase w p r = record r { writers = λ v. if v == w then p else r.writers v }

-- The load of the slot's number, and which of the three branches it takes.
unfoldable pub look : ℕ → Request → ℕ → Ring → Ring
look w q pos r =
    let diff = difference (slot_at pos r).seq pos in
    if diff == 0
    then set_phase w (found q pos) r
    else if leb (2 ^ 63) diff
    then record (set_phase w resting r) { dropped = incr64 r.dropped }
    else set_phase w (loaded q r.tail) r

-- compare_exchange_weak, which may fail for no reason.
unfoldable pub exchange : Bool → ℕ → Request → ℕ → Ring → Ring
exchange spurious w q pos r =
    if r.tail == pos && not spurious
    then record (set_phase w (claimed q pos) r) {
      tail = incr64 pos;
      tickets = r.tickets ++ stored q ∷ [];
    }
    else set_phase w (loaded q r.tail) r

unfoldable pub publish : ℕ → Request → ℕ → Ring → Ring
publish w q pos r =
    put_slot pos (record { seq = incr64 pos; line = stored q }) (set_phase w resting r)

-- drain(): one turn of its loop is a `find_line` and, if it finds one, a `free_slot`.
unfoldable pub find_line : Ring → Ring
find_line r = record r { reading = difference (slot_at r.head r).seq (incr64 r.head) == 0 }

unfoldable pub free_slot : Ring → Ring
free_slot r =
    record (put_slot r.head (record (slot_at r.head r) { seq = (r.head + capacity) % 2 ^ 64 }) r) {
      head = incr64 r.head;
      reading = false;
      sunk = r.sunk ++ (slot_at r.head r).line ∷ [];
    }

pub data Act : Type 0 where
  asks : ℕ → Request → Act
  goes : ℕ → Bool → Act
  drains : Act

-- The next access of writer `w`.
unfoldable pub go : ℕ → Bool → Phase → Ring → Ring
unfolding look exchange publish
go w spurious resting r = r
go w spurious (loaded q pos) r = look w q pos r
go w spurious (found q pos) r = exchange spurious w q pos r
go w spurious (claimed q pos) r = publish w q pos r

abbrev pub ask : ℕ → Request → Phase → Ring → Ring
ask w q resting r = set_phase w (loaded q r.tail) r
ask w q (loaded _ _) r = r
ask w q (found _ _) r = r
ask w q (claimed _ _) r = r

unfoldable pub step : Act → Ring → Ring
unfolding go find_line free_slot
step (asks w q) r = ask w q (r.writers w) r
step (goes w spurious) r = go w spurious (r.writers w) r
step drains r = if r.reading then free_slot r else find_line r

unfoldable pub run : List Act → Ring → Ring
unfolding step
run [] r = r
run (a ∷ rest) r = run rest (step a r)
