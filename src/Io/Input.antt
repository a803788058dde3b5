-- ===== src/Io/Input.antt =====
-- include/atp/io/input.hpp and queued_input.hpp: the input that keeps the last value and the one
-- that queues up to a capacity. Each operation runs under the input's lock, so an operation here is
-- one atomic step; the lock itself is not modelled.
use ani_tools_platform.Prelude.{
  ℕ, Bool, not, List, [], ◌∷◌, ◌++◌, Option, none, some, max, ltb, ◌==◌, if◌then◌else◌, length,
  Result, ok, err, incr64,
}

-- What `stats()` answers.
pub record InputStats : Type 0 where
  pub received : ℕ
  pub discarded : ℕ
  pub pending : ℕ
  pub peak_pending : ℕ
  pub capacity : ℕ

abbrev pub no_stats : InputStats
no_stats = record { received = 0; discarded = 0; pending = 0; peak_pending = 0; capacity = 0 }

pub data OverflowPolicy : Type 0 where
  drop_oldest drop_incoming : OverflowPolicy

pub data InputError : Type 0 where
  no_value queue_empty zero_capacity : InputError

-- The counters that both kinds keep, and whether the instance serialises access.
pub record Counters : Type 0 where
  pub safe : Bool
  pub received : ℕ
  pub discarded : ℕ
  pub peak_pending : ℕ

abbrev pub reset_counters : Counters → Counters
reset_counters c = record c { received = 0; discarded = 0; peak_pending = 0 }

abbrev pub note_pending : ℕ → Counters → Counters
note_pending n c = record c { peak_pending = max c.peak_pending n }

abbrev pub note_received : Counters → Counters
note_received c = record c { received = incr64 c.received }

abbrev pub note_discarded : Counters → Counters
note_discarded c = record c { discarded = incr64 c.discarded }

abbrev pub stats_of : Counters → ℕ → ℕ → InputStats
stats_of c pending capacity = if not c.safe then no_stats else record {
  received = c.received;
  discarded = c.discarded;
  pending = pending;
  peak_pending = c.peak_pending;
  capacity = capacity;
}

-- input<T>
pub record LastInput (A : Type 0) : Type 0 where
  pub value : Option A
  pub counters : Counters

-- queued_input<T>
pub record QueuedInput (A : Type 0) : Type 0 where
  pub queue : List A
  pub capacity : ℕ
  pub policy : OverflowPolicy
  pub counters : Counters

module _ {A : Type 0} where
  -- One if a value is there.
  abbrev pub held : Option A → ℕ
  held none = 0
  held (some a) = 1

  abbrev pub note_overwrite : Option A → Counters → Counters
  note_overwrite none c = c
  note_overwrite (some a) c = note_discarded c

  -- operator(): `accept` and the `store` of the base.
  unfoldable pub write_last : A → LastInput A → LastInput A
  write_last a i = record {
    value = some a;
    counters = note_pending 1 (note_overwrite i.value (note_received i.counters));
  }

  unfoldable pub stats_last : LastInput A → InputStats
  stats_last i = stats_of i.counters (held i.value) 1

  unfoldable pub get_last : LastInput A → Result InputError A
  get_last i = elim i.value [ none ↦ err no_value | some a ↦ ok a ]

  unfoldable pub take_last : LastInput A → LastInput A × Option A
  take_last i = (record i { value = none }, i.value)

  unfoldable pub reset_last : LastInput A → LastInput A
  reset_last i = record { value = none; counters = reset_counters i.counters }

  -- The constructor.
  unfoldable pub make_queued : Bool → ℕ → OverflowPolicy → Result InputError (QueuedInput A)
  make_queued safe capacity policy =
      if capacity == 0
      then err zero_capacity
      else ok (record {
        queue = [];
        capacity = capacity;
        policy = policy;
        counters = record { safe = safe; received = 0; discarded = 0; peak_pending = 0 };
      })

  abbrev pub pop_front : List A → List A
  pop_front [] = []
  pop_front (a ∷ rest) = rest

  abbrev pub when_full : OverflowPolicy → A → List A → List A
  when_full drop_oldest a q = pop_front q ++ a ∷ []
  when_full drop_incoming a q = q

  -- `make_room`, and the push that its answer allows.
  unfoldable pub store_queued : A → QueuedInput A → QueuedInput A
  store_queued a i =
      if ltb (length i.queue) i.capacity
      then record i { queue = i.queue ++ a ∷ [] }
      else record i { queue = when_full i.policy a i.queue; counters = note_discarded i.counters }

  unfoldable pub write_queued : A → QueuedInput A → QueuedInput A
  unfolding store_queued
  write_queued a i =
      let j = store_queued a (record i { counters = note_received i.counters }) in
      record j { counters = note_pending (length j.queue) j.counters }

  unfoldable pub stats_queued : QueuedInput A → InputStats
  stats_queued i = stats_of i.counters (length i.queue) i.capacity

  -- try_pop(), which `take()` calls.
  unfoldable pub try_pop : QueuedInput A → QueuedInput A × Option A
  try_pop i = elim i.queue [ [] ↦ (i, none) | a ∷ rest ↦ (record i { queue = rest }, some a) ]

  unfoldable pub pop : QueuedInput A → QueuedInput A × Result InputError A
  pop i = elim i.queue [ [] ↦ (i, err queue_empty) | a ∷ rest ↦ (record i { queue = rest }, ok a) ]

  -- drain(): the whole queue at once.
  unfoldable pub drain_queued : QueuedInput A → QueuedInput A × List A
  drain_queued i = (record i { queue = [] }, i.queue)

  unfoldable pub reset_queued : QueuedInput A → QueuedInput A
  reset_queued i = record i { queue = []; counters = reset_counters i.counters }
