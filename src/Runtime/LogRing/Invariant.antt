-- ===== src/Runtime/LogRing/Invariant.antt =====
-- What holds of src/runtime/include/atp/runtime/log_ring.hpp between any two accesses.
use ani_tools_platform.Prelude.{
  ℕ, ◌+◌, ◌%◌, ◌≤◌, ◌<◌, ◌⊎◌, ◌≡◌, refl, true, some, arith, ◌==◌, take, length, get_elem?,
}
use ani_tools_platform.Runtime.LogRing.{
  Request, stored, loaded, found, claimed, Ring, new_ring, slot_at, capacity,
}

-- Position `p` was given out: its writer is filling the slot, or the line is there.
abbrev pub IsTaken : Ring → ℕ → Type 0
IsTaken r p =
    (((slot_at p r).seq ≡ p) × ((w : ℕ) × (q : Request) × (r.writers w ≡ claimed q p)))
    ⊎ (((slot_at p r).seq ≡ p + 1) × (get_elem? r.tickets p ≡ some (slot_at p r).line))

-- After at most `n` steps.
pub record IsSound (n : ℕ) (r : Ring) : Type 0 where
  pub early : r.tail ≤ n
  pub small : (i : ℕ) → i < capacity → (r.slots i).seq ≤ n + capacity
  pub ordered : r.head ≤ r.tail
  pub bounded : r.tail ≤ r.head + capacity
  pub counted : length r.tickets ≡ r.tail
  pub free : (p : ℕ) → r.tail ≤ p → p < r.head + capacity → (slot_at p r).seq ≡ p
  pub taken : (p : ℕ) → r.head ≤ p → p < r.tail → IsTaken r p
  pub waiting : (w : ℕ) (q : Request) (p : ℕ) → r.writers w ≡ loaded q p → p ≤ r.tail
  pub unfilled :
      (w : ℕ) (q : Request) (p : ℕ)
      → r.writers w ≡ found q p
      → (p ≤ r.tail) × (p < r.head + capacity)
  pub mine :
      (w : ℕ) (q : Request) (p : ℕ)
      → r.writers w ≡ claimed q p
      → (r.head ≤ p)
        × (p < r.tail)
        × ((slot_at p r).seq ≡ p)
        × (get_elem? r.tickets p ≡ some (stored q))
  pub only :
      (v w : ℕ) (q s : Request) (p : ℕ)
      → r.writers v ≡ claimed q p
      → r.writers w ≡ claimed s p
      → v ≡ w
  pub ready : r.reading ≡ true → (r.head < r.tail) × ((slot_at r.head r).seq ≡ r.head + 1)
  pub sunk : r.sunk ≡ take r.head r.tickets

-- Two positions of one window share a slot only if they are the same.
pub same_slot :
    (h p q : ℕ)
    → h ≤ p
    → p < h + capacity
    → h ≤ q
    → q < h + capacity
    → (q % capacity == p % capacity) ≡ (q == p)
same_slot h p q a b c d = ground arith

pub new_ring-IsSound : IsSound 0 new_ring
new_ring-IsSound = record {
  early = omega arith;
  small = λ i h. omega arith;
  ordered = omega arith;
  bounded = omega arith;
  counted = refl;
  free = λ p a b. omega arith;
  taken = λ p a b. absurd (omega arith);
  waiting = λ w q p e. cc;
  unfilled = λ w q p e. cc;
  mine = λ w q p e. cc;
  only = λ v w q s p e f. cc;
  ready = λ e. cc;
  sunk = refl;
}
