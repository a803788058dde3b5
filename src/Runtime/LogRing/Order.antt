-- ===== src/Runtime/LogRing/Order.antt =====
-- What the sink of src/runtime/include/atp/runtime/log_ring.hpp gets, and which lines are dropped.
use ani_tools_platform.Prelude.{
  ℕ, ◌+◌, ◌-◌, ◌%◌, ◌^◌, ◌≤◌, ◌<◌, inl, inr, ◌≡◌, ◌≢◌, refl, ap, Bool, List, arith, ltb, ltb→lt,
  leb, ◌==◌, take, length, Bool-cases, subst,
}
use ani_tools_platform.Runtime.LogRing.{
  Request, Phase, resting, loaded, found, claimed, Ring, new_ring, difference, slot_at, capacity,
  look, go, exchange, publish, Act, goes, step, run,
}
use ani_tools_platform.Runtime.LogRing.Invariant.{IsSound, new_ring-IsSound}
use ani_tools_platform.Runtime.LogRing.Writers.{difference-negative}
use ani_tools_platform.Runtime.LogRing.Reader.{run-IsSound}

pub reached-IsSound :
    (acts : List Act) → length acts + 128 < 2 ^ 63 → IsSound (length acts) (run acts new_ring)
reached-IsSound acts h =
    subst (λ k. IsSound k (run acts new_ring)) (omega arith)
      (run-IsSound acts 0 new_ring (omega arith) new_ring-IsSound)

-- Whatever the interleaving of any number of writers with the reader, over fewer than 2 ^ 63 - 128
-- accesses: the sink has got, once each and in the order of the tickets, the first of the lines that
-- got a ticket, and at most 64 of those lines are still to come.
pub run-sinks_in_order :
    (acts : List Act)
    → length acts + 128 < 2 ^ 63
    → ((run acts new_ring).sunk ≡ take (run acts new_ring).head (run acts new_ring).tickets)
      × ((run acts new_ring).head ≤ length (run acts new_ring).tickets)
      × (length (run acts new_ring).tickets ≤ (run acts new_ring).head + capacity)
run-sinks_in_order acts h =
    let s = reached-IsSound acts h in
    (s.sunk, omega (arith, s.counted, s.ordered), omega (arith, s.counted, s.bounded))

-- The position of the window that has the slot of `p`.
window_position : ℕ → ℕ → ℕ
window_position h p = h + (p + capacity - h % capacity) % capacity

window-shares :
    (h p : ℕ)
    → (window_position h p % capacity ≡ p % capacity)
      × (h ≤ window_position h p)
      × (window_position h p < h + capacity)
unfolding window_position
window-shares h p = (omega arith, omega arith, omega arith)

-- The number of a slot is not below the head.
seq-reaches_head : {n : ℕ} {r : Ring} (p : ℕ) → IsSound n r → r.head ≤ (slot_at p r).seq
seq-reaches_head {r = r} p s =
    let (share, low, high) = window-shares r.head p in
    let j = window_position r.head p in
    let same : (slot_at j r).seq ≡ (slot_at p r).seq = ap (λ i. (r.slots i).seq) share in
    elim (Bool-cases (ltb j r.tail)) [
      | inl below ↦ elim (s.taken j low (ltb→lt j r.tail below)) [
        | inl (f, _) ↦ omega arith
        | inr (f, _) ↦ omega arith
      ]
      | inr above ↦ let f = s.free j (ground arith) high in omega arith
    ]

negative-full :
    {n : ℕ} {r : Ring} (p : ℕ)
    → IsSound n r
    → p ≤ r.tail
    → (slot_at p r).seq < p
    → r.tail ≡ r.head + capacity
negative-full {r = r} p s h e =
    let low : r.head ≤ p = omega (arith, seq-reaches_head p s) in
    elim (Bool-cases (ltb p r.tail)) [
      | inl below ↦ absurd (elim (s.taken p low (ltb→lt p r.tail below)) [
        | inl (f, _) ↦ omega arith
        | inr (f, _) ↦ omega arith
      ])
      | inr above ↦
          let last : p ≡ r.tail = ground arith in
          elim (Bool-cases (ltb r.tail (r.head + capacity))) [
            | inl room ↦ absurd (
                omega (
                  arith,
                  s.free p (omega arith) (omega (arith, ltb→lt r.tail (r.head + capacity) room)),
                ))
            | inr full ↦ ground (arith, s.bounded)
          ]
    ]

module _ {n : ℕ} {r : Ring} (w : ℕ) (long : n + 128 < 2 ^ 63) (s : IsSound n r) where
  look-drops :
      (q : Request) (p : ℕ)
      → r.writers w ≡ loaded q p
      → (look w q p r).dropped ≢ r.dropped
      → r.tail ≡ r.head + capacity
  unfolding look
  look-drops q p here =
      let at_most = s.waiting w q p here in
      let small = s.small (p % capacity) (omega arith) in
      elim (Bool-cases (difference (slot_at p r).seq p == 0)) [
        | inl zero_diff ↦ rw (zero_diff) (λ d. absurd (d refl))
        | inr other ↦ elim (Bool-cases (leb (2 ^ 63) (difference (slot_at p r).seq p))) [
          | inl full ↦ λ d.
              negative-full p s at_most (
                difference-negative (slot_at p r).seq p (omega arith) (omega (arith, s.early)) full)
          | inr ahead ↦ rw (other, ahead) (λ d. absurd (d refl))
        ]
      ]

  exchange-drops :
      (spurious : Bool) (q : Request) (p : ℕ) → (exchange spurious w q p r).dropped ≡ r.dropped
  unfolding exchange
  exchange-drops spurious q p = ground arith

  go-drops :
      (spurious : Bool) (x : Phase)
      → r.writers w ≡ x
      → (go w spurious x r).dropped ≢ r.dropped
      → r.tail ≡ r.head + capacity
  unfolding go publish
  go-drops spurious resting here d = absurd (d refl)
  go-drops spurious (loaded q p) here d = look-drops q p here d
  go-drops spurious (found q p) here d = absurd (d (exchange-drops spurious q p))
  go-drops spurious (claimed q p) here d = absurd (d refl)

-- A line is dropped only when the ring is full at that access: 64 lines have a ticket and were not
-- handed to the sink yet. This holds after any interleaving of fewer than 2 ^ 63 - 128 accesses.
pub step-drops_full :
    (acts : List Act) (w : ℕ) (spurious : Bool)
    → length acts + 128 < 2 ^ 63
    → (step (goes w spurious) (run acts new_ring)).dropped ≢ (run acts new_ring).dropped
    → (run acts new_ring).tail ≡ (run acts new_ring).head + capacity
unfolding step
step-drops_full acts w spurious h d =
    go-drops w (omega arith) (reached-IsSound acts h) spurious ((run acts new_ring).writers w) refl
      d
