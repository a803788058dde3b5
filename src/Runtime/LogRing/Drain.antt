-- ===== src/Runtime/LogRing/Drain.antt =====
-- A drain of src/runtime/include/atp/runtime/log_ring.hpp while no writer is inside write().
use ani_tools_platform.Prelude.{
  ℕ, zero, suc, ◌+◌, ◌-◌, ◌^◌, ◌<◌, inl, inr, ◌≡◌, refl, sym, ◌∙◌, true, false, List, [], ◌∷◌,
  arith, ==_iff, take_whole, length, incr64, subst,
}
use ani_tools_platform.Runtime.LogRing.{
  resting, Ring, new_ring, difference, slot_at, find_line, free_slot, Act, drains, step, run,
}
use ani_tools_platform.Runtime.LogRing.Invariant.{IsSound}
use ani_tools_platform.Runtime.LogRing.Reader.{find_line-IsSound, free_slot-IsSound, next_head}
use ani_tools_platform.Runtime.LogRing.Order.{reached-IsSound}

-- The accesses of a drain that hands over `k` lines.
unfoldable pub drains_for : ℕ → List Act
drains_for zero = []
drains_for (suc k) = drains ∷ drains ∷ drains_for k

abbrev pub IsQuiet : Ring → Type 0
IsQuiet r = (w : ℕ) → r.writers w ≡ resting

find_line-reads :
    {n : ℕ} {r : Ring}
    → n + 128 < 2 ^ 63
    → IsSound n r
    → IsQuiet r
    → r.head < r.tail
    → (find_line r).reading ≡ true
unfolding find_line
find_line-reads {n = n} {r = r} long s quiet more = elim (s.taken r.head (omega arith) more) [
  | inl (_, (w, q, f)) ↦ let calm = quiet w in cc
  | inr (seq, _) ↦
      let next = next_head n r long s in
      let none_left : difference (slot_at r.head r).seq (incr64 r.head) ≡ 0 =
        omega (arith, s.early) in
      (==_iff (difference (slot_at r.head r).seq (incr64 r.head)) 0).1 none_left
]

drain_one :
    (r : Ring)
    → r.reading ≡ false
    → (find_line r).reading ≡ true
    → step drains (step drains r) ≡ free_slot (find_line r)
unfolding step
drain_one r idle found = rw (idle, found) refl

drain_all :
    (k n : ℕ) (r : Ring)
    → n + k + 128 < 2 ^ 63
    → IsSound n r
    → IsQuiet r
    → r.reading ≡ false
    → r.tail ≡ r.head + k
    → (run (drains_for k) r).sunk ≡ r.tickets
unfolding run drains_for find_line free_slot
drain_all zero n r long s quiet idle len =
    s.sunk ∙ take_whole r.head r.tickets (omega (arith, s.counted))
drain_all (suc k) n r long s quiet idle len =
    let found = find_line-reads (omega arith) s quiet (omega arith) in
    let s' = find_line-IsSound n r (omega arith) s in
    subst (λ t. (run (drains_for k) t).sunk ≡ r.tickets) (sym (drain_one r idle found))
      (drain_all k n (free_slot (find_line r)) (omega arith)
        (free_slot-IsSound n (find_line r) (omega arith) s' found) quiet refl
        (omega (arith, next_head n r (omega arith) s)))

-- After any interleaving of fewer than 2 ^ 63 - 256 accesses that leaves every writer outside write()
-- and the reader outside drain(): one drain hands over every line that has a ticket and was not
-- handed over yet, so that the sink has got exactly the lines with a ticket, in the order of the
-- tickets.
pub drains_for-delivers :
    (acts : List Act)
    → length acts + 256 < 2 ^ 63
    → IsQuiet (run acts new_ring)
    → (run acts new_ring).reading ≡ false
    → (run
        (drains_for ((run acts new_ring).tail - (run acts new_ring).head))
        (run acts new_ring)).sunk
      ≡ (run acts new_ring).tickets
drains_for-delivers acts h quiet idle =
    let s = reached-IsSound acts (omega arith) in
    drain_all ((run acts new_ring).tail - (run acts new_ring).head) (length acts)
      (run acts new_ring) (omega (arith, s.bounded)) s quiet idle (omega (arith, s.ordered))
