-- ===== src/Runtime/LogRing/Reader.antt =====
-- The reader of src/runtime/include/atp/runtime/log_ring.hpp against the ring's invariant, then any
-- sequence of accesses.
use ani_tools_platform.Prelude.{
  ℕ, suc, ◌+◌, ◌%◌, ◌^◌, ◌<◌, inl, inr, ◌≡◌, ◌≢◌, refl, sym, ap, ◌∙◌, true, List, [], ◌∷◌, some,
  arith, ltb, ◌==◌, take-suc, length, get_elem?, incr64, Bool-cases, subst,
}
use ani_tools_platform.Runtime.LogRing.{
  Slot, Ring, slot_at, put_slot, find_line, free_slot, capacity, Act, asks, goes, drains, step, run,
}
use ani_tools_platform.Runtime.LogRing.Invariant.{IsSound}
use ani_tools_platform.Runtime.LogRing.Phases.{later}
use ani_tools_platform.Runtime.LogRing.Writers.{difference-zero}
use ani_tools_platform.Runtime.LogRing.Publish.{
  put_slot_own, put_slot_other, go-IsSound, ask-IsSound,
}

module _ (n : ℕ) (r : Ring) (long : n + 128 < 2 ^ 63) (s : IsSound n r) where
  pub next_head : incr64 r.head ≡ suc r.head
  next_head = omega (arith, s.early, s.ordered)

  pub find_line-IsSound : IsSound n (find_line r)
  unfolding find_line
  find_line-IsSound = record {
    early = s.early;
    small = s.small;
    ordered = s.ordered;
    bounded = s.bounded;
    counted = s.counted;
    free = s.free;
    taken = s.taken;
    waiting = s.waiting;
    unfilled = s.unfilled;
    mine = s.mine;
    only = s.only;
    ready = λ e.
        let small = s.small (r.head % capacity) (omega arith) in
        let seq =
          difference-zero (slot_at r.head r).seq (incr64 r.head) (omega arith)
            (omega (arith, s.early, s.ordered, next_head)) e
          ∙ next_head in
        (
          elim (Bool-cases (ltb r.head r.tail)) [
            | inl below ↦ ground arith
            | inr above ↦ absurd (omega (arith, s.free r.head (ground arith) (omega arith)))
          ],
          omega arith,
        );
    sunk = s.sunk;
  }

  -- The line that the reader found is the one with the next ticket.
  pub found_line : r.reading ≡ true → get_elem? r.tickets r.head ≡ some (slot_at r.head r).line
  found_line e =
      let (low, seq) = s.ready e in
      elim (s.taken r.head (omega arith) low) [ inl (f, _) ↦ absurd (omega arith) | inr (_, f) ↦ f ]

  pub free_slot-IsSound : r.reading ≡ true → IsSound n (free_slot r)
  unfolding free_slot
  free_slot-IsSound e =
      let (low, seq) = s.ready e in
      let x : Slot = record (slot_at r.head r) { seq = (r.head + capacity) % 2 ^ 64 } in
      let freed : (r.head + capacity) % 2 ^ 64 ≡ r.head + capacity =
        omega (arith, s.early, s.ordered) in
      let own : slot_at r.head (put_slot r.head x r) ≡ x = put_slot_own r.head x r in
      let other : (j : ℕ)
          → r.head < j
          → j < r.head + capacity
          → slot_at j (put_slot r.head x r) ≡ slot_at j r =
        λ j a b.
          put_slot_other r.head r.head j x r (omega arith) (omega arith) (omega arith) b
            (λ g. omega arith) in
      record {
        early = s.early;
        small = λ i h. elim (Bool-cases (i == r.head % capacity)) [
          | inl same ↦ rw (same) (omega (arith, s.early, s.ordered))
          | inr apart ↦ rw (apart) (s.small i h)
        ];
        ordered = omega (arith, next_head);
        bounded = omega (arith, next_head, s.bounded);
        counted = s.counted;
        free = λ j a b. elim (Bool-cases (ltb j (r.head + capacity))) [
          | inl below ↦
              let inside : j < r.head + capacity = ground arith in
              ap (λ y. y.seq) (other j (omega arith) inside) ∙ s.free j a inside
          | inr above ↦
              let last : j ≡ r.head + capacity = ground (arith, next_head) in
              let same : j % capacity ≡ r.head % capacity = omega arith in
              ap (λ i. ((put_slot r.head x r).slots i).seq) same
              ∙ ap (λ y. y.seq) own
              ∙ freed
              ∙ sym last
        ];
        taken = λ j a b.
            let kept = other j (omega (arith, next_head)) (omega (arith, s.bounded)) in
            elim (s.taken j (omega (arith, next_head)) b) [
              | inl (f, g) ↦ inl (ap (λ y. y.seq) kept ∙ f, g)
              | inr (f, g) ↦ inr (ap (λ y. y.seq) kept ∙ f, g ∙ ap (λ y. some y.line) (sym kept))
            ];
        waiting = s.waiting;
        unfilled = λ v t j f. let (a, b) = s.unfilled v t j f in (a, omega (arith, next_head));
        mine = λ v t j f.
            let (a, b, c, d) = s.mine v t j f in
            let away : r.head ≢ j = λ g. let c' = ap (λ i. (slot_at i r).seq) g in omega arith in
            let above : r.head < j = ground arith in
            (
              omega (arith, next_head),
              b,
              ap (λ y. y.seq) (other j above (omega (arith, s.bounded))) ∙ c,
              d,
            );
        only = s.only;
        ready = λ f. cc;
        sunk =
            rw (next_head, take-suc r.tickets r.head (slot_at r.head r).line (found_line e), s.sunk)
              refl;
      }

  pub step-IsSound : (a : Act) → IsSound (suc n) (step a r)
  unfolding step
  step-IsSound (asks w q) = ask-IsSound n r w long s q (r.writers w) refl
  step-IsSound (goes w spurious) = go-IsSound n r w long s spurious (r.writers w) refl
  step-IsSound drains = elim (Bool-cases r.reading) [
    | inl busy ↦ rw (busy) (later (free_slot-IsSound busy))
    | inr idle ↦ rw (idle) (later find_line-IsSound)
  ]

pub run-IsSound :
    (acts : List Act) (n : ℕ) (r : Ring)
    → n + length acts + 128 < 2 ^ 63
    → IsSound n r
    → IsSound (n + length acts) (run acts r)
unfolding run
run-IsSound [] n r h s = subst (λ k. IsSound k r) (omega arith) s
run-IsSound (a ∷ rest) n r h s =
    subst (λ k. IsSound k (run rest (step a r))) (omega arith)
      (run-IsSound rest (suc n) (step a r) (omega arith) (step-IsSound n r (omega arith) s a))
