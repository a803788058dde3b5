-- ===== src/Runtime/LogRing/Writers.antt =====
-- The writers of src/runtime/include/atp/runtime/log_ring.hpp against the ring's invariant.
use ani_tools_platform.Prelude.{
  ℕ, suc, ◌+◌, ◌%◌, ◌^◌, ◌≤◌, ◌<◌, inl, inr, ◌≡◌, ◌≢◌, sym, ap, ◌∙◌, true, [], ◌∷◌, ◌++◌, arith,
  ltb, leb, ltb→lt, ◌==◌, length, length-append, get_elem?-append, get_elem?-append_end,
  take-append, incr64, Bool-cases,
}
use ani_tools_platform.Runtime.LogRing.{
  Request, stored, resting, loaded, found, claimed, Ring, difference, slot_at, set_phase, look,
  capacity,
}
use ani_tools_platform.Runtime.LogRing.Invariant.{IsSound}
use ani_tools_platform.Runtime.LogRing.Phases.{
  position, request, phase-set_phase, others_stay, own_phase, moves-IsSound,
}

drop-IsSound : (n : ℕ) (r : Ring) (d : ℕ) → IsSound n r → IsSound n (record r { dropped = d })
drop-IsSound n r d s = record {
  early = s.early;
  small = s.small;
  ordered = s.ordered;
  bounded = s.bounded;
  counted = s.counted;
  free = s.free;
  taken = s.taken;
  waiting = s.waiting;
  unfilled = s.unfilled;
  mine = s.mine;
  only = s.only;
  ready = s.ready;
  sunk = s.sunk;
}

-- The three signs of the difference, below 2 ^ 63.
pub difference-zero : (a b : ℕ) → a < 2 ^ 63 → b < 2 ^ 63 → (difference a b == 0) ≡ true → a ≡ b
difference-zero a b x y h = ground arith

pub difference-negative :
    (a b : ℕ) → a < 2 ^ 63 → b < 2 ^ 63 → leb (2 ^ 63) (difference a b) ≡ true → a < b
difference-negative a b x y h = ground arith

-- A slot found free at a position up to the tail is one of the window.
free-reserves :
    {n : ℕ} {r : Ring} (p : ℕ)
    → IsSound n r
    → p ≤ r.tail
    → (slot_at p r).seq ≡ p
    → p < r.head + capacity
free-reserves {r = r} p s h e = elim (Bool-cases (ltb p (r.head + capacity))) [
  | inl inside ↦ ltb→lt p (r.head + capacity) inside
  | inr outside ↦
      let far : r.head + capacity ≤ p = ground arith in
      let same : p % capacity ≡ r.head % capacity = omega (arith, s.bounded) in
      let e' : (slot_at r.head r).seq ≡ p = sym (ap (λ i. (r.slots i).seq) same) ∙ e in
      absurd (elim (s.taken r.head (omega arith) (omega (arith, s.bounded))) [
        | inl (f, _) ↦ omega arith
        | inr (f, _) ↦ omega arith
      ])
]

module _ (n : ℕ) (r : Ring) (w : ℕ) (q : Request) (p : ℕ) (long : n + 128 < 2 ^ 63)
    (s : IsSound n r) where
  pub look-IsSound : r.writers w ≡ loaded q p → IsSound n (look w q p r)
  unfolding look
  look-IsSound here =
      let at_most = s.waiting w q p here in
      let small = s.small (p % capacity) (omega arith) in
      let idle : (t : Request) (j : ℕ) → r.writers w ≢ claimed t j = λ t j e. cc in
      elim (Bool-cases (difference (slot_at p r).seq p == 0)) [
        | inl zero_diff ↦
            let equal =
              difference-zero (slot_at p r).seq p (omega arith) (omega (arith, s.early))
                zero_diff in
            rw (zero_diff) (
              moves-IsSound n r w (found q p) idle (λ t j e. cc) (λ t j e. cc)
                (λ t j e.
                  let same : p ≡ j = ap position e in
                  (omega arith, omega (arith, free-reserves p s at_most equal)))
                s)
        | inr other ↦ elim (Bool-cases (leb (2 ^ 63) (difference (slot_at p r).seq p))) [
          | inl full ↦
              rw (other, full)
                (drop-IsSound n (set_phase w resting r) (incr64 r.dropped)
                  (moves-IsSound n r w resting idle (λ t j e. cc) (λ t j e. cc) (λ t j e. cc) s))
          | inr ahead ↦
              rw (other, ahead)
                (moves-IsSound n r w (loaded q r.tail) idle (λ t j e. cc)
                  (λ t j e. let same : r.tail ≡ j = ap position e in omega arith) (λ t j e. cc) s)
        ]
      ]

  -- The ticket is claimed: the tail moves past `p`.
  pub claims-IsSound :
      r.writers w ≡ found q p
      → r.tail ≡ p
      → IsSound (suc n) (record (set_phase w (claimed q p) r) {
        tail = incr64 p;
        tickets = r.tickets ++ stored q ∷ [];
      })
  claims-IsSound here at_tail =
      let (_, room) = s.unfilled w q p here in
      let next : incr64 p ≡ p + 1 = omega (arith, s.early) in
      let count : length r.tickets ≡ p = s.counted ∙ at_tail in
      let seq_free : (slot_at p r).seq ≡ p = s.free p (omega arith) room in
      record {
        early = omega (arith, s.early);
        small = λ i h. omega (arith, s.small i h);
        ordered = omega (arith, s.ordered);
        bounded = omega arith;
        counted = omega (arith, length-append r.tickets (stored q ∷ []));
        free = λ j a b. s.free j (omega arith) b;
        taken = λ j a b. elim (Bool-cases (ltb j p)) [
          | inl below ↦ elim (s.taken j a (omega (arith, ltb→lt j p below))) [
            | inl (e, (v, t, f)) ↦ inl (
              e,
              (v, t, others_stay w (claimed q p) r v (λ g. let moved = ap r.writers g in cc) ∙ f),
            )
            | inr (e, f) ↦ inr (
              e,
              get_elem?-append r.tickets (stored q ∷ []) j (omega (arith, ltb→lt j p below)) ∙ f,
            )
          ]
          | inr above ↦
              let same : j ≡ p = ground arith in
              rw (same) (inl (seq_free, (w, q, own_phase w (claimed q p) r)))
        ];
        waiting = λ v t j e. elim (phase-set_phase w (claimed q p) r v (loaded t j) e) [
          | inl (_, f) ↦ cc
          | inr (_, f) ↦ omega (arith, s.waiting v t j f)
        ];
        unfilled = λ v t j e. elim (phase-set_phase w (claimed q p) r v (found t j) e) [
          | inl (_, f) ↦ cc
          | inr (_, f) ↦ let (a, b) = s.unfilled v t j f in (omega arith, b)
        ];
        mine = λ v t j e. elim (phase-set_phase w (claimed q p) r v (claimed t j) e) [
          | inl (_, f) ↦
              let there = ap position f in
              let it = ap (request q) f in
              rw (sym there, sym it)
                (
                  omega (arith, s.ordered),
                  omega arith,
                  seq_free,
                  get_elem?-append_end r.tickets (stored q) p count,
                )
          | inr (_, f) ↦
              let (a, b, c, d) = s.mine v t j f in
              (a, omega arith, c, get_elem?-append r.tickets (stored q ∷ []) j (omega arith) ∙ d)
        ];
        only = λ u v t t' j e f. elim (phase-set_phase w (claimed q p) r u (claimed t j) e) [
          | inl (a, b) ↦ elim (phase-set_phase w (claimed q p) r v (claimed t' j) f) [
            | inl (c, d) ↦ a ∙ sym c
            | inr (c, d) ↦
                let there = ap position b in
                let (_, late, _, _) = s.mine v t' j d in absurd (omega arith)
          ]
          | inr (a, b) ↦ elim (phase-set_phase w (claimed q p) r v (claimed t' j) f) [
            | inl (c, d) ↦
                let there = ap position d in
                let (_, late, _, _) = s.mine u t j b in absurd (omega arith)
            | inr (c, d) ↦ s.only u v t t' j b d
          ]
        ];
        ready = λ e. let (a, b) = s.ready e in (omega arith, b);
        sunk =
            s.sunk ∙ sym (take-append r.head r.tickets (stored q ∷ []) (omega (arith, s.ordered)));
      }
