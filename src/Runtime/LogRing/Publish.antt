-- ===== src/Runtime/LogRing/Publish.antt =====
-- A writer of src/runtime/include/atp/runtime/log_ring.hpp publishes its line; then any access of a
-- writer.
use ani_tools_platform.Prelude.{
  ℕ, suc, ◌+◌, ◌%◌, ◌^◌, ◌≤◌, ◌<◌, inl, inr, ◌≡◌, ◌≢◌, refl, sym, ap, ◌∙◌, Bool, false, not, ◌&&◌,
  some, arith, ◌==◌, ==_iff, incr64, Bool-cases,
}
use ani_tools_platform.Runtime.LogRing.{
  Request, stored, Slot, Phase, resting, loaded, found, claimed, Ring, slot_at, put_slot, set_phase,
  exchange, publish, capacity, go, ask,
}
use ani_tools_platform.Runtime.LogRing.Invariant.{IsSound, same_slot}
use ani_tools_platform.Runtime.LogRing.Phases.{
  later, position, phase-set_phase, others_stay, moves-IsSound,
}
use ani_tools_platform.Runtime.LogRing.Writers.{look-IsSound, claims-IsSound}

pub put_slot_own : (p : ℕ) (x : Slot) (r : Ring) → slot_at p (put_slot p x r) ≡ x
put_slot_own p x r = ground (arith, ==_iff (p % capacity) (p % capacity))

-- Within a window, the slot of another position stays.
pub put_slot_other :
    (h p j : ℕ) (x : Slot) (r : Ring)
    → h ≤ p
    → p < h + capacity
    → h ≤ j
    → j < h + capacity
    → j ≢ p
    → slot_at j (put_slot p x r) ≡ slot_at j r
put_slot_other h p j x r a b c d e =
    let apart : (j % capacity == p % capacity) ≡ false =
      same_slot h p j a b c d ∙ ground (arith, ==_iff j p) in
    rw (apart) refl

module _ (n : ℕ) (r : Ring) (w : ℕ) (q : Request) (p : ℕ) (long : n + 128 < 2 ^ 63)
    (s : IsSound n r) where
  publish-IsSound : r.writers w ≡ claimed q p → IsSound n (publish w q p r)
  unfolding publish
  publish-IsSound here =
      let (low, high, seq, ticket) = s.mine w q p here in
      let inside : p < r.head + capacity = omega (arith, s.bounded) in
      let next : incr64 p ≡ p + 1 = omega (arith, s.early) in
      let x : Slot = record { seq = incr64 p; line = stored q } in
      let moved : Ring = set_phase w resting r in
      let own : slot_at p (put_slot p x moved) ≡ x = put_slot_own p x moved in
      let other : (j : ℕ)
          → r.head ≤ j
          → j < r.head + capacity
          → j ≢ p
          → slot_at j (put_slot p x moved) ≡ slot_at j r =
        λ j. put_slot_other r.head p j x moved low inside in
      record {
        early = s.early;
        small = λ i h. elim (Bool-cases (i == p % capacity)) [
          | inl same ↦ rw (same) (omega (arith, s.early))
          | inr apart ↦ rw (apart) (s.small i h)
        ];
        ordered = s.ordered;
        bounded = s.bounded;
        counted = s.counted;
        free = λ j a b. ap (λ y. y.seq) (other j (omega arith) b (λ e. omega arith)) ∙ s.free j a b;
        taken = λ j a b. elim (Bool-cases (j == p)) [
          | inl same ↦
              rw ((==_iff j p).0 same)
                (inr (ap (λ y. y.seq) own ∙ next, ticket ∙ ap (λ y. some y.line) (sym own)))
          | inr apart ↦
              let away : j ≢ p = λ e. ground (arith, ==_iff j p) in
              let kept = other j a (omega (arith, s.bounded)) away in
              elim (s.taken j a b) [
                | inl (e, (v, t, f)) ↦ inl (
                  ap (λ y. y.seq) kept ∙ e,
                  (
                    v,
                    t,
                    others_stay w resting r v
                          (λ g. away (ap position (sym f ∙ ap r.writers g ∙ here)))
                        ∙ f,
                  ),
                )
                | inr (e, f) ↦ inr (ap (λ y. y.seq) kept ∙ e, f ∙ ap (λ y. some y.line) (sym kept))
              ]
        ];
        waiting = λ v t j e. elim (phase-set_phase w resting r v (loaded t j) e) [
          | inl (_, f) ↦ cc
          | inr (_, f) ↦ s.waiting v t j f
        ];
        unfilled = λ v t j e. elim (phase-set_phase w resting r v (found t j) e) [
          | inl (_, f) ↦ cc
          | inr (_, f) ↦ s.unfilled v t j f
        ];
        mine = λ v t j e. elim (phase-set_phase w resting r v (claimed t j) e) [
          | inl (_, f) ↦ cc
          | inr (apart, f) ↦
              let (a, b, c, d) = s.mine v t j f in
              let away : j ≢ p = λ g. apart (s.only v w t q p (f ∙ ap (claimed t) g) here) in
              (a, b, ap (λ y. y.seq) (other j a (omega (arith, s.bounded)) away) ∙ c, d)
        ];
        only = λ u v t t' j e f. elim (phase-set_phase w resting r u (claimed t j) e) [
          | inl (_, b) ↦ cc
          | inr (_, b) ↦ elim (phase-set_phase w resting r v (claimed t' j) f) [
            | inl (_, d) ↦ cc
            | inr (_, d) ↦ s.only u v t t' j b d
          ]
        ];
        ready = λ e.
            let (a, b) = s.ready e in
            (
              a,
              ap (λ y. y.seq)
                    (other r.head (omega arith) (omega arith)
                      (λ g. let e' = ap (λ i. (slot_at i r).seq) g in omega arith))
                  ∙ b,
            );
        sunk = s.sunk;
      }

  exchange-IsSound :
      (spurious : Bool) → r.writers w ≡ found q p → IsSound (suc n) (exchange spurious w q p r)
  unfolding exchange
  exchange-IsSound spurious here = elim (Bool-cases (r.tail == p && not spurious)) [
    | inl won ↦ rw (won) (claims-IsSound n r w q p long s here (ground (arith, ==_iff r.tail p)))
    | inr lost ↦ rw (lost) (
        later (
          moves-IsSound n r w (loaded q r.tail) (λ t j e. cc) (λ t j e. cc)
            (λ t j e. let same : r.tail ≡ j = ap position e in omega arith) (λ t j e. cc) s))
  ]

module _ (n : ℕ) (r : Ring) (w : ℕ) (long : n + 128 < 2 ^ 63) (s : IsSound n r) where
  pub go-IsSound :
      (spurious : Bool) (x : Phase) → r.writers w ≡ x → IsSound (suc n) (go w spurious x r)
  unfolding go
  go-IsSound spurious resting here = later s
  go-IsSound spurious (loaded q p) here = later (look-IsSound n r w q p long s here)
  go-IsSound spurious (found q p) here = exchange-IsSound n r w q p long s spurious here
  go-IsSound spurious (claimed q p) here = later (publish-IsSound n r w q p long s here)

  pub ask-IsSound : (q : Request) (x : Phase) → r.writers w ≡ x → IsSound (suc n) (ask w q x r)
  ask-IsSound q resting here = later (
      moves-IsSound n r w (loaded q r.tail) (λ t j e. cc) (λ t j e. cc)
        (λ t j e. let same : r.tail ≡ j = ap position e in omega arith) (λ t j e. cc) s)
  ask-IsSound q (loaded _ _) here = later s
  ask-IsSound q (found _ _) here = later s
  ask-IsSound q (claimed _ _) here = later s
