-- ===== src/Runtime/LogRing/Phases.antt =====
-- A writer of src/runtime/include/atp/runtime/log_ring.hpp that fills no slot moves on.
use ani_tools_platform.Prelude.{
  ℕ, suc, ◌+◌, ◌≤◌, ◌<◌, ◌⊎◌, inl, inr, ◌≡◌, ◌≢◌, sym, ap, ◌∙◌, arith, ◌==◌, ==_iff, Bool-cases,
}
use ani_tools_platform.Runtime.LogRing.{
  Request, Phase, resting, loaded, found, claimed, Ring, set_phase, capacity,
}
use ani_tools_platform.Runtime.LogRing.Invariant.{IsSound}

pub later : {n : ℕ} {r : Ring} → IsSound n r → IsSound (suc n) r
later s = record {
  early = omega (arith, s.early);
  small = λ i h. omega (arith, s.small i h);
  ordered = s.ordered;
  bounded = s.bounded;
  counted = s.counted;
  free = s.free;
  taken = s.taken;
  waiting = s.waiting;
  unfilled = s.unfilled;
  mine = s.mine;
  only = s.only;
  ready = s.ready;
  sunk = s.sunk;
}

abbrev pub position : Phase → ℕ
position resting = 0
position (loaded q p) = p
position (found q p) = p
position (claimed q p) = p

abbrev pub request : Request → Phase → Request
request d resting = d
request d (loaded q p) = q
request d (found q p) = q
request d (claimed q p) = q

-- Who is where after one writer moved.
pub phase-set_phase :
    (w : ℕ) (x : Phase) (r : Ring) (v : ℕ) (y : Phase)
    → (set_phase w x r).writers v ≡ y
    → ((v ≡ w) × (x ≡ y)) ⊎ ((v ≢ w) × (r.writers v ≡ y))
phase-set_phase w x r v y e = elim (Bool-cases (v == w)) [
  | inl same ↦ inl ((==_iff v w).0 same, rw (same) at e)
  | inr other ↦ inr ((λ f. ground (arith, ==_iff v w)), rw (other) at e)
]

pub others_stay :
    (w : ℕ) (x : Phase) (r : Ring) (v : ℕ) → v ≢ w → (set_phase w x r).writers v ≡ r.writers v
others_stay w x r v h = ground (arith, ==_iff v w)

pub own_phase : (w : ℕ) (x : Phase) (r : Ring) → (set_phase w x r).writers w ≡ x
own_phase w x r = ground (arith, ==_iff w w)

-- A move between two phases outside the filling of a slot.
module _ (n : ℕ) (r : Ring) (w : ℕ) (x : Phase)
    (idle : (q : Request) (p : ℕ) → r.writers w ≢ claimed q p)
    (idle' : (q : Request) (p : ℕ) → x ≢ claimed q p)
    (fits : (q : Request) (p : ℕ) → x ≡ loaded q p → p ≤ r.tail)
    (room : (q : Request) (p : ℕ) → x ≡ found q p → (p ≤ r.tail) × (p < r.head + capacity)) where
  pub moves-IsSound : IsSound n r → IsSound n (set_phase w x r)
  moves-IsSound s = record {
    early = s.early;
    small = s.small;
    ordered = s.ordered;
    bounded = s.bounded;
    counted = s.counted;
    free = s.free;
    taken = λ p a b. elim (s.taken p a b) [
      | inl (e, (v, q, f)) ↦
          inl (e, (v, q, others_stay w x r v (λ g. idle q p (ap r.writers (sym g) ∙ f)) ∙ f))
      | inr there ↦ inr there
    ];
    waiting = λ v q p e. elim (phase-set_phase w x r v (loaded q p) e) [
      | inl (_, f) ↦ fits q p f
      | inr (_, f) ↦ s.waiting v q p f
    ];
    unfilled = λ v q p e. elim (phase-set_phase w x r v (found q p) e) [
      | inl (_, f) ↦ room q p f
      | inr (_, f) ↦ s.unfilled v q p f
    ];
    mine = λ v q p e. elim (phase-set_phase w x r v (claimed q p) e) [
      | inl (_, f) ↦ absurd (idle' q p f)
      | inr (_, f) ↦ s.mine v q p f
    ];
    only = λ u v q t p e f. elim (phase-set_phase w x r u (claimed q p) e) [
      | inl (_, g) ↦ absurd (idle' q p g)
      | inr (_, g) ↦ elim (phase-set_phase w x r v (claimed t p) f) [
        | inl (_, h) ↦ absurd (idle' t p h)
        | inr (_, h) ↦ s.only u v q t p g h
      ]
    ];
    ready = s.ready;
    sunk = s.sunk;
  }
