-- ===== src/Studio/Lookup/Names.antt =====
-- The names that src/studio/include/atp/studio/node_lookup.hpp makes up.
use ani_tools_platform.Prelude.{
  ℕ, zero, suc, ◌+◌, ◌-◌, ◌*◌, ◌%◌, ◌≤◌, ◌<◌, ◌≡◌, refl, sym, ap, ◌∙◌, Bool, false, [], ◌∷◌, ◌++◌,
  none, some, Text, text_eq, text_eq_iff, arith, if◌then◌else◌, subst, Bool-cases, Option-cases,
  inl, inr,
}
use ani_tools_platform.Version.Decimal.{decimal, decimal-induction}
use ani_tools_platform.Config.Model.{ChildNode, ChildNodes, no_children, child}
use ani_tools_platform.Studio.Lookup.{
  child_name, taken, candidate, count_children, first_free, unique_child_name,
}

-- The number that digits spell, read on from `n`.
value : ℕ → Text → ℕ
value n [] = n
value n (c ∷ cs) = value (n * 10 + (c - b'0')) cs

value-append_end : (n c : ℕ) (cs : Text) → value n (cs ++ c ∷ []) ≡ value n cs * 10 + (c - b'0')
unfolding value
value-append_end n c [] = refl
value-append_end n c (d ∷ cs) = value-append_end (n * 10 + (d - b'0')) c cs

value-decimal : (n : ℕ) → value 0 (decimal n) ≡ n
unfolding value
value-decimal =
    decimal-induction (λ n t. value 0 t ≡ n) (λ n h. omega arith)
      (λ n front h before. value-append_end 0 (b'0' + n % 10) front ∙ omega (arith, before))

append-cancel : (base xs ys : Text) → base ++ xs ≡ base ++ ys → xs ≡ ys
append-cancel [] xs ys h = h
append-cancel (c ∷ base) xs ys h = append-cancel base xs ys (cc h)

candidate-injective : (base : Text) (i j : ℕ) → candidate base i ≡ candidate base j → i ≡ j
unfolding candidate
candidate-injective base i j h =
    sym (value-decimal i)
    ∙ ap (value 0) (cc (append-cancel base (b'_' ∷ decimal i) (b'_' ∷ decimal j) h))
    ∙ value-decimal j

abbrev one_if : Bool → ℕ
one_if b = if b then 1 else 0

module _ (base : Text) where
  -- How many of the `n` candidates from `i` on are the name, or are taken.
  named : Text → ℕ → ℕ → ℕ
  named x zero i = 0
  named x (suc n) i = one_if (text_eq x (candidate base i)) + named x n (suc i)

  hits : ChildNodes → ℕ → ℕ → ℕ
  hits cs zero i = 0
  hits cs (suc n) i = one_if (taken cs (candidate base i)) + hits cs n (suc i)

  named_later : (x : Text) (n i j : ℕ) → x ≡ candidate base i → i < j → named x n j ≡ 0
  unfolding named
  named_later x zero i j e h = refl
  named_later x (suc n) i j e h = elim (Bool-cases (text_eq x (candidate base j))) [
    | inl same ↦
        absurd (omega (arith, candidate-injective base i j (sym e ∙ (text_eq_iff x _).0 same), h))
    | inr other ↦ rw other (omega (arith, named_later x n i (suc j) e (omega arith)))
  ]

  -- Distinct numbers give distinct candidates.
  named-le-one : (x : Text) (n i : ℕ) → named x n i ≤ 1
  unfolding named
  named-le-one x zero i = omega arith
  named-le-one x (suc n) i = elim (Bool-cases (text_eq x (candidate base i))) [
    | inl same ↦
        rw same (omega (arith, named_later x n i (suc i) ((text_eq_iff x _).0 same) (omega arith)))
    | inr other ↦ rw other (omega (arith, named-le-one x n (suc i)))
  ]

  hits-no_children : (n i : ℕ) → hits no_children n i ≡ 0
  unfolding hits taken
  hits-no_children zero i = refl
  hits-no_children (suc n) i = omega (arith, hits-no_children n (suc i))

  hits-child :
      (c : ChildNode) (cs : ChildNodes) (n i : ℕ)
      → hits (child c cs) n i ≤ named (child_name c) n i + hits cs n i
  unfolding hits named taken
  hits-child c cs zero i = omega arith
  hits-child c cs (suc n) i = ground (arith, hits-child c cs n (suc i))

  hits-le : (cs : ChildNodes) (n i : ℕ) → hits cs n i ≤ count_children cs
  unfolding count_children
  hits-le no_children n i = omega (arith, hits-no_children n i)
  hits-le (child c cs) n i =
      omega (arith, hits-child c cs n i, named-le-one (child_name c) n i, hits-le cs n i)

  first_free-none : (cs : ChildNodes) (n i : ℕ) → first_free n cs base i ≡ none → hits cs n i ≡ n
  unfolding first_free hits
  first_free-none cs zero i h = refl
  first_free-none cs (suc n) i h = ground (arith, first_free-none cs n (suc i))

  first_free-taken :
      (cs : ChildNodes) (n i : ℕ) {name : Text}
      → first_free n cs base i ≡ some name
      → taken cs name ≡ false
  unfolding first_free
  first_free-taken cs zero i h = cc
  first_free-taken cs (suc n) i h = elim (Bool-cases (taken cs (candidate base i))) [
    | inl used ↦ first_free-taken cs n (suc i) (rw (first_free, used) at h)
    | inr free ↦ subst (λ k. taken cs k ≡ false) (cc (rw (first_free, free) at h)) free
  ]

  -- The search for a free name ends, after at most one round more than there are children, and the
  -- name that it finds is not taken.
  pub unique_child_name-free :
      (cs : ChildNodes)
      → (name : Text) × (unique_child_name cs base ≡ some name) × (taken cs name ≡ false)
  unfolding unique_child_name
  unique_child_name-free cs = elim (Bool-cases (taken cs base)) [
    | inr free ↦ (base, rw free refl, free)
    | inl used ↦ elim (Option-cases (first_free (suc (count_children cs)) cs base 2)) [
      | inl never ↦ absurd (
          omega (
            arith,
            first_free-none cs (suc (count_children cs)) 2 never,
            hits-le cs (suc (count_children cs)) 2,
          ))
      | inr (name, there) ↦
          (name, rw used there, first_free-taken cs (suc (count_children cs)) 2 there)
    ]
  ]
