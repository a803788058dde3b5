-- ===== src/Version/Order.antt =====
-- The comparison of include/atp/support/version.hpp.
use Prim.Native.Nat.{Ordering}
use ani_tools_platform.Prelude.{ℕ, ◌≡◌, refl, ◌↔◌, List, [], ◌∷◌, arith}
use ani_tools_platform.Version.{Version, compare_parts, compare_version}

pub swap : Ordering → Ordering
swap Ordering.lt = Ordering.gt
swap Ordering.eq = Ordering.eq
swap Ordering.gt = Ordering.lt

compare_parts-swap : (xs ys : List ℕ) → compare_parts ys xs ≡ swap (compare_parts xs ys)
unfolding compare_parts swap
compare_parts-swap [] [] = refl
compare_parts-swap [] (y ∷ ys) = refl
compare_parts-swap (x ∷ xs) [] = refl
compare_parts-swap (x ∷ xs) (y ∷ ys) = ground (arith, compare_parts-swap xs ys)

compare_parts-eq : (xs ys : List ℕ) → (compare_parts xs ys ≡ Ordering.eq) ↔ (xs ≡ ys)
unfolding compare_parts
compare_parts-eq [] [] = ground arith
compare_parts-eq [] (y ∷ ys) = ground arith
compare_parts-eq (x ∷ xs) [] = ground arith
compare_parts-eq (x ∷ xs) (y ∷ ys) = ground (arith, compare_parts-eq xs ys)

compare_parts_trans :
    (xs ys zs : List ℕ)
    → compare_parts xs ys ≡ Ordering.lt
    → compare_parts ys zs ≡ Ordering.lt
    → compare_parts xs zs ≡ Ordering.lt
unfolding compare_parts
compare_parts_trans [] [] zs p q = ground arith
compare_parts_trans [] (y ∷ ys) [] p q = ground arith
compare_parts_trans [] (y ∷ ys) (z ∷ zs) p q = refl
compare_parts_trans (x ∷ xs) [] zs p q = ground arith
compare_parts_trans (x ∷ xs) (y ∷ ys) [] p q = ground arith
compare_parts_trans (x ∷ xs) (y ∷ ys) (z ∷ zs) p q = ground (arith, compare_parts_trans xs ys zs)

-- Versions are ordered by their components alone: the comparison says "equal" exactly when the
-- components are the same (the counts take no part), and turns round when its arguments do.
pub compare-total :
    (u v : Version)
    → ((compare_version u v ≡ Ordering.eq) ↔ (u.parts ≡ v.parts))
      × (compare_version v u ≡ swap (compare_version u v))
unfolding compare_version
compare-total u v = (compare_parts-eq u.parts v.parts, compare_parts-swap u.parts v.parts)

-- "Less" is transitive on versions.
pub compare_trans :
    (u v w : Version)
    → compare_version u v ≡ Ordering.lt
    → compare_version v w ≡ Ordering.lt
    → compare_version u w ≡ Ordering.lt
unfolding compare_version
compare_trans u v w = compare_parts_trans u.parts v.parts w.parts
