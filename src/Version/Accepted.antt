-- ===== src/Version/Accepted.antt =====
-- What the parser of include/atp/support/version.hpp accepts.
use native.Mathlib.Numerals.{add-one}
use ani_tools_platform.Prelude.{
  ℕ, zero, suc, ◌≤◌, ◌<◌, ◌⊎◌, inl, inr, ◌≡◌, ◌∙◌, List, [], ◌∷◌, arith, length-set, set, drop, All,
  Text, ok, >>=-eq-ok,
}
use ani_tools_platform.Version.{
  Version, IsVersion, Scan, max_parts, unsigned_max, scan_start, push_part, end_part, parse_char,
  parse_loop, parse_version,
}

All-set {ℓ κ} :
    {A : Type ℓ} (P : A → Type κ) (xs : List A) (i : ℕ) {v : A}
    → P v
    → All P xs
    → All P (set xs i v)
All-set P [] i h all = all
All-set P (x ∷ xs) zero h all = (h, all.1)
All-set P (x ∷ xs) (suc i) h all = (all.0, All-set P xs i h all.1)

drop-suc-set :
    (xs : List ℕ) (i v : ℕ)
    → All (λ p. p ≡ 0) (drop i xs)
    → All (λ p. p ≡ 0) (drop (suc i) (set xs i v))
drop-suc-set [] i v h = tt
drop-suc-set (x ∷ xs) zero v h = h.1
drop-suc-set (x ∷ xs) (suc i) v h = drop-suc-set xs i v h

push_part-IsVersion :
    (v : Version) (p : ℕ)
    → IsVersion v
    → v.count < max_parts
    → p ≤ unsigned_max
    → IsVersion (push_part v p)
push_part-IsVersion v p h room fits = record {
  size = length-set v.parts v.count p ∙ h.size;
  bounded = omega arith;
  fits = All-set _ v.parts v.count fits h.fits;
  padded = rw add-one (drop-suc-set v.parts v.count p h.padded);
}

record Inv (s : Scan) : Type 0 where
  result : IsVersion s.result
  part : s.part ≤ unsigned_max

end_part-inversion :
    (s : Scan) {v : Version}
    → s.result.count ≤ max_parts
    → end_part s ≡ ok v
    → (s.result.count < max_parts) × (push_part s.result s.part ≡ v)
unfolding end_part
end_part-inversion s h e = ground arith

end_part-IsVersion :
    (s : Scan) {v : Version} → Inv s → end_part s ≡ ok v → IsVersion v × (0 < v.count)
end_part-IsVersion s inv e =
    let (room, pushed) = end_part-inversion s inv.result.bounded e in
    rw (← pushed) (push_part-IsVersion s.result s.part inv.result room inv.part, omega arith)

-- A character is a digit of the component, or the dot that ends it.
parse_char-inversion :
    (c : ℕ) (s : Scan) {t : Scan}
    → parse_char c s ≡ ok t
    → ((t.result ≡ s.result) × (t.part ≤ unsigned_max))
      ⊎ ((end_part s ≡ ok t.result) × (t.part ≡ 0))
unfolding parse_char
parse_char-inversion c s e = ground arith

parse_char-Inv : (c : ℕ) (s : Scan) {t : Scan} → Inv s → parse_char c s ≡ ok t → Inv t
parse_char-Inv c s inv e = elim (parse_char-inversion c s e) [
  | inl (same, fits) ↦ record { result = rw same inv.result; part = fits }
  | inr (ended, none_left) ↦ record {
    result = (end_part-IsVersion s inv ended).0;
    part = omega arith;
  }
]

parse_loop-Inv : (text : Text) (s : Scan) {t : Scan} → Inv s → parse_loop text s ≡ ok t → Inv t
unfolding parse_loop
parse_loop-Inv [] s inv e = ground arith
parse_loop-Inv (c ∷ cs) s inv e =
    let (m, step, rest) = >>=-eq-ok (parse_char c s) (parse_loop cs) e in
    parse_loop-Inv cs m (parse_char-Inv c s inv step) rest

-- What the parser accepts is a valid version with at least one component: one to four of them, each
-- in the range of `unsigned`, the rest of the array zero.
pub parse_version-IsVersion :
    (text : Text) {v : Version} → parse_version text ≡ ok v → IsVersion v × (0 < v.count)
unfolding parse_version
parse_version-IsVersion text e =
    let (s, loop, last) = >>=-eq-ok (parse_loop text scan_start) end_part e in
    end_part-IsVersion s (parse_loop-Inv text scan_start (omega arith) loop) last
