-- ===== src/Version/Decimal.antt =====
-- `std::to_string` of an unsigned number: its decimal digits, most significant first.
use ani_tools_platform.Prelude.{
  ℕ, zero, suc, ◌+◌, ◌/◌, ◌%◌, ◌<◌, ◌≡◌, refl, false, [], ◌∷◌, ◌++◌, ltb, if◌then◌else◌, Text,
  arith, Bool-cases, inl, inr, ltb→lt,
}

decimal_fuel : ℕ → ℕ → Text
decimal_fuel zero n = []
decimal_fuel (suc f) n =
    let front = decimal_fuel f (n / 10) in
    if ltb n 10 then (b'0' + n) ∷ [] else front ++ (b'0' + n % 10) ∷ []

-- A digit is taken off in each round, so `n + 1` rounds are enough.
unfoldable pub decimal : ℕ → Text
unfolding decimal_fuel
decimal n = decimal_fuel (suc n) n

-- A run through the digits from the left: it holds of the whole number if it holds of a one-digit
-- number and survives one more digit.
pub decimal-induction {ℓ} :
    (P : ℕ → Text → Type ℓ)
    → ((n : ℕ) → n < 10 → P n ((b'0' + n) ∷ []))
    → ((n : ℕ) (front : Text)
        → ltb n 10 ≡ false
        → P (n / 10) front
        → P n (front ++ (b'0' + n % 10) ∷ []))
    → (n : ℕ) → P n (decimal n)
unfolding decimal
decimal-induction P one more n = go (suc n) n (omega arith)
  where
    go : (f k : ℕ) → k < f → P k (decimal_fuel f k)
    go zero k h = elim h [ ]
    go (suc f) k h = elim (Bool-cases (ltb k 10)) [
      | inl small ↦ rw small (one k (ltb→lt k 10 small))
      | inr big ↦ rw big (more k (decimal_fuel f (k / 10)) big (go f (k / 10) (ground arith)))
    ]

decimal_runs : decimal 4096 ≡ b'4' ∷ b'0' ∷ b'9' ∷ b'6' ∷ []
unfolding decimal
decimal_runs = refl
