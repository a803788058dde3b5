-- ===== src/Version/Parse.antt =====
-- The parser against the printer of include/atp/support/version.hpp.
use ani_tools_platform.Prelude.{
  ℕ, zero, suc, ◌+◌, ◌*◌, ◌/◌, ◌%◌, ◌≤◌, ◌<◌, ◌≡◌, refl, ◌∙◌, true, false, List, [], ◌∷◌, ◌++◌,
  append_assoc, arith, length, All, Text, ok, max,
}
use ani_tools_platform.Version.Decimal.{decimal, decimal-induction}
use ani_tools_platform.Version.{
  Version, IsVersion, Scan, max_parts, unsigned_max, empty_version, scan_start, push_part, end_part,
  parse_char, parse_loop, parse_version, dotted, to_string,
}

digit_step :
    (d p : ℕ) (s : Scan)
    → d < 10
    → s.part ≡ p
    → p * 10 + d ≤ unsigned_max
    → parse_char (b'0' + d) s ≡ ok (record s { part = p * 10 + d; has_digit = true })
unfolding parse_char
digit_step d p s h e fits = ground arith

ReadsBack : ℕ → Text → Type 0
ReadsBack n text =
    (rest : Text) (s : Scan)
    → n ≤ unsigned_max
    → s.part ≡ 0
    → parse_loop (text ++ rest) s ≡ parse_loop rest (record s { part = n; has_digit = true })

-- One more character, known to be a digit.
read_digit :
    (d p n : ℕ) (rest : Text) (s : Scan)
    → d < 10
    → s.part ≡ p
    → p * 10 + d ≡ n
    → n ≤ unsigned_max
    → parse_loop ((b'0' + d) ∷ rest) s ≡ parse_loop rest (record s { part = n; has_digit = true })
unfolding parse_loop
read_digit d p n rest s h e total fits = rw (digit_step d p s h e (omega arith)) (rw total refl)

decimal-ReadsBack : (n : ℕ) → ReadsBack n (decimal n)
unfolding ReadsBack
decimal-ReadsBack =
    decimal-induction ReadsBack
      (λ n h rest s fits e. read_digit n 0 n rest s h e (omega arith) fits)
      (λ n front big ih rest s fits e. rw append_assoc (
        ih ((b'0' + n % 10) ∷ rest) s (omega arith) e
        ∙ read_digit (n % 10) (n / 10) n rest (record s { part = n / 10; has_digit = true })
            (omega arith) refl (omega arith) fits))

end_part-eq-ok :
    (s : Scan)
    → s.has_digit ≡ true
    → s.result.count < max_parts
    → end_part s ≡ ok (push_part s.result s.part)
unfolding end_part
end_part-eq-ok s digit room = ground arith

-- One component and the dot before it, read when the one before is complete.
read_part :
    (p : ℕ) (rest : Text) (s : Scan)
    → p ≤ unsigned_max
    → s.has_digit ≡ true
    → s.result.count < max_parts
    → parse_loop (b'.' ∷ (decimal p ++ rest)) s
      ≡ parse_loop rest (record { result = push_part s.result s.part; part = p; has_digit = true })
unfolding parse_loop parse_char ReadsBack
read_part p rest s fits digit room = rw (end_part-eq-ok s digit room) (
    decimal-ReadsBack p rest
      (record { result = push_part s.result s.part; part = 0; has_digit = false }) fits refl)

first_part :
    (p : ℕ) (rest : Text)
    → p ≤ unsigned_max
    → parse_loop (decimal p ++ rest) scan_start
      ≡ parse_loop rest (record { result = empty_version; part = p; has_digit = true })
unfolding ReadsBack
first_part p rest fits = decimal-ReadsBack p rest scan_start fits refl

-- The state of the loop after the components `ps`.
after_parts : List ℕ → Scan → Scan
after_parts [] s = s
after_parts (p ∷ ps) s =
    after_parts ps (record { result = push_part s.result s.part; part = p; has_digit = true })

read_dotted :
    (ps : List ℕ) (s : Scan)
    → All (λ p. p ≤ unsigned_max) ps
    → s.has_digit ≡ true
    → s.result.count + length ps < max_parts
    → parse_loop (dotted ps) s ≡ ok (after_parts ps s)
unfolding after_parts dotted parse_loop
read_dotted [] s fits digit room = refl
read_dotted (p ∷ ps) s fits digit room =
    read_part p (dotted ps) s fits.0 digit (omega arith)
    ∙ read_dotted ps _ fits.1 refl (omega arith)

-- From the first component to the end of the text.
read-All :
    (p : ℕ) (ps : List ℕ) (v : Version)
    → All (λ q. q ≤ unsigned_max) (p ∷ ps)
    → length ps < max_parts
    → end_part (after_parts ps (record { result = empty_version; part = p; has_digit = true }))
      ≡ ok v
    → parse_version (decimal p ++ dotted ps) ≡ ok v
unfolding parse_version
read-All p ps v fits room e =
    rw (first_part p (dotted ps) fits.0, read_dotted ps start fits.1 refl (omega arith)) e
  where
    start : Scan
    start = record { result = empty_version; part = p; has_digit = true }

zero_text : parse_version (b'0' ∷ []) ≡ ok (record empty_version { count = 1 })
unfolding parse_version parse_loop end_part
zero_text = refl

read_back :
    (parts : List ℕ) (count : ℕ)
    → IsVersion (record { parts = parts; count = count })
    → parse_version (to_string (record { parts = parts; count = count }))
      ≡ ok (record { parts = parts; count = max 1 count })
unfolding to_string after_parts end_part
read_back (a ∷ b ∷ c ∷ d ∷ []) zero v = ground (arith, zero_text)
read_back (a ∷ b ∷ c ∷ d ∷ []) (suc zero) v =
    read-All a [] _ (v.fits.0, tt) (omega arith) (ground arith)
read_back (a ∷ b ∷ c ∷ d ∷ []) (suc (suc zero)) v =
    read-All a (b ∷ []) _ (v.fits.0, (v.fits.1.0, tt)) (omega arith) (ground arith)
read_back (a ∷ b ∷ c ∷ d ∷ []) (suc (suc (suc zero))) v =
    read-All a (b ∷ c ∷ []) _ (v.fits.0, (v.fits.1.0, (v.fits.1.1.0, tt))) (omega arith)
      (ground arith)
read_back (a ∷ b ∷ c ∷ d ∷ []) (suc (suc (suc (suc zero)))) v =
    read-All a (b ∷ c ∷ d ∷ []) _ v.fits (omega arith) (ground arith)
read_back (a ∷ b ∷ c ∷ d ∷ []) (suc (suc (suc (suc (suc n))))) v = absurd (omega (arith, v.bounded))
read_back (a ∷ b ∷ c ∷ d ∷ e ∷ r) n v = absurd (omega (arith, v.size))
read_back (a ∷ b ∷ c ∷ []) n v = absurd (omega (arith, v.size))
read_back (a ∷ b ∷ []) n v = absurd (omega (arith, v.size))
read_back (a ∷ []) n v = absurd (omega (arith, v.size))
read_back [] n v = absurd (omega (arith, v.size))

-- Every valid version is read back from its text, component for component. The one without
-- components prints as "0" and comes back with a count of 1; every other keeps its count.
pub parse-to_string :
    (v : Version)
    → IsVersion v
    → parse_version (to_string v) ≡ ok (record v { count = max 1 v.count })
parse-to_string v valid = read_back v.parts v.count valid
