-- ===== src/Config/Path/Grammar.antt =====
-- What src/runtime/include/atp/runtime/config_path.hpp says of the text of a path.
use ani_tools_platform.Prelude.{
  ℕ, zero, suc, ◌≡◌, refl, Bool, true, false, [], ◌∷◌, Option, length, Text, Result, ok, err, ◌>>=◌,
  arith, Bool-cases, inl, inr, ◌&&◌, ◌==◌, not, subst, ◌≤◌, ◌<◌, ltb, ◌≢◌, ◌-◌, ◌*◌, ◌/◌, ◌+◌,
  if◌then◌else◌,
}
use ani_tools_platform.Version.{is_digit}
use ani_tools_platform.Config.Node.{Node}
use ani_tools_platform.Config.Path.{
  PathError, PathFault, Walk, starts_index, scan_name, step_index, offset, bad, read_index,
  read_digits, close_index, no_number, size_max, indices, segments, next_segment, at_root,
  walk_path, find_path, enter_name, is_empty,
}

rest_of : Result PathError (Walk × Text) → Result PathError Text
rest_of (err e) = err e
rest_of (ok read) = ok read.1

outcome {ℓ} : {A : Type ℓ} → Result PathError A → Result PathError (Unit {0})
outcome (err e) = err e
outcome (ok a) = ok tt

>>=-outcome :
    (a b : Result PathError (Walk × Text)) (next : Walk → Text → Result PathError Walk)
    → rest_of a ≡ rest_of b
    → ((s t : Walk) (rest : Text) → outcome (next s rest) ≡ outcome (next t rest))
    → outcome (a >>= λ read. next read.0 read.1) ≡ outcome (b >>= λ read. next read.0 read.1)
unfolding rest_of outcome
>>=-outcome (err e) (err f) next h same = cc
>>=-outcome (err e) (ok (t, r)) next h same = absurd (cc h)
>>=-outcome (ok (s, r)) (err e) next h same = absurd (cc h)
>>=-outcome (ok (s, r)) (ok (t, q)) next h same =
    let e : r ≡ q = cc h in subst (λ k. outcome (next s r) ≡ outcome (next t k)) e (same s t r)

module _ (path : Text) where
  indices-same :
      (fuel : ℕ) (s t : Walk) (rest : Text)
      → rest_of (indices path fuel s rest) ≡ rest_of (indices path fuel t rest)
  unfolding indices rest_of
  indices-same zero s t rest = refl
  indices-same (suc fuel) s t [] = refl
  indices-same (suc fuel) s t (c ∷ cs) = elim (Bool-cases (c == b'[')) [
    | inl bracket ↦
        rw bracket (on_index (λ i rest. indices-same fuel _ _ rest) (read_index path (c ∷ cs) cs))
    | inr other ↦ rw other refl
  ]
    where
      on_index :
          ((i : ℕ) (rest : Text)
            → rest_of (indices path fuel (step_index i (offset path rest) s) rest)
              ≡ rest_of (indices path fuel (step_index i (offset path rest) t) rest))
          → (read : Result PathError (ℕ × Text))
          → rest_of (read >>= λ r. indices path fuel (step_index r.0 (offset path r.1) s) r.1)
            ≡ rest_of (read >>= λ r. indices path fuel (step_index r.0 (offset path r.1) t) r.1)
      on_index same (err e) = refl
      on_index same (ok (i, rest)) = same i rest

  next_segment-same :
      (further : Walk → Text → Result PathError Walk)
      → ((s t : Walk) (rest : Text) → outcome (further s rest) ≡ outcome (further t rest))
      → (s t : Walk) (rest : Text)
      → outcome (next_segment path further s rest) ≡ outcome (next_segment path further t rest)
  unfolding outcome
  next_segment-same further same s t [] = refl
  next_segment-same further same s t (c ∷ []) = ground arith
  next_segment-same further same s t (c ∷ d ∷ ds) = ground (arith, same s t (d ∷ ds))

  segments-same :
      (fuel : ℕ) (first : Bool) (s t : Walk) (rest : Text)
      → outcome (segments path fuel first s rest) ≡ outcome (segments path fuel first t rest)
  unfolding segments outcome
  segments-same zero first s t rest = refl
  segments-same (suc fuel) first s t rest =
      elim (Bool-cases (is_empty name && not (first && starts_index after))) [
        | inl nameless ↦ rw nameless refl
        | inr named ↦ rw named (
            >>=-outcome _ _ (next_segment path (segments path fuel false))
              (indices-same (suc (length after)) _ _ after)
              (next_segment-same _ (segments-same fuel false)))
      ]
    where
      name : Text
      name = (scan_name rest).0

      after : Text
      after = (scan_name rest).1

abbrev found_in : Result PathError Walk → Result PathError (Option Node)
found_in walked = walked >>= λ s. ok s.found

malformed_found :
    (a b : Result PathError Walk) (e : PathError)
    → outcome a ≡ outcome b
    → found_in a ≡ err e
    → found_in b ≡ err e
unfolding outcome
malformed_found (err e) (err f) g h k = cc
malformed_found (err e) (ok b) g h k = absurd (cc h)
malformed_found (ok a) b g h k = absurd (cc k)

-- Whether a path is malformed, how and where, is decided by its text alone: the same error is
-- thrown for every document.
pub find_path-malformed :
    (root other : Node) (path : Text) (e : PathError)
    → find_path root path ≡ err e
    → find_path other path ≡ err e
unfolding find_path walk_path
find_path-malformed root other [] e h = cc
find_path-malformed root other (c ∷ cs) e h =
    malformed_found (segments path fuel true (at_root root) path)
      (segments path fuel true (at_root other) path) e
      (segments-same path fuel true (at_root root) (at_root other) path) h
  where
    path : Text
    path = c ∷ cs

    fuel : ℕ
    fuel = suc (length path)

-- A call that does not run out of fuel and leaves at most `n` characters to read.
Reads : {A : Type 0} → ℕ → Result PathError (A × Text) → Type 0
Reads n (err e) = e.fault ≢ PathFault.stuck
Reads n (ok read) = length read.1 ≤ n

Reads-mono :
    {A : Type 0} (m n : ℕ) (a : Result PathError (A × Text)) → m ≤ n → Reads m a → Reads n a
unfolding Reads
Reads-mono m n (err e) h r = r
Reads-mono m n (ok read) h r = omega arith

module _ (path : Text) where
  read_digits-Reads :
      (digits : Text) (index : ℕ) (cs : Text) → Reads (length cs) (read_digits path digits index cs)
  unfolding read_digits Reads
  read_digits-Reads digits index [] = omega arith
  read_digits-Reads digits index (c ∷ cs) = elim (Bool-cases (is_digit c)) [
    | inl digit ↦ elim (Bool-cases (ltb ((size_max - (c - b'0')) / 10) index)) [
      | inl large ↦ rw (digit, large) (λ e. cc)
      | inr fits ↦
          rw (digit, fits)
            (Reads-mono (length cs) _ _ (omega arith)
              (read_digits-Reads digits (index * 10 + (c - b'0')) cs))
    ]
    | inr other ↦ rw other (omega arith)
  ]

  close_index-Reads :
      (n : ℕ) (bracket : Text) (read : ℕ × Text)
      → length read.1 ≤ n
      → Reads n (close_index path bracket read)
  unfolding Reads
  close_index-Reads n bracket (i, []) h = λ e. cc
  close_index-Reads n bracket (i, c ∷ cs) h = elim (Bool-cases (c == b']')) [
    | inl closed ↦ rw closed (omega arith)
    | inr other ↦ rw other (λ e. cc)
  ]

  read_index-Reads :
      (bracket digits : Text) → Reads (length digits) (read_index path bracket digits)
  unfolding read_index Reads
  read_index-Reads bracket digits =
      go (read_digits path digits 0 digits) (read_digits-Reads digits 0 digits)
    where
      go :
          (read : Result PathError (ℕ × Text))
          → Reads (length digits) read
          → Reads (length digits) (
              read >>= λ r.
              if length r.1 == length digits
              then bad path no_number bracket
              else close_index path bracket r)
      go (err e) h = h
      go (ok r) h = elim (Bool-cases (length r.1 == length digits)) [
        | inl none_read ↦ rw none_read (λ e. cc)
        | inr some_read ↦ rw some_read (close_index-Reads (length digits) bracket r h)
      ]

  indices-Reads :
      (fuel : ℕ) (s : Walk) (rest : Text)
      → length rest < fuel
      → Reads (length rest) (indices path fuel s rest)
  unfolding indices Reads
  indices-Reads zero s rest h = elim h [ ]
  indices-Reads (suc fuel) s [] h = omega arith
  indices-Reads (suc fuel) s (c ∷ cs) h = elim (Bool-cases (c == b'[')) [
    | inl bracket ↦ rw bracket (
        go (λ t rest room. indices-Reads fuel t rest room) (read_index path (c ∷ cs) cs)
          (read_index-Reads (c ∷ cs) cs))
    | inr other ↦ rw other (omega arith)
  ]
    where
      go :
          ((t : Walk) (rest : Text)
            → length rest < fuel
            → Reads (length rest) (indices path fuel t rest))
          → (read : Result PathError (ℕ × Text)) → Reads (length cs) read
          → Reads
              (length (c ∷ cs))
              (read >>= λ r. indices path fuel (step_index r.0 (offset path r.1) s) r.1)
      go further (err e) r = r
      go further (ok (i, rest)) r =
          Reads-mono (length rest) _ _ (omega arith) (further _ rest (omega arith))

length-scan_name : (rest : Text) → length (scan_name rest).1 ≤ length rest
unfolding scan_name
length-scan_name [] = omega arith
length-scan_name (c ∷ cs) = ground (arith, length-scan_name cs)

IsUnstuck : {A : Type 0} → Result PathError A → Type 0
IsUnstuck (err e) = e.fault ≢ PathFault.stuck
IsUnstuck (ok a) = Unit {0}

module _ (path : Text) where
  segments-IsUnstuck :
      (fuel : ℕ) (first : Bool) (s : Walk) (rest : Text)
      → length rest < fuel
      → IsUnstuck (segments path fuel first s rest)
  unfolding segments IsUnstuck Reads
  segments-IsUnstuck zero first s rest h = elim h [ ]
  segments-IsUnstuck (suc fuel) first s rest h =
      elim (Bool-cases (is_empty name && not (first && starts_index after))) [
        | inl nameless ↦ rw nameless (λ e. cc)
        | inr named ↦ rw named (
            go (λ t more room. segments-IsUnstuck fuel false t more room)
              (indices path (suc (length after)) (enter_name path name after s) after)
              (indices-Reads path (suc (length after)) _ after (omega arith)))
      ]
    where
      name : Text
      name = (scan_name rest).0

      after : Text
      after = (scan_name rest).1

      go :
          ((t : Walk) (more : Text)
            → length more < fuel
            → IsUnstuck (segments path fuel false t more))
          → (read : Result PathError (Walk × Text)) → Reads (length after) read
          → IsUnstuck (read >>= λ r. next_segment path (segments path fuel false) r.0 r.1)
      go further (err e) r = r
      go further (ok (t, [])) r = tt
      go further (ok (t, c ∷ [])) r = elim (Bool-cases (c == b'.')) [
        | inl dot ↦ rw dot (λ e. cc)
        | inr other ↦ rw other (λ e. cc)
      ]
      go further (ok (t, c ∷ d ∷ ds)) r = elim (Bool-cases (c == b'.')) [
        | inl dot ↦ rw dot (further t (d ∷ ds) (omega (arith, length-scan_name rest)))
        | inr other ↦ rw other (λ e. cc)
      ]

unstuck_found :
    (a : Result PathError Walk) (e : PathError)
    → IsUnstuck a
    → found_in a ≡ err e
    → e.fault ≢ PathFault.stuck
unfolding IsUnstuck
unstuck_found (err f) e u h = λ same. u (cc (h, same))
unstuck_found (ok a) e u h = absurd (cc h)

-- Every lookup ends: the fuel of its loops is enough, for every document and every path.
pub find_path-ends :
    (root : Node) (path : Text) (e : PathError)
    → find_path root path ≡ err e
    → e.fault ≢ PathFault.stuck
unfolding find_path walk_path IsUnstuck
find_path-ends root [] e h = unstuck_found (err _) e (λ same. cc) h
find_path-ends root (c ∷ cs) e h =
    unstuck_found _ e
      (segments-IsUnstuck (c ∷ cs) (suc (length (c ∷ cs))) true (at_root root) (c ∷ cs)
        (omega arith))
      h
