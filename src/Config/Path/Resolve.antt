-- ===== src/Config/Path/Resolve.antt =====
-- src/runtime/include/atp/runtime/config_path.hpp: the grammar of its comment, and what a path of that
-- grammar leads to.
use ani_tools_platform.Prelude.{
  ℕ, zero, suc, ◌+◌, ◌-◌, ◌*◌, ◌/◌, ◌%◌, ◌≤◌, ◌<◌, ◌≡◌, refl, sym, ap, ◌∙◌, Bool, true, false, not,
  ◌&&◌, ◌||◌, List, [], ◌∷◌, ◌++◌, append_assoc, append-nil, Option, none, some, length,
  length-append, All, Text, Result, ok, ◌>>=◌, arith, ltb, ◌==◌,
}
use ani_tools_platform.Version.{is_digit}
use ani_tools_platform.Version.Decimal.{decimal, decimal-induction}
use ani_tools_platform.Config.Node.{Node, find}
use ani_tools_platform.Config.Path.{
  PathError, Walk, size_max, starts_index, scan_name, step_key, step_index, element, offset,
  read_digits, read_index, indices, segments, next_segment, enter_name, is_empty, at_root,
  walk_path, find_path,
}

-- `segment := name index* | index+`
pub record Segment : Type 0 where
  pub name : Text
  pub indices : List ℕ

unfoldable pub print_indices : List ℕ → Text
print_indices [] = []
print_indices (i ∷ is) = b'[' ∷ (decimal i ++ b']' ∷ print_indices is)

-- `path := segment ('.' segment)*`
unfoldable pub print_path : List Segment → Text
unfolding print_indices
print_path [] = []
print_path (g ∷ []) = g.name ++ print_indices g.indices
print_path (g ∷ h ∷ gs) = g.name ++ (print_indices g.indices ++ b'.' ∷ print_path (h ∷ gs))

abbrev pub is_plain : Text → Bool
is_plain [] = true
is_plain (c ∷ cs) = not (c == b'.' || c == b'[') && is_plain cs

abbrev pub is_none : List ℕ → Bool
is_none [] = true
is_none (i ∷ is) = false

-- A name may be missing only in front of an index of the first segment.
abbrev pub IsNamed : Bool → Segment → Type 0
IsNamed first g = (is_empty g.name && not (first && not (is_none g.indices))) ≡ false

pub record IsSegment (first : Bool) (g : Segment) : Type 0 where
  pub named : IsNamed first g
  pub plain : is_plain g.name ≡ true
  pub fit : All (λ i. i ≤ size_max) g.indices

abbrev pub IsGrammatical : List Segment → Type 0
IsGrammatical [] = Unit {0}
IsGrammatical (g ∷ gs) = IsSegment true g × All (IsSegment false) gs

-- What the segments lead to, one step at a time.
follow_indices : List ℕ → Option Node → Option Node
follow_indices is none = none
follow_indices [] (some j) = some j
follow_indices (i ∷ is) (some j) = follow_indices is (element j i)

follow_name : Text → Option Node → Option Node
follow_name [] o = o
follow_name (c ∷ cs) none = none
follow_name (c ∷ cs) (some j) = find (c ∷ cs) j

pub follow : List Segment → Option Node → Option Node
unfolding follow_indices follow_name
follow [] o = o
follow (g ∷ gs) o = follow gs (follow_indices g.indices (follow_name g.name o))

follow_indices-nil : (o : Option Node) → follow_indices [] o ≡ o
unfolding follow_indices
follow_indices-nil none = refl
follow_indices-nil (some j) = refl

-- What may stand behind a name, and behind a segment.
abbrev is_end : Text → Bool
is_end [] = true
is_end (c ∷ cs) = c == b'.' || c == b'['

scan_name-name :
    (name rest : Text)
    → is_plain name ≡ true
    → is_end rest ≡ true
    → scan_name (name ++ rest) ≡ (name, rest)
unfolding scan_name
scan_name-name [] [] p h = refl
scan_name-name [] (c ∷ rest) p h = ground arith
scan_name-name (c ∷ cs) rest p h = ground (arith, scan_name-name cs rest)

found-step_key :
    (c : ℕ) (cs : Text) (pos : ℕ) (s : Walk)
    → (step_key (c ∷ cs) pos s).found ≡ follow_name (c ∷ cs) s.found
unfolding step_key follow_name
found-step_key c cs pos s = ground arith

found-step_index :
    (i : ℕ) (is : List ℕ) (pos : ℕ) (s : Walk)
    → follow_indices is (step_index i pos s).found ≡ follow_indices (i ∷ is) s.found
unfolding step_index follow_indices
found-step_index i is pos s = ground arith

length-decimal : (n : ℕ) → 0 < length (decimal n)
length-decimal =
    decimal-induction (λ n t. 0 < length t) (λ n h. omega arith)
      (λ n front h more. omega (arith, length-append front ((b'0' + n % 10) ∷ [])))

module _ (path digits : Text) where
  read_digits-digit :
      (index n m : ℕ) (rest : Text)
      → n < 10
      → index * 10 + n ≡ m
      → m ≤ size_max
      → read_digits path digits index ((b'0' + n) ∷ rest) ≡ read_digits path digits m rest
  unfolding read_digits
  read_digits-digit index n m rest h e fits = rw (digit, value, room, e) refl
    where
      digit : is_digit (b'0' + n) ≡ true
      digit = ground arith

      value : b'0' + n - b'0' ≡ n
      value = omega arith

      room : ltb ((size_max - n) / 10) index ≡ false
      room = ground arith

  read_digits-decimal :
      (n : ℕ) (rest : Text)
      → n ≤ size_max
      → read_digits path digits 0 (decimal n ++ rest) ≡ read_digits path digits n rest
  read_digits-decimal n rest fits =
      decimal-induction
        (λ k t.
          (more : Text)
          → k ≤ size_max
          → read_digits path digits 0 (t ++ more) ≡ read_digits path digits k more)
        (λ k h more room. read_digits-digit 0 k k more h (omega arith) room)
        (λ k front h before more room.
          ap (read_digits path digits 0) (append_assoc front ((b'0' + k % 10) ∷ []) more)
          ∙ before ((b'0' + k % 10) ∷ more) (omega arith)
          ∙ read_digits-digit (k / 10) (k % 10) k more (omega arith) (omega arith) room)
        n rest fits

  read_index-decimal :
      (bracket : Text) (n : ℕ) (more : Text)
      → n ≤ size_max
      → digits ≡ decimal n ++ b']' ∷ more
      → read_index path bracket digits ≡ ok (n, more)
  unfolding read_index read_digits
  read_index-decimal bracket n more fits e = rw (read, longer) refl
    where
      read : read_digits path digits 0 digits ≡ ok (n, b']' ∷ more)
      read = ap (read_digits path digits 0) e ∙ read_digits-decimal n (b']' ∷ more) fits

      longer : (length (b']' ∷ more) == length digits) ≡ false
      longer = rw e (ground (arith, length-append (decimal n) (b']' ∷ more), length-decimal n))

module _ (path : Text) where
  -- The indices of a segment are read whole, with any fuel that is longer than their text.
  indices-print_indices :
      (is : List ℕ) (fuel : ℕ) (s : Walk) (rest : Text)
      → length (print_indices is ++ rest) < fuel
      → All (λ i. i ≤ size_max) is
      → starts_index rest ≡ false
      → (t : Walk) × (indices path fuel s (print_indices is ++ rest) ≡ ok (t, rest))
        × (t.found ≡ follow_indices is s.found)
  unfolding indices print_indices
  indices-print_indices [] zero s rest room fit h = elim room [ ]
  indices-print_indices [] (suc fuel) s [] room fit h = (s, refl, sym (follow_indices-nil s.found))
  indices-print_indices [] (suc fuel) s (c ∷ rest) room fit h =
      (s, rw h refl, sym (follow_indices-nil s.found))
  indices-print_indices (i ∷ is) zero s rest room fit h = elim room [ ]
  indices-print_indices (i ∷ is) (suc fuel) s rest room fit h =
      let (t, walked, same) =
        indices-print_indices is fuel (step_index i (offset path further) s) rest
          (ground (
            arith,
            room,
            length-append (decimal i) (b']' ∷ further),
            length-decimal i,
            ap length joined,
          ))
          fit.1 h in
      (
        t,
        rw (read_index-decimal path digits (b'[' ∷ digits) i further fit.0 joined) walked,
        same ∙ found-step_index i is _ s,
      )
    where
      further : Text
      further = print_indices is ++ rest

      digits : Text
      digits = (decimal i ++ b']' ∷ print_indices is) ++ rest

      joined : digits ≡ decimal i ++ b']' ∷ further
      joined = append_assoc (decimal i) (b']' ∷ print_indices is) rest

abbrev is_tail : Text → Bool
is_tail [] = true
is_tail (c ∷ cs) = c == b'.'

is_end-print_indices :
    (is : List ℕ) (tail : Text) → is_tail tail ≡ true → is_end (print_indices is ++ tail) ≡ true
unfolding print_indices
is_end-print_indices [] [] h = refl
is_end-print_indices [] (c ∷ tail) h = ground arith
is_end-print_indices (i ∷ is) tail h = refl

starts_index-tail : (tail : Text) → is_tail tail ≡ true → starts_index tail ≡ false
starts_index-tail [] h = refl
starts_index-tail (c ∷ tail) h = ground arith

starts_index-print_indices :
    (is : List ℕ) (tail : Text)
    → is_tail tail ≡ true
    → starts_index (print_indices is ++ tail) ≡ not (is_none is)
unfolding print_indices
starts_index-print_indices [] tail h = starts_index-tail tail h
starts_index-print_indices (i ∷ is) tail h = refl

named_length :
    (first : Bool) (name : Text) (is : List ℕ) (tail : Text)
    → (is_empty name && not (first && not (is_none is))) ≡ false
    → 0 < length (name ++ (print_indices is ++ tail))
unfolding print_indices
named_length first (c ∷ cs) is tail h = omega arith
named_length first [] (i ∷ is) tail h = omega arith
named_length true [] [] tail h = absurd (cc h)
named_length false [] [] tail h = absurd (cc h)

length-print_path :
    (first : Bool) (g : Segment) (gs : List Segment)
    → IsNamed first g
    → 0 < length (print_path (g ∷ gs))
unfolding print_path
length-print_path first g [] h = rw append-nil at (named_length first g.name g.indices [] h)
length-print_path first g (k ∷ gs) h = named_length first g.name g.indices _ h

module _ (path : Text) where
  found-enter_name :
      (name after : Text) (s : Walk)
      → (enter_name path name after s).found ≡ follow_name name s.found
  unfolding follow_name
  found-enter_name [] after s = refl
  found-enter_name (c ∷ cs) after s = found-step_key c cs _ s

  segments-segment :
      (g : Segment) (fuel : ℕ) (first : Bool) (s : Walk) (tail : Text)
      → IsSegment first g
      → is_tail tail ≡ true
      → (t : Walk) × (segments path (suc fuel) first s (g.name ++ (print_indices g.indices ++ tail))
          ≡ next_segment path (segments path fuel false) t tail)
        × (t.found ≡ follow_indices g.indices (follow_name g.name s.found))
  unfolding segments
  segments-segment g fuel first s tail valid h =
      let (t, walked, same) =
        indices-print_indices path g.indices (suc (length after)) (enter_name path g.name after s)
          tail (omega arith) valid.fit (starts_index-tail tail h) in
      (
        t,
        rw (scanned, starts_index-print_indices g.indices tail h, valid.named, walked) refl,
        same ∙ ap (follow_indices g.indices) (found-enter_name g.name after s),
      )
    where
      after : Text
      after = print_indices g.indices ++ tail

      scanned : scan_name (g.name ++ after) ≡ (g.name, after)
      scanned = scan_name-name g.name after valid.plain (is_end-print_indices g.indices tail h)

  next_segment-dot :
      (further : Walk → Text → Result PathError Walk) (t : Walk) (rest : Text)
      → 0 < length rest
      → next_segment path further t (b'.' ∷ rest) ≡ further t rest
  next_segment-dot further t [] h = absurd (omega arith)
  next_segment-dot further t (d ∷ ds) h = refl

  segments-print_path :
      (g : Segment) (gs : List Segment) (fuel : ℕ) (first : Bool) (s : Walk)
      → length (print_path (g ∷ gs)) < fuel
      → IsSegment first g
      → All (IsSegment false) gs
      → (t : Walk) × (segments path fuel first s (print_path (g ∷ gs)) ≡ ok t)
        × (t.found ≡ follow (g ∷ gs) s.found)
  unfolding print_path follow
  segments-print_path g gs zero first s room valid all = elim room [ ]
  segments-print_path g [] (suc fuel) first s room valid all =
      let (t, walked, same) = segments-segment g fuel first s [] valid refl in
      (t, rw append-nil at walked, same)
  segments-print_path g (k ∷ gs) (suc fuel) first s room valid all =
      let (t, walked, same) =
        segments-segment g fuel first s (b'.' ∷ print_path (k ∷ gs)) valid refl in
      let (u, further, led) =
        segments-print_path k gs fuel false t
          (omega (
            arith,
            room,
            length-append g.name (print_indices g.indices ++ b'.' ∷ print_path (k ∷ gs)),
            length-append (print_indices g.indices) (b'.' ∷ print_path (k ∷ gs)),
          ))
          all.0 all.1 in
      (
        u,
        walked
            ∙ next_segment-dot (segments path fuel false) t (print_path (k ∷ gs))
                (length-print_path false k gs all.0.named)
            ∙ further,
        led ∙ ap (follow (k ∷ gs)) same,
      )

started_path :
    (root : Node) (text : Text)
    → 0 < length text
    → find_path root text
      ≡ (segments text (suc (length text)) true (at_root root) text >>= λ s. ok s.found)
unfolding find_path walk_path
started_path root [] h = absurd (omega arith)
started_path root (c ∷ cs) h = refl

-- A path that follows the grammar leads where its segments lead, one by one: a name to the child
-- under that key, an index to the element of an array, and to nothing from there on if there is none.
pub find_path-print_path :
    (root : Node) (g : Segment) (gs : List Segment)
    → IsGrammatical (g ∷ gs)
    → find_path root (print_path (g ∷ gs)) ≡ ok (follow (g ∷ gs) (some root))
unfolding find_path walk_path
find_path-print_path root g gs valid =
    let (t, walked, same) =
      segments-print_path path g gs (suc (length path)) true (at_root root) (omega arith) valid.0
        valid.1 in
    started ∙ ap (λ w. w >>= λ s. ok s.found) walked ∙ ap ok same
  where
    path : Text
    path = print_path (g ∷ gs)

    started :
        find_path root path
        ≡ (segments path (suc (length path)) true (at_root root) path >>= λ s. ok s.found)
    started = started_path root path (length-print_path true g gs valid.0.named)
