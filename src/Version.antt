-- ===== src/Version.antt =====
-- include/atp/support/version.hpp: module versions, their text and the parser of it.
pub mod Decimal
pub mod Parse
pub mod Accepted
pub mod Order
use Prim.Native.Nat.{compare, Ordering}
use Decimal.{decimal}
use ani_tools_platform.Prelude.{
  ℕ, zero, suc, ◌+◌, ◌-◌, ◌*◌, ◌/◌, ◌≤◌, ◌≡◌, Bool, true, false, not, ◌&&◌, List, [], ◌∷◌, ◌++◌,
  ltb, leb, ◌==◌, if◌then◌else◌, get_or, set, take, drop, length, All, Text, Result, ok, err, ◌>>=◌,
}

abbrev pub max_parts : ℕ
max_parts = 4

-- The largest `unsigned`, of 32 bits on the platforms that the project builds for.
abbrev pub unsigned_max : ℕ
unsigned_max = 4_294_967_295

-- `parts` is the array of `max_parts` components, `count` how many of them were written.
pub record Version : Type 0 where
  pub parts : List ℕ
  pub count : ℕ

abbrev pub empty_version : Version
empty_version = record { parts = 0 ∷ 0 ∷ 0 ∷ 0 ∷ []; count = 0 }

-- What every version of the program satisfies: four components that fit, zero past the count.
pub record IsVersion (v : Version) : Type 0 where
  pub size : length v.parts ≡ max_parts
  pub bounded : v.count ≤ max_parts
  pub fits : All (λ p. p ≤ unsigned_max) v.parts
  pub padded : All (λ p. p ≡ 0) (drop v.count v.parts)

-- `<=>` of the arrays.
unfoldable pub compare_parts : List ℕ → List ℕ → Ordering
compare_parts [] [] = Ordering.eq
compare_parts [] (y ∷ ys) = Ordering.lt
compare_parts (x ∷ xs) [] = Ordering.gt
compare_parts (x ∷ xs) (y ∷ ys) = elim (compare x y) [
  | Ordering.lt ↦ Ordering.lt
  | Ordering.eq ↦ compare_parts xs ys
  | Ordering.gt ↦ Ordering.gt
]

unfoldable pub compare_version : Version → Version → Ordering
unfolding compare_parts
compare_version v w = compare_parts v.parts w.parts

-- ".2.3", the components after the first.
dotted : List ℕ → Text
dotted [] = []
dotted (p ∷ ps) = b'.' ∷ (decimal p ++ dotted ps)

unfoldable pub to_string : Version → Text
unfolding dotted
to_string v =
    if v.count == 0
    then b'0' ∷ []
    else decimal (get_or v.parts 0 0) ++ dotted (drop 1 (take v.count v.parts))

pub data ParseError : Type 0 where
  part_overflow empty_part too_many_parts invalid_character : ParseError

-- The variables of the loop.
pub record Scan : Type 0 where
  pub result : Version
  pub part : ℕ
  pub has_digit : Bool

abbrev pub scan_start : Scan
scan_start = record { result = empty_version; part = 0; has_digit = false }

abbrev pub is_digit : ℕ → Bool
is_digit c = leb b'0' c && leb c b'9'

-- result.parts[result.count++] = part;
abbrev pub push_part : Version → ℕ → Version
push_part v p = record { parts = set v.parts v.count p; count = v.count + 1 }

add_digit : ℕ → Scan → Result ParseError Scan
add_digit digit s =
    if ltb ((unsigned_max - digit) / 10) s.part
    then err part_overflow
    else ok (record s { part = s.part * 10 + digit; has_digit = true })

end_part : Scan → Result ParseError Version
end_part s =
    if not s.has_digit
    then err empty_part
    else if s.result.count == max_parts
    then err too_many_parts
    else ok (push_part s.result s.part)

parse_char : ℕ → Scan → Result ParseError Scan
unfolding add_digit end_part
parse_char c s =
    if is_digit c
    then add_digit (c - b'0') s
    else if c == b'.'
    then end_part s >>= (λ v. ok (record { result = v; part = 0; has_digit = false }))
    else err invalid_character

parse_loop : Text → Scan → Result ParseError Scan
unfolding parse_char
parse_loop [] s = ok s
parse_loop (c ∷ cs) s = parse_char c s >>= parse_loop cs

unfoldable pub parse_version : Text → Result ParseError Version
unfolding parse_loop end_part
parse_version text = parse_loop text scan_start >>= end_part
