-- ===== src/Tests/Versions.antt =====
-- Runs of include/atp/support/version.hpp.
use Prim.Native.Nat.{Ordering}
use ani_tools_platform.Prelude.{◌≡◌, ◌<◌, refl, [], ◌∷◌, codes, ok, err, max, arith}
use ani_tools_platform.Version.{
  Version, IsVersion, compare_version, to_string, parse_version, part_overflow, empty_part,
  too_many_parts, invalid_character,
}
use ani_tools_platform.Version.Decimal.{decimal}
use ani_tools_platform.Version.Parse.{parse-to_string}
use ani_tools_platform.Version.Accepted.{parse_version-IsVersion}

abbrev one_two_three : Version
one_two_three = record { parts = 1 ∷ 2 ∷ 3 ∷ 0 ∷ []; count = 3 }

abbrev one_two : Version
one_two = record { parts = 1 ∷ 2 ∷ 0 ∷ 0 ∷ []; count = 2 }

abbrev two : Version
two = record { parts = 2 ∷ 0 ∷ 0 ∷ 0 ∷ []; count = 1 }

one_two_three-IsVersion : IsVersion one_two_three
one_two_three-IsVersion = record {
  size = refl;
  bounded = omega arith;
  fits = (omega arith, (omega arith, (omega arith, (omega arith, tt))));
  padded = (refl, tt);
}

prints : to_string one_two_three ≡ codes "1.2.3"
unfolding to_string decimal
prints = refl

reads : parse_version (codes "1.2.3") ≡ ok one_two_three
unfolding parse_version
reads = refl

overflows : parse_version (codes "4294967296") ≡ err part_overflow
unfolding parse_version
overflows = refl

too_long : parse_version (codes "1.2.3.4.5") ≡ err too_many_parts
unfolding parse_version
too_long = refl

trailing_dot : parse_version (codes "1.") ≡ err empty_part
unfolding parse_version
trailing_dot = refl

letters : parse_version (codes "1.x") ≡ err invalid_character
unfolding parse_version
letters = refl

parse-to_string_example :
    parse_version (to_string one_two_three)
    ≡ ok (record one_two_three { count = max 1 one_two_three.count })
parse-to_string_example = parse-to_string one_two_three one_two_three-IsVersion

parse_version-IsVersion_example : IsVersion one_two_three × (0 < one_two_three.count)
parse_version-IsVersion_example = parse_version-IsVersion (codes "1.2.3") reads

before : compare_version one_two one_two_three ≡ Ordering.lt
unfolding compare_version
before = refl

later : compare_version one_two_three two ≡ Ordering.lt
unfolding compare_version
later = refl
