-- ===== src/Runtime/Compose/Paths.antt =====
-- The paths '<child>.<port>' of src/runtime/include/atp/runtime/group.hpp.
use ani_tools_platform.Prelude.{
  ◌==◌, ==_iff, ◌≡◌, ◌≢◌, ◌↔◌, refl, sym, ap, ◌∙◌, Bool, true, false, [], ◌∷◌, ◌++◌, none, some,
  if◌then◌else◌, Text, Result, ok, err, arith, Bool-cases, Option-cases, inl, inr,
}
use ani_tools_platform.Runtime.Compose.{ComposeError, bad_path, cut_at_dot, split_text}

unfoldable pub is_dotless : Text → Bool
is_dotless [] = true
is_dotless (c ∷ cs) = if c == b'.' then false else is_dotless cs

cut_at_dot-joined :
    (front back : Text)
    → is_dotless front ≡ true
    → cut_at_dot (front ++ b'.' ∷ back) ≡ some (front, back)
unfolding cut_at_dot is_dotless
cut_at_dot-joined [] back h = refl
cut_at_dot-joined (c ∷ cs) back h = ground (arith, cut_at_dot-joined cs back)

cut_at_dot-inversion :
    (path front back : Text)
    → cut_at_dot path ≡ some (front, back)
    → (path ≡ front ++ b'.' ∷ back) × (is_dotless front ≡ true)
unfolding cut_at_dot is_dotless
cut_at_dot-inversion [] front back h = cc
cut_at_dot-inversion (c ∷ cs) front back h = elim (Bool-cases (c == b'.')) [
  | inl dot ↦ ground (arith, ==_iff c b'.')
  | inr other ↦ elim (Option-cases (cut_at_dot cs)) [
    | inl nothing ↦ ground arith
    | inr ((f, b), there) ↦ ground (arith, cut_at_dot-inversion cs f b there)
  ]
]

checked : Text → Text → Result ComposeError (Text × Text)
checked [] back = err bad_path
checked (f ∷ fs) [] = err bad_path
checked (f ∷ fs) (b ∷ bs) = ok (f ∷ fs, b ∷ bs)

split_text-checked :
    (path front back : Text)
    → cut_at_dot path ≡ some (front, back)
    → split_text path ≡ checked front back
unfolding split_text checked
split_text-checked path [] back h = ground arith
split_text-checked path (f ∷ fs) [] h = ground arith
split_text-checked path (f ∷ fs) (b ∷ bs) h = ground arith

split_text-none : (path : Text) → cut_at_dot path ≡ none → split_text path ≡ err bad_path
unfolding split_text
split_text-none path h = ground arith

checked-inversion :
    (front back child port : Text)
    → checked front back ≡ ok (child, port)
    → (front ≡ child) × (back ≡ port) × (child ≢ []) × (port ≢ [])
unfolding checked
checked-inversion [] back child port h = cc
checked-inversion (f ∷ fs) [] child port h = cc
checked-inversion (f ∷ fs) (b ∷ bs) child port h = (cc, cc, λ e. cc, λ e. cc)

checked-nonempty :
    (child port : Text) → child ≢ [] → port ≢ [] → checked child port ≡ ok (child, port)
unfolding checked
checked-nonempty [] port c p = absurd (c refl)
checked-nonempty (f ∷ fs) [] c p = absurd (p refl)
checked-nonempty (f ∷ fs) (b ∷ bs) c p = refl

-- A path is taken apart into a child and a port exactly when it is the two joined by a dot, both not
-- empty and the child without a dot: the port's name may have dots.
pub split_text-joins :
    (path child port : Text)
    → (split_text path ≡ ok (child, port))
      ↔ ((path ≡ child ++ b'.' ∷ port) × (is_dotless child ≡ true) × (child ≢ []) × (port ≢ []))
split_text-joins path child port = (
  λ h. elim (Option-cases (cut_at_dot path)) [
    | inl nothing ↦ let e = split_text-none path nothing in cc
    | inr ((front, back), there) ↦
        let (f, b, c, p) =
          checked-inversion front back child port
            (sym (split_text-checked path front back there) ∙ h) in
        let (joined, dotless) = cut_at_dot-inversion path front back there in
        (joined ∙ cc (f, b), ap is_dotless (sym f) ∙ dotless, c, p)
  ],
  λ (e, d, c, p).
      split_text-checked path child port (ap cut_at_dot e ∙ cut_at_dot-joined child port d)
      ∙ checked-nonempty child port c p,
)
