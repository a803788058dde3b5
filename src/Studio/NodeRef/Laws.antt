-- ===== src/Studio/NodeRef/Laws.antt =====
-- src/studio/include/atp/studio/node_ref.hpp: `parse` against `full`, and the paths that `contains` takes.
use ani_tools_platform.Prelude.{
  ◌≡◌, ◌↔◌, ◌⊎◌, inl, inr, refl, ap, true, false, [], ◌∷◌, ◌++◌, Option, none, some, Text, text_eq,
  text_eq_iff, ◌==◌, ==_iff, arith, Bool-cases,
}
use ani_tools_platform.Config.Validate.Values as Values
use ani_tools_platform.Studio.NodeRef.{
  NodeRef, is_empty, cut_at_last_dot, parse, full, strip_prefix, goes_on, contains,
}

pub dotless-uncut : (name : Text) → Values.contains b'.' name ≡ false → cut_at_last_dot name ≡ none
unfolding cut_at_last_dot Values.contains
dotless-uncut [] h = refl
dotless-uncut (c ∷ cs) h = ground (arith, dotless-uncut cs)

pub cut-append :
    (group name : Text)
    → Values.contains b'.' name ≡ false
    → cut_at_last_dot (group ++ b'.' ∷ name) ≡ some (group, name)
unfolding cut_at_last_dot
cut-append [] name h = rw (dotless-uncut name h) refl
cut-append (c ∷ cs) name h = rw (cut-append cs name h) refl

-- The address of a node is read back from its full path, when its name is not empty and has no dot.
pub parse-full :
    (r : NodeRef)
    → is_empty r.name ≡ false
    → Values.contains b'.' r.name ≡ false
    → parse (full r) ≡ r
unfolding parse full
parse-full r named dotless = go r.group r.name named dotless
  where
    go :
        (group name : Text)
        → is_empty name ≡ false
        → Values.contains b'.' name ≡ false
        → parse (full (record { group = group; name = name }))
          ≡ record { group = group; name = name }
    go group [] named dotless = absurd cc
    go [] (c ∷ cs) named dotless = rw (dotless-uncut (c ∷ cs) dotless) refl
    go (g ∷ gs) (c ∷ cs) named dotless = rw (cut-append (g ∷ gs) (c ∷ cs) dotless) refl

strip_prefix-append : (prefix rest : Text) → strip_prefix prefix (prefix ++ rest) ≡ some rest
unfolding strip_prefix
strip_prefix-append [] rest = refl
strip_prefix-append (c ∷ cs) rest = ground (arith, strip_prefix-append cs rest)

strip_prefix-some :
    (prefix text rest : Text) → strip_prefix prefix text ≡ some rest → text ≡ prefix ++ rest
unfolding strip_prefix
strip_prefix-some [] text rest h = cc
strip_prefix-some (c ∷ cs) [] rest h = absurd cc
strip_prefix-some (c ∷ cs) (d ∷ ds) rest h = elim (Bool-cases (c == d)) [
  | inl same ↦
      let tail = strip_prefix-some cs ds rest (rw same at h) in
      rw ((==_iff c d).0 same) (ap (λ t. d ∷ t) tail)
  | inr other ↦ absurd (let wrong = rw other at h in cc)
]

goes_on-some : (o : Option Text) → goes_on o ≡ true → (rest : Text) × (o ≡ some (b'.' ∷ rest))
goes_on-some none h = absurd cc
goes_on-some (some []) h = absurd cc
goes_on-some (some (c ∷ cs)) h = (cs, rw ((==_iff c b'.').0 h) refl)

-- A reference that is not the root contains exactly its own path and the paths that go on behind it with
-- a dot.
pub contains_iff :
    (r : NodeRef) (path : Text)
    → is_empty (full r) ≡ false
    → (contains r path ≡ true)
      ↔ ((path ≡ full r) ⊎ ((rest : Text) × (path ≡ full r ++ b'.' ∷ rest)))
unfolding contains
contains_iff r path named = elim (Bool-cases (text_eq path (full r))) [
  | inl same ↦ rw (named, same) ((λ e. inl ((text_eq_iff path (full r)).0 same)), (λ e. refl))
  | inr other ↦ rw (named, other) (forth, back other)
]
  where
    forth :
        goes_on (strip_prefix (full r) path) ≡ true
        → (path ≡ full r) ⊎ ((rest : Text) × (path ≡ full r ++ b'.' ∷ rest))
    forth h =
        let (rest, there) = goes_on-some _ h in
        inr (rest, strip_prefix-some (full r) path (b'.' ∷ rest) there)

    back :
        text_eq path (full r) ≡ false
        → (path ≡ full r) ⊎ ((rest : Text) × (path ≡ full r ++ b'.' ∷ rest))
        → goes_on (strip_prefix (full r) path) ≡ true
    back other (inl same) = absurd (let equal = (text_eq_iff path (full r)).1 same in cc)
    back other (inr (rest, there)) = rw (there, strip_prefix-append (full r) (b'.' ∷ rest)) refl
