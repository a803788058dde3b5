-- ===== src/Runtime/Compose/Names.antt =====
-- The names of the children and of the aliases of a group of
-- src/runtime/include/atp/runtime/group.hpp.
use ani_tools_platform.Prelude.{
  ℕ, ◌≡◌, refl, sym, ap, List, [], ◌∷◌, ◌++◌, none, some, if◌then◌else◌, Text, text_eq, text_eq_iff,
  ok, >>=-eq-ok, arith, Option-cases, inl, inr, subst,
}
use ani_tools_platform.Runtime.Tree.{Group, Children, group, end, leaf, sub, info, children}
use ani_tools_platform.Runtime.Compose.{
  Module, plugin, composite, Faces, find_child, ensure_unique, push_back, add, find_alias, alias,
  input_of, resolve_input, expose_input,
}

find_child-push_back :
    (name n : Text) (m : Module) (cs : Children)
    → find_child name cs ≡ none
    → find_child n (push_back name m cs) ≡ (if text_eq name n then some m else find_child n cs)
unfolding find_child push_back
find_child-push_back name n (plugin a) end h = refl
find_child-push_back name n (composite g) end h = refl
find_child-push_back name n m (leaf k a cs) h = ground (
  arith,
  find_child-push_back name n m cs,
  text_eq_iff k n,
  text_eq_iff name n,
  text_eq_iff k name,
)
find_child-push_back name n m (sub k d g cs) h = ground (
  arith,
  find_child-push_back name n m cs,
  text_eq_iff k n,
  text_eq_iff name n,
  text_eq_iff k name,
)

ensure_unique-absent :
    (name : Text) (cs : Children) → ensure_unique name cs ≡ ok tt → find_child name cs ≡ none
unfolding ensure_unique
ensure_unique-absent [] cs h = cc
ensure_unique-absent (c ∷ name) cs h = ground arith

-- A child that was added is found under its name, and every other name finds what it found before;
-- the address, the aliases and the connections of the group stay.
pub add-finds :
    (name : Text) (m : Module) (g g' : Group) (n : Text)
    → add name (some m) g ≡ ok g'
    → (find_child n (children g') ≡ (if text_eq name n then some m else find_child n (children g)))
      × (info g' ≡ info g)
unfolding add
add-finds name m (group i cs) g' n h =
    let (t, free, made) =
      >>=-eq-ok (ensure_unique name cs) (λ _. ok (group i (push_back name m cs))) h in
    let same : group i (push_back name m cs) ≡ g' = cc in
    subst
      (λ k.
        (find_child n (children k) ≡ (if text_eq name n then some m else find_child n cs))
        × (info k ≡ i))
      same (find_child-push_back name n m cs (ensure_unique-absent name cs free), refl)

find_alias-append :
    (name n : Text) (p : ℕ) (l : List (Text × ℕ))
    → find_alias name l ≡ none
    → find_alias n (l ++ (name, p) ∷ []) ≡ (if text_eq name n then some p else find_alias n l)
unfolding find_alias
find_alias-append name n p [] h = refl
find_alias-append name n p ((k, q) ∷ l) h =
    ground
      (arith, find_alias-append name n p l, text_eq_iff k n, text_eq_iff name n, text_eq_iff k name)

module _ (faces : Faces) where
  alias-finds :
      (name n : Text) (p : ℕ) (l l' : List (Text × ℕ))
      → alias name p l ≡ ok l'
      → find_alias n l' ≡ (if text_eq name n then some p else find_alias n l)
  alias-finds name n p l l' h = elim (Option-cases (find_alias name l)) [
    | inl free ↦
        let same : l ++ (name, p) ∷ [] ≡ l' = ground arith in
        subst (λ k. find_alias n k ≡ (if text_eq name n then some p else find_alias n l)) same
          (find_alias-append name n p l free)
    | inr (q, held) ↦ ground arith
  ]

  -- An input that was exposed is found under its alias in the group and is the very port that its
  -- path leads to, every other alias finds what it found before, and the children stay.
  pub expose_input-finds :
      (name path : Text) (g g' : Group) (n : Text)
      → expose_input faces name path g ≡ ok g'
      → (p : ℕ) × (resolve_input faces path g ≡ ok p)
        × (input_of faces (composite g') n
            ≡ (if text_eq name n then some p else input_of faces (composite g) n))
        × (children g' ≡ children g)
  unfolding expose_input input_of
  expose_input-finds name path (group i cs) g' n h =
      let (p, there, rest) = >>=-eq-ok (resolve_input faces path (group i cs)) _ h in
      let (l, made, done) = >>=-eq-ok (alias name p i.inputs) _ rest in
      let same : group (record i { inputs = l }) cs ≡ g' = cc in
      (
        p,
        there,
        subst
            (λ k.
              find_alias n (info k).inputs
              ≡ (if text_eq name n then some p else find_alias n i.inputs))
            same (alias-finds name n p i.inputs l made),
        ap children (sym same),
      )
