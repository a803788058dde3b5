-- ===== src/Studio/Project/Valid/Keys.antt =====
-- The entries that src/studio/include/atp/studio/project.hpp and expose_cascade.hpp erase, write and
-- rename, and the keys that are left.
use mathlib.Core.List.{Sublistᴰ}
use mathlib.Core.List.Sublistᴰ
use ani_tools_platform.Prelude.{
  ◌≡◌, refl, sym, ap, ◌∙◌, Bool, true, false, List, [], ◌∷◌, none, Text, text_eq, text_eq_iff,
  if◌then◌else◌, arith, Bool-cases, inl, inr, subst,
}
use ani_tools_platform.Prelude.Assoc.{lookup, put, erase, lookup-put, name_eq}
use ani_tools_platform.Config.Node.{Node, erase_first}
use ani_tools_platform.Config.Model.Decode.Keys.{DistinctKeys}
use ani_tools_platform.Studio.Cascade.{keep, has_alias, rename_target}
use ani_tools_platform.Studio.Project.Children.{erase_under}
use ani_tools_platform.Studio.Project.Ports.{rename_key}
use ani_tools_platform.Studio.Project.Threads.{erase_assigned}

module _ {ℓ} {V : Type ℓ} where
  erased-or-kept :
      (b : Bool) (e : Text × V) (l m : List (Text × V))
      → Sublistᴰ l m
      → Sublistᴰ (if b then l else e ∷ l) (e ∷ m)
  erased-or-kept true e l m part = Sublistᴰ.cons part
  erased-or-kept false e l m part = Sublistᴰ.cons-cons refl part

  lookup-Sublist :
      (k : Text) (l m : List (Text × V)) → Sublistᴰ l m → lookup k m ≡ none → lookup k l ≡ none
  unfolding lookup
  lookup-Sublist k [] [] Sublistᴰ.slnil h = refl
  lookup-Sublist k (e ∷ l) [] part h = elim part [ ]
  lookup-Sublist k l ((j, v) ∷ m) (Sublistᴰ.cons part) h = ground (arith, lookup-Sublist k l m part)
  lookup-Sublist k ((i, w) ∷ l) ((j, v) ∷ m) (Sublistᴰ.cons-cons same part) h =
      let keys = ap (λ e. e.0) same in rw keys (ground (arith, lookup-Sublist k l m part))

  pub Sublist-DistinctKeys :
      (l m : List (Text × V)) → Sublistᴰ l m → DistinctKeys m → DistinctKeys l
  Sublist-DistinctKeys [] [] Sublistᴰ.slnil h = tt
  Sublist-DistinctKeys (e ∷ l) [] part h = elim part [ ]
  Sublist-DistinctKeys l (e ∷ m) (Sublistᴰ.cons part) h = Sublist-DistinctKeys l m part h.1
  Sublist-DistinctKeys ((i, w) ∷ l) ((j, v) ∷ m) (Sublistᴰ.cons-cons same part) h = (
    lookup-Sublist i l m part (subst (λ k. lookup k m ≡ none) (sym (ap (λ e. e.0) same)) h.0),
    Sublist-DistinctKeys l m part h.1,
  )

  pub put-DistinctKeys :
      (k : Text) (v : V) (m : List (Text × V)) → DistinctKeys m → DistinctKeys (put k v m)
  unfolding put lookup
  put-DistinctKeys k v [] h = (refl, tt)
  put-DistinctKeys k v ((i, w) ∷ m) h = elim (Bool-cases (text_eq i k)) [
    | inl same ↦ rw same (subst (λ j. lookup j m ≡ none) ((text_eq_iff i k).0 same) h.0, h.1)
    | inr other ↦
        rw other (lookup-put k i v m ∙ rw (flipped i k other) h.0, put-DistinctKeys k v m h.1)
  ]
    where
      flipped : (i k : Text) → text_eq i k ≡ false → text_eq k i ≡ false
      flipped i k other = ground (arith, text_eq_iff i k, text_eq_iff k i)

  pub erase-Sublist : (k : Text) (m : List (Text × V)) → Sublistᴰ (erase k m) m
  unfolding erase
  erase-Sublist k [] = Sublistᴰ.slnil
  erase-Sublist k ((i, w) ∷ m) = erased-or-kept _ _ _ _ (erase-Sublist k m)

  pub erase_under-Sublist : (node : Text) (m : List (Text × V)) → Sublistᴰ (erase_under node m) m
  unfolding erase_under
  erase_under-Sublist node [] = Sublistᴰ.slnil
  erase_under-Sublist node ((i, w) ∷ m) = erased-or-kept _ _ _ _ (erase_under-Sublist node m)

pub keep-Sublist : (gone : Text → Bool) (m : List (Text × Text)) → Sublistᴰ (keep gone m) m
unfolding keep
keep-Sublist gone [] = Sublistᴰ.slnil
keep-Sublist gone ((alias, path) ∷ m) = erased-or-kept _ _ _ _ (keep-Sublist gone m)

pub erase_assigned-Sublist :
    (thread : Text) (m : List (Text × Text)) → Sublistᴰ (erase_assigned thread m) m
unfolding erase_assigned
erase_assigned-Sublist thread [] = Sublistᴰ.slnil
erase_assigned-Sublist thread ((i, w) ∷ m) =
    erased-or-kept _ _ _ _ (erase_assigned-Sublist thread m)

pub erase_first-Sublist : (k : Text) (m : List (Text × Node)) → Sublistᴰ (erase_first k m) m
unfolding erase_first
erase_first-Sublist k [] = Sublistᴰ.slnil
erase_first-Sublist k ((i, v) ∷ m) = elim (Bool-cases (text_eq i k)) [
  | inl same ↦ rw same (Sublistᴰ.cons (Sublistᴰ.refl m))
  | inr other ↦ rw other (Sublistᴰ.cons-cons refl (erase_first-Sublist k m))
]

rename_target-lookup :
    (was now k : Text) (m : List (Text × Text))
    → lookup k m ≡ none
    → lookup k (rename_target was now m) ≡ none
unfolding rename_target lookup
rename_target-lookup was now k [] h = refl
rename_target-lookup was now k ((a, path) ∷ m) h = ground (arith, rename_target-lookup was now k m)

pub rename_target-DistinctKeys :
    (was now : Text) (m : List (Text × Text))
    → DistinctKeys m
    → DistinctKeys (rename_target was now m)
unfolding rename_target
rename_target-DistinctKeys was now [] h = tt
rename_target-DistinctKeys was now ((a, path) ∷ m) h =
    (rename_target-lookup was now a m h.0, rename_target-DistinctKeys was now m h.1)

pub has_alias-lookup :
    (k : Text) (m : List (Text × Text)) → has_alias k m ≡ false → lookup k m ≡ none
unfolding has_alias lookup
has_alias-lookup k [] h = refl
has_alias-lookup k ((a, path) ∷ m) h = ground (arith, has_alias-lookup k m)

rename_key-lookup :
    (alias now k : Text) (m : List (Text × Text))
    → text_eq now k ≡ false
    → lookup k m ≡ none
    → lookup k (rename_key alias now m) ≡ none
unfolding rename_key lookup
rename_key-lookup alias now k [] new h = refl
rename_key-lookup alias now k ((a, path) ∷ m) new h =
    ground (arith, rename_key-lookup alias now k m new)

pub rename_key-DistinctKeys :
    (alias now : Text) (m : List (Text × Text))
    → has_alias now m ≡ false
    → DistinctKeys m
    → DistinctKeys (rename_key alias now m)
unfolding rename_key has_alias
rename_key-DistinctKeys alias now [] free h = tt
rename_key-DistinctKeys alias now ((a, path) ∷ m) free h = elim (Bool-cases (text_eq a now)) [
  | inl taken ↦ absurd (let wrong = rw taken at free in cc)
  | inr new ↦ elim (Bool-cases (text_eq a alias)) [
    | inl same ↦ rw same (has_alias-lookup now m (rw new at free), h.1)
    | inr other ↦ rw other (
      rename_key-lookup alias now a m (flip a now new) h.0,
      rename_key-DistinctKeys alias now m (rw new at free) h.1,
    )
  ]
]
  where
    flip : (i k : Text) → text_eq i k ≡ false → text_eq k i ≡ false
    flip i k other = ground (arith, text_eq_iff i k, text_eq_iff k i)
