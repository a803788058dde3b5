-- ===== src/Config/Model/Decode/Keys.antt =====
-- The entries that `encode` of src/runtime/include/atp/runtime/config_model.hpp writes, as `find` sees
-- them.
use ani_tools_platform.Prelude.{
  ◌≡◌, refl, sym, ap, ◌∙◌, List, [], ◌∷◌, ◌++◌, map, append_assoc, append-nil, Option, none, some,
  Text, text_eq, text_eq_iff, text_eq_refl, ◌≢◌, Bool-cases, inl, inr, ok, if◌then◌else◌, arith,
  subst,
}
use ani_tools_platform.Prelude.Assoc.{lookup, put, lookup-put, name_eq}
use ani_tools_platform.Config.Node.{
  Node, array_of, object_of, find, to_items, to_fields, entries, elements,
}
use ani_tools_platform.Config.Node.Laws.{to_entries-to_fields, to_list-to_items}
use ani_tools_platform.Config.Model.Encode.{
  put_some, write, unless_empty, map_object, text_entry, directed,
}
use ani_tools_platform.Config.Model.Decode.{decode_texts, entries_of, elements_of}

-- No key stands twice.
abbrev pub DistinctKeys {ℓ} : {V : Type ℓ} → List (Text × V) → Type ℓ
DistinctKeys [] = Unit
DistinctKeys ((k, v) ∷ m) = (lookup k m ≡ none) × DistinctKeys m

abbrev pub or_else {ℓ} : {A : Type ℓ} → Option A → Option A → Option A
or_else none o = o
or_else (some a) o = some a

pub lookup-put_some :
    (k j : Text) (v : Option Node) (es : List (Text × Node))
    → lookup j (put_some k v es) ≡ (if text_eq k j then or_else v (lookup j es) else lookup j es)
lookup-put_some k j none es = ground arith
lookup-put_some k j (some v) es = lookup-put k j v es

module _ {ℓ} {V : Type ℓ} where
  put_new :
      (k : Text) (v : V) (m : List (Text × V)) → lookup k m ≡ none → put k v m ≡ m ++ (k, v) ∷ []
  unfolding lookup put
  put_new k v [] h = refl
  put_new k v ((i, w) ∷ m) h = ground (arith, put_new k v m)

  lookup_there : (k : Text) (v : V) (m l : List (Text × V)) → lookup k (m ++ (k, v) ∷ l) ≢ none
  unfolding lookup
  lookup_there k v [] l = rw (text_eq_refl k) (λ e. cc)
  lookup_there k v ((i, w) ∷ m) l = ground (arith, lookup_there k v m l)

  lookup_front :
      (k : Text) (v : V) (m l : List (Text × V))
      → DistinctKeys (m ++ (k, v) ∷ l)
      → lookup k m ≡ none
  unfolding lookup
  lookup_front k v [] l d = refl
  lookup_front k v ((i, w) ∷ m) l d = elim (Bool-cases (text_eq i k)) [
    | inl same ↦ absurd (
        lookup_there k v m l
          (subst (λ j. lookup j (m ++ (k, v) ∷ l) ≡ none) ((text_eq_iff i k).0 same) d.0))
    | inr other ↦ rw other (lookup_front k v m l d.1)
  ]

write-append : (l m : List (Text × Node)) → DistinctKeys (m ++ l) → write l m ≡ m ++ l
unfolding write
write-append [] m d = sym (append-nil m)
write-append ((k, v) ∷ l) m d =
    ap (write l) (put_new k v m (lookup_front k v m l d))
    ∙ write-append l (m ++ (k, v) ∷ [])
        (subst DistinctKeys (sym (append_assoc m ((k, v) ∷ []) l)) d)
    ∙ append_assoc m ((k, v) ∷ []) l

-- An object whose entries were written one by one holds just these entries.
pub entries-map_object : (l : List (Text × Node)) → DistinctKeys l → entries (map_object l) ≡ l
unfolding entries map_object
entries-map_object l d = to_entries-to_fields (write l []) ∙ write-append l [] d

lookup-text_entry :
    (k : Text) (l : List (Text × Text)) → lookup k l ≡ none → lookup k (map text_entry l) ≡ none
unfolding lookup
lookup-text_entry k [] h = refl
lookup-text_entry k ((j, v) ∷ l) h = ground (arith, lookup-text_entry k l)

DistinctKeys-text_entry :
    (l : List (Text × Text)) → DistinctKeys l → DistinctKeys (map text_entry l)
DistinctKeys-text_entry [] d = tt
DistinctKeys-text_entry ((k, v) ∷ l) d = (lookup-text_entry k l d.0, DistinctKeys-text_entry l d.1)

decode_texts-text_entry : (l : List (Text × Text)) → decode_texts (map text_entry l) ≡ ok l
unfolding decode_texts
decode_texts-text_entry [] = refl
decode_texts-text_entry ((k, v) ∷ l) = rw (decode_texts-text_entry l) refl

-- A map of texts is read back as it was written, an empty one as no entry at all.
pub decode_texts-directed :
    (l : List (Text × Text)) → DistinctKeys l → decode_texts (entries_of (directed l)) ≡ ok l
unfolding directed decode_texts entries_of
decode_texts-directed [] d = decode_texts-text_entry []
decode_texts-directed ((k, v) ∷ l) d =
    rw (entries-map_object (map text_entry ((k, v) ∷ l)) (DistinctKeys-text_entry ((k, v) ∷ l) d))
      (decode_texts-text_entry ((k, v) ∷ l))

pub entries_of-unless_empty :
    (l : List (Text × Node)) → DistinctKeys l → entries_of (unless_empty l (map_object l)) ≡ l
unfolding entries_of
entries_of-unless_empty [] d = refl
entries_of-unless_empty (e ∷ l) d = entries-map_object (e ∷ l) d

pub elements_of-unless_empty : (js : List Node) → elements_of (unless_empty js (array_of js)) ≡ js
unfolding elements_of elements to_items
elements_of-unless_empty [] = refl
elements_of-unless_empty (j ∷ js) = to_list-to_items (j ∷ js)

pub elements_of-map {ℓ} :
    {A : Type ℓ} (f : A → Node) (xs : List A)
    → elements_of (unless_empty xs (array_of (map f xs))) ≡ map f xs
unfolding elements_of elements to_items
elements_of-map f [] = refl
elements_of-map f (x ∷ xs) = to_list-to_items (map f (x ∷ xs))

pub find-object_of : (k : Text) (es : List (Text × Node)) → find k (object_of es) ≡ lookup k es
unfolding find entries to_fields
find-object_of k es = ap (lookup k) (to_entries-to_fields es)
