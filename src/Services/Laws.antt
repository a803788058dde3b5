-- ===== src/Services/Laws.antt =====
-- include/atp/module/service_directory.hpp against its abstract view: a partial map from pairs of a
-- name and an interface to services.
use ani_tools_platform.Prelude.{
  ℕ, ◌≡◌, refl, ◌&&◌, [], ◌∷◌, Option, none, some, arith, Text, text_eq, text_eq_iff, ◌==◌,
  if◌then◌else◌, Result, ok, err,
}
use ani_tools_platform.Prelude.Assoc.{lookup, put, erase, lookup-put, lookup-erase, nat_eq, name_eq}
use ani_tools_platform.Services.{
  Directory, Interfaces, ServiceError, empty_name, duplicate_service, emplace, provide, find,
  remove, remove_all, published, store_or_erase, remove_from,
}

abbrev pub View : Type 0
View = Text → ℕ → Option ℕ

abbrev pub view : Directory → View
view d name type = find name type d

-- The abstract directory.
pub add_to : Text → ℕ → ℕ → View → Result ServiceError View
add_to [] type service v = err empty_name
add_to (c ∷ name) type service v = elim (v (c ∷ name) type) [
  | some other ↦ err duplicate_service
  | none ↦ ok (λ n t. if text_eq (c ∷ name) n && type == t then some service else v n t)
]

pub drop_name : Text → View → View
drop_name name v n t = if text_eq name n then none else v n t

pub drop_pair : Text → ℕ → View → View
drop_pair name type v n t = if text_eq name n && type == t then none else v n t

abbrev pub Agrees : Result ServiceError Directory → Result ServiceError View → Type 0
Agrees (ok d) (ok v) = (n : Text) (t : ℕ) → find n t d ≡ v n t
Agrees (err e) (err f) = e ≡ f
Agrees _ _ = ⊥

published-find :
    (name : Text) (type : ℕ) (d : Directory) → lookup type (published name d) ≡ find name type d
unfolding find lookup
published-find name type d = ground arith

lookup_nil : (t : ℕ) → lookup {V = ℕ} t [] ≡ none
unfolding lookup
lookup_nil t = refl

find-put :
    (name n : Text) (type t service : ℕ) (d : Directory)
    → find n t (put name (put type service (published name d)) d)
      ≡ (if text_eq name n && type == t then some service else find n t d)
unfolding find
find-put name n type t service d = ground (
  arith,
  lookup-put name n (put type service (published name d)) d,
  lookup-put type t service (published name d),
  text_eq_iff name n,
  published-find name t d,
  lookup_nil t,
)

emplace-Agrees :
    (c : ℕ) (name : Text) (type service : ℕ) (d : Directory) (o : Option ℕ)
    → find (c ∷ name) type d ≡ o
    → Agrees (emplace (c ∷ name) type service d) (add_to (c ∷ name) type service (view d))
unfolding emplace add_to
emplace-Agrees c name type service d none e =
    rw (published-find (c ∷ name) type d, e, emplace, add_to)
      (λ n t. find-put (c ∷ name) n type t service d)
emplace-Agrees c name type service d (some s) e =
    rw (published-find (c ∷ name) type d, e, emplace, add_to) refl

-- `provide` does to the view what the abstract directory says: it adds the one pair, refuses an
-- empty name and a pair that is taken, and changes no other entry.
pub provide-Agrees :
    (name : Text) (type service : ℕ) (d : Directory)
    → Agrees (provide name type service d) (add_to name type service (view d))
unfolding provide add_to
provide-Agrees [] type service d = refl
provide-Agrees (c ∷ name) type service d = emplace-Agrees c name type service d _ refl

find-remove_all :
    (name n : Text) (t : ℕ) (d : Directory)
    → find n t (remove_all name d).0 ≡ drop_name name (view d) n t
unfolding remove_all drop_name find
find-remove_all name n t d = ground (arith, lookup-erase name n d, text_eq_iff name n)

find-store_or_erase :
    (name n : Text) (t : ℕ) (kept : Interfaces) (d : Directory)
    → find n t (store_or_erase name kept d) ≡ (if text_eq name n then lookup t kept else find n t d)
unfolding find
find-store_or_erase name n t [] d = ground (arith, lookup-erase name n d, lookup_nil t)
find-store_or_erase name n t (s ∷ kept) d = ground (arith, lookup-put name n (s ∷ kept) d)

find-remove_from :
    (name n : Text) (type t : ℕ) (services : Interfaces) (d : Directory)
    → lookup name d ≡ some services
    → find n t (remove_from name type services d).0 ≡ drop_pair name type (view d) n t
unfolding drop_pair find
find-remove_from name n type t services d e = ground (
  arith,
  find-store_or_erase name n t (erase type services) d,
  lookup-erase type t services,
  text_eq_iff name n,
  e,
)

find-missing :
    (name n : Text) (type t : ℕ) (d : Directory)
    → lookup name d ≡ none
    → find n t d ≡ drop_pair name type (view d) n t
unfolding find drop_pair
find-missing name n type t d e = ground (arith, text_eq_iff name n)

find-remove_cases :
    (name n : Text) (type t : ℕ) (d : Directory) (o : Option Interfaces)
    → lookup name d ≡ o
    → find n t (remove name type d).0 ≡ drop_pair name type (view d) n t
unfolding remove
find-remove_cases name n type t d none e = rw (e, remove) (find-missing name n type t d e)
find-remove_cases name n type t d (some services) e =
    rw (e, remove) (find-remove_from name n type t services d e)

-- Both forms of `remove` do to the view what the abstract directory says: the first takes every
-- publication of the name away, the second the one pair, and neither touches any other.
pub find-removes :
    (name n : Text) (type t : ℕ) (d : Directory)
    → (find n t (remove_all name d).0 ≡ drop_name name (view d) n t)
      × (find n t (remove name type d).0 ≡ drop_pair name type (view d) n t)
find-removes name n type t d =
    (find-remove_all name n t d, find-remove_cases name n type t d _ refl)
