-- ===== src/Services/Tidy.antt =====
-- include/atp/module/service_directory.hpp: the two failures of a lookup, after any calls.
use ani_tools_platform.Prelude.{
  ℕ, ◌≡◌, refl, List, [], ◌∷◌, none, some, arith, Text, ==_iff, Result, ok, err, inl, inr, ◌≢◌,
  Option-cases, All, ◌↔◌,
}
use ani_tools_platform.Prelude.Assoc.{lookup, put, erase, nat_eq, name_eq}
use ani_tools_platform.Services.{
  Directory, Interfaces, ServiceError, no_provider, emplace, provide, at, find, remove, remove_all,
  published, store_or_erase, remove_from,
}

-- No provider is kept without an interface.
abbrev pub IsTidy : Directory → Type 0
IsTidy d = All (λ entry. entry.1 ≢ []) d

IsTidy-put :
    (name : Text) (v : Interfaces) (d : Directory) → v ≢ [] → IsTidy d → IsTidy (put name v d)
unfolding put
IsTidy-put name v [] h t = (h, tt)
IsTidy-put name v ((n, w) ∷ d) h t = ground (arith, IsTidy-put name v d h t.1)

IsTidy-erase : (name : Text) (d : Directory) → IsTidy d → IsTidy (erase name d)
unfolding erase
IsTidy-erase name [] t = tt
IsTidy-erase name ((n, w) ∷ d) t = ground (arith, IsTidy-erase name d t.1)

put-nonempty : (type service : ℕ) (v : Interfaces) → put type service v ≢ []
unfolding put
put-nonempty type service [] = ground arith
put-nonempty type service ((t, s) ∷ v) = ground arith

store_or_erase-IsTidy :
    (name : Text) (kept : Interfaces) (d : Directory)
    → IsTidy d
    → IsTidy (store_or_erase name kept d)
store_or_erase-IsTidy name [] d t = IsTidy-erase name d t
store_or_erase-IsTidy name (s ∷ kept) d t = IsTidy-put name (s ∷ kept) d (ground arith) t

emplace-IsTidy :
    (name : Text) (type service : ℕ) (d : Directory) {d' : Directory}
    → IsTidy d
    → emplace name type service d ≡ ok d'
    → IsTidy d'
unfolding emplace
emplace-IsTidy name type service d t e =
    ground (
      arith,
      IsTidy-put name (put type service (published name d)) d (put-nonempty type service _) t,
    )

provide-IsTidy :
    (name : Text) (type service : ℕ) (d : Directory) {d' : Directory}
    → IsTidy d
    → provide name type service d ≡ ok d'
    → IsTidy d'
unfolding provide
provide-IsTidy [] type service d t e = cc
provide-IsTidy (c ∷ name) type service d t e = emplace-IsTidy (c ∷ name) type service d t e

remove_from-IsTidy :
    (name : Text) (type : ℕ) (services : Interfaces) (d : Directory)
    → IsTidy d
    → IsTidy (remove_from name type services d).0
remove_from-IsTidy name type services d t = elim (Option-cases (lookup type services)) [
  | inl e ↦ rw (e, remove_from) t
  | inr (s, e) ↦ rw (e, remove_from) (store_or_erase-IsTidy name (erase type services) d t)
]

remove-IsTidy : (name : Text) (type : ℕ) (d : Directory) → IsTidy d → IsTidy (remove name type d).0
unfolding remove
remove-IsTidy name type d t = elim (Option-cases (lookup name d)) [
  | inl e ↦ rw (e, remove) t
  | inr (services, e) ↦ rw (e, remove) (remove_from-IsTidy name type services d t)
]

remove_all-IsTidy : (name : Text) (d : Directory) → IsTidy d → IsTidy (remove_all name d).0
unfolding remove_all
remove_all-IsTidy name d t = elim (Option-cases (lookup name d)) [
  | inl e ↦ rw (e, remove_all) t
  | inr (services, e) ↦ rw (e, remove_all) (IsTidy-erase name d t)
]

-- The calls that change a directory. One that throws leaves it as it was.
pub data ServiceOp : Type 0 where
  provides : Text → ℕ → ℕ → ServiceOp
  removes : Text → ℕ → ServiceOp
  removes_all : Text → ServiceOp

abbrev after : Directory → Result ServiceError Directory → Directory
after d (ok d') = d'
after d (err e) = d

pub apply : ServiceOp → Directory → Directory
apply (provides name type service) d = after d (provide name type service d)
apply (removes name type) d = (remove name type d).0
apply (removes_all name) d = (remove_all name d).0

pub apply_all : List ServiceOp → Directory → Directory
apply_all [] d = d
apply_all (op ∷ ops) d = apply_all ops (apply op d)

after-IsTidy :
    (name : Text) (type service : ℕ) (d : Directory) (r : Result ServiceError Directory)
    → IsTidy d
    → provide name type service d ≡ r
    → IsTidy (after d r)
after-IsTidy name type service d (ok d') t e = provide-IsTidy name type service d t e
after-IsTidy name type service d (err f) t e = t

apply-IsTidy : (op : ServiceOp) (d : Directory) → IsTidy d → IsTidy (apply op d)
unfolding apply
apply-IsTidy (provides name type service) d t = after-IsTidy name type service d _ t refl
apply-IsTidy (removes name type) d t = remove-IsTidy name type d t
apply-IsTidy (removes_all name) d t = remove_all-IsTidy name d t

apply_all-IsTidy : (ops : List ServiceOp) (d : Directory) → IsTidy d → IsTidy (apply_all ops d)
unfolding apply_all
apply_all-IsTidy [] d t = t
apply_all-IsTidy (op ∷ ops) d t = apply_all-IsTidy ops (apply op d) (apply-IsTidy op d t)

lookup-nonempty :
    (name : Text) (d : Directory) (services : Interfaces)
    → IsTidy d
    → lookup name d ≡ some services
    → services ≢ []
unfolding lookup
lookup-nonempty name [] services t e = cc
lookup-nonempty name ((n, w) ∷ d) services t e = ground (arith, lookup-nonempty name d services t.1)

some_interface : (services : Interfaces) → services ≢ [] → (t : ℕ) × (lookup t services ≢ none)
unfolding lookup
some_interface [] h = absurd (h refl)
some_interface ((t, s) ∷ rest) h = (t, ground (arith, ==_iff t t))

at-no_provider_tidy :
    (name : Text) (type : ℕ) (d : Directory)
    → IsTidy d
    → (at name type d ≡ err no_provider) ↔ ((t : ℕ) → find name t d ≡ none)
unfolding at find
at-no_provider_tidy name type d tidy = elim (Option-cases (lookup name d)) [
  | inl e ↦ rw (e, at, find) (λ h t. refl, λ h. refl)
  | inr (services, e) ↦
      let (t, there) = some_interface services (lookup-nonempty name d services tidy e) in
      rw (e, at, find) (λ h. ground arith, λ h. absurd (there (h t)))
]

-- In a directory that starts empty and is changed by any calls, the two failures of a lookup are
-- told apart as they are meant to be: `at` says that there is no such provider exactly when the
-- name publishes nothing at all, since an emptied provider is erased with its name.
pub at-no_provider :
    (ops : List ServiceOp) (name : Text) (type : ℕ)
    → (at name type (apply_all ops []) ≡ err no_provider)
      ↔ ((t : ℕ) → find name t (apply_all ops []) ≡ none)
at-no_provider ops name type =
    at-no_provider_tidy name type (apply_all ops []) (apply_all-IsTidy ops [] tt)
