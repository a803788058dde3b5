-- ===== src/Services.antt =====
-- include/atp/module/service_directory.hpp: which provider, by name, offers which interfaces. An
-- interface is known by its type tag and a service by its address, both numbers here.
pub mod Laws
pub mod Tidy
use ani_tools_platform.Prelude.{
  ℕ, Bool, true, false, List, [], ◌∷◌, Option, none, some, Text, if◌then◌else◌, Result, ok, err,
}
use ani_tools_platform.Prelude.Assoc.{lookup, put, erase, nat_eq, name_eq}

abbrev pub Interfaces : Type 0
Interfaces = List (ℕ × ℕ)

abbrev pub Directory : Type 0
Directory = List (Text × Interfaces)

pub data ServiceError : Type 0 where
  empty_name duplicate_service no_provider no_interface : ServiceError

abbrev published : Text → Directory → Interfaces
published name d = elim (lookup name d) [ none ↦ [] | some services ↦ services ]

-- try_emplace of the interface in the provider's map, which `entries_[name]` made if need be.
unfoldable pub emplace : Text → ℕ → ℕ → Directory → Result ServiceError Directory
emplace name type service d = elim (lookup type (published name d)) [
  | none ↦ ok (put name (put type service (published name d)) d)
  | some other ↦ err duplicate_service
]

unfoldable pub provide : Text → ℕ → ℕ → Directory → Result ServiceError Directory
unfolding emplace
provide [] type service d = err empty_name
provide (c ∷ name) type service d = emplace (c ∷ name) type service d

abbrev found_or : ServiceError → Option ℕ → Result ServiceError ℕ
found_or e none = err e
found_or e (some service) = ok service

unfoldable pub at : Text → ℕ → Directory → Result ServiceError ℕ
at name type d = elim (lookup name d) [
  | none ↦ err no_provider
  | some services ↦ found_or no_interface (lookup type services)
]

unfoldable pub find : Text → ℕ → Directory → Option ℕ
find name type d = elim (lookup name d) [ none ↦ none | some services ↦ lookup type services ]

-- remove(name): every publication of the name.
unfoldable pub remove_all : Text → Directory → Directory × Bool
remove_all name d = elim (lookup name d) [
  | none ↦ (d, false)
  | some services ↦ (erase name d, true)
]

-- An inner map left empty is erased with its name.
abbrev store_or_erase : Text → Interfaces → Directory → Directory
store_or_erase name [] d = erase name d
store_or_erase name (s ∷ services) d = put name (s ∷ services) d

abbrev remove_from : Text → ℕ → Interfaces → Directory → Directory × Bool
remove_from name type services d = elim (lookup type services) [
  | none ↦ (d, false)
  | some service ↦ (store_or_erase name (erase type services) d, true)
]

-- remove<TService>(name): one publication.
unfoldable pub remove : Text → ℕ → Directory → Directory × Bool
remove name type d = elim (lookup name d) [
  | none ↦ (d, false)
  | some services ↦ remove_from name type services d
]
