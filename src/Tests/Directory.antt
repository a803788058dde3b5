-- ===== src/Tests/Directory.antt =====
-- Runs of include/atp/module/service_directory.hpp.
use ani_tools_platform.Prelude.{ℕ, ◌≡◌, ◌↔◌, refl, List, [], ◌∷◌, none, codes, text_eq, err}
use ani_tools_platform.Prelude.Assoc.{lookup}
use ani_tools_platform.Services.{
  Directory, provide, at, find, no_provider, no_interface, duplicate_service,
}
use ani_tools_platform.Services.Laws.{Agrees, add_to, view, provide-Agrees}
use ani_tools_platform.Services.Tidy.{ServiceOp, provides, removes, apply_all, at-no_provider}

abbrev radar : Directory
radar = (codes "radar", (1, 10) ∷ (2, 20) ∷ []) ∷ []

refuses_duplicate : provide (codes "radar") 1 30 radar ≡ err duplicate_service
unfolding provide lookup text_eq
refuses_duplicate = refl

misses_interface : at (codes "radar") 3 radar ≡ err no_interface
unfolding at lookup text_eq
misses_interface = refl

provide-Agrees_example :
    Agrees (provide (codes "radar") 3 30 radar) (add_to (codes "radar") 3 30 (view radar))
provide-Agrees_example = provide-Agrees (codes "radar") 3 30 radar

abbrev comes_and_goes : List ServiceOp
comes_and_goes = provides (codes "radar") 1 10 ∷ removes (codes "radar") 1 ∷ []

at-no_provider_example :
    (at (codes "radar") 1 (apply_all comes_and_goes []) ≡ err no_provider)
    ↔ ((t : ℕ) → find (codes "radar") t (apply_all comes_and_goes []) ≡ none)
at-no_provider_example = at-no_provider comes_and_goes (codes "radar") 1
