-- ===== src/Studio/Threads.antt =====
-- src/studio/include/atp/studio/thread_resolve.hpp: the thread that a group runs on.
pub mod Inherit
use ani_tools_platform.Prelude.{
  ℕ, zero, suc, Bool, true, false, List, [], ◌∷◌, Option, none, some, length, Text, text_eq, codes,
  if◌then◌else◌,
}
use ani_tools_platform.Prelude.Assoc.{lookup, name_eq}
use ani_tools_platform.Config.Model.{ThreadNode, Config}
use ani_tools_platform.Studio.NodeRef.{cut_at_last_dot}

pub record ResolvedThread : Type 0 where
  pub name : Text
  pub inherited : Bool

-- The loop over the ancestors of a path: the thread of the nearest that is assigned.
unfoldable pub nearest_ancestor : ℕ → List (Text × Text) → Text → Option Text
unfolding cut_at_last_dot lookup
nearest_ancestor zero assignments path = none
nearest_ancestor (suc fuel) assignments path = elim (cut_at_last_dot path) [
  | none ↦ none
  | some (ancestor, name) ↦ elim (lookup ancestor assignments) [
    | some thread ↦ some thread
    | none ↦ nearest_ancestor fuel assignments ancestor
  ]
]

abbrev pub first_thread : List ThreadNode → Text
first_thread [] = codes "main"
first_thread (t ∷ ts) = t.name

-- The path gets shorter in each round.
unfoldable pub resolve_thread : Config → Text → ResolvedThread
unfolding lookup nearest_ancestor
resolve_thread cfg group_path = elim (lookup group_path cfg.assignments) [
  | some thread ↦ record { name = thread; inherited = false }
  | none ↦ elim (nearest_ancestor (length group_path) cfg.assignments group_path) [
    | some thread ↦ record { name = thread; inherited = true }
    | none ↦ record { name = first_thread cfg.threads; inherited = true }
  ]
]

unfoldable pub groups_on_thread : List (Text × Text) → Text → List Text
groups_on_thread [] thread = []
groups_on_thread ((path, name) ∷ es) thread =
    let rest = groups_on_thread es thread in if text_eq name thread then path ∷ rest else rest
