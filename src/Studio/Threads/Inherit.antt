-- ===== src/Studio/Threads/Inherit.antt =====
-- src/studio/include/atp/studio/thread_resolve.hpp: the loop over the ancestors against a walk from the root
-- down, as the runner makes it.
use ani_tools_platform.Prelude.{
  ℕ, zero, suc, ◌≤◌, ◌<◌, ◌≡◌, refl, sym, ap, ◌∙◌, false, List, [], ◌∷◌, ◌++◌, Option, none, some,
  length, Text, arith, All, inl, inr, Option-cases,
}
use ani_tools_platform.Prelude.Assoc.{lookup, name_eq}
use ani_tools_platform.Config.Validate.Values.{contains}
use ani_tools_platform.Config.Model.{Config}
use ani_tools_platform.Studio.NodeRef.{cut_at_last_dot}
use ani_tools_platform.Studio.NodeRef.Laws.{cut-append, dotless-uncut}
use ani_tools_platform.Studio.Cascade.Fuel.{cut_at_last_dot-shorter}
use ani_tools_platform.Studio.Threads.{nearest_ancestor, first_thread, resolve_thread}

abbrev pub IsDotless : Text → Type 0
IsDotless name = contains b'.' name ≡ false

-- The path that leads from a group down the names.
abbrev pub path_below : Text → List Text → Text
path_below path [] = path
path_below path (s ∷ ss) = path_below (path ++ b'.' ∷ s) ss

abbrev or : Option Text → Text → Text
or none thread = thread
or (some own) thread = own

module _ (m : List (Text × Text)) where
  -- A group's own thread, or the one that its parent runs on.
  abbrev pub own_or : Text → Text → Text
  own_or path thread = or (lookup path m) thread

  -- The walk down: each group keeps its parent's thread unless it has its own.
  abbrev pub walk_down : Text → Text → List Text → Text
  walk_down thread path [] = thread
  walk_down thread path (s ∷ ss) =
      walk_down (own_or (path ++ b'.' ∷ s) thread) (path ++ b'.' ∷ s) ss

  shorter :
      (path front back : Text)
      → cut_at_last_dot path ≡ some (front, back)
      → length front < length path
  unfolding cut_at_last_dot
  shorter [] front back h = absurd cc
  shorter (c ∷ cs) front back h =
      let bound = rw h at (cut_at_last_dot-shorter c cs) in omega (arith, bound)

  nearest_ancestor-fuel :
      (fuel more : ℕ) (path : Text)
      → length path ≤ fuel
      → length path ≤ more
      → nearest_ancestor fuel m path ≡ nearest_ancestor more m path
  unfolding nearest_ancestor cut_at_last_dot
  nearest_ancestor-fuel zero zero path h k = refl
  nearest_ancestor-fuel zero (suc more) [] h k = refl
  nearest_ancestor-fuel zero (suc more) (c ∷ cs) h k = absurd (omega arith)
  nearest_ancestor-fuel (suc fuel) zero [] h k = refl
  nearest_ancestor-fuel (suc fuel) zero (c ∷ cs) h k = absurd (omega arith)
  nearest_ancestor-fuel (suc fuel) (suc more) path h k =
      elim (Option-cases (cut_at_last_dot path)) [
        | inl missing ↦ rw (nearest_ancestor, missing) refl
        | inr ((front, back), there) ↦
            let bound = shorter path front back there in
            let same = nearest_ancestor-fuel fuel more front (omega arith) (omega arith) in
            elim (Option-cases (lookup front m)) [
              | inl unassigned ↦ rw (nearest_ancestor, there, unassigned) same
              | inr (thread, assigned) ↦ rw (nearest_ancestor, there, assigned) refl
            ]
      ]

  -- The thread of a path, or else of the nearest ancestor.
  unfoldable near : Text → Option Text
  near path = elim (lookup path m) [
    | some thread ↦ some thread
    | none ↦ nearest_ancestor (length path) m path
  ]

  nearest-parent :
      (path name : Text)
      → IsDotless name
      → nearest_ancestor (length (path ++ b'.' ∷ name)) m (path ++ b'.' ∷ name) ≡ near path
  unfolding nearest_ancestor near
  nearest-parent path name dotless =
      let child = path ++ b'.' ∷ name in
      let longer = shorter child path name (cut-append path name dotless) in
      nearest_ancestor-fuel (length child) (suc (length child)) child (omega arith) (omega arith)
      ∙ elim (Option-cases (lookup path m)) [
        | inl unassigned ↦
            rw (nearest_ancestor, cut-append path name dotless, near, unassigned)
              (nearest_ancestor-fuel (length child) (length path) path (omega arith) (omega arith))
        | inr (thread, assigned) ↦
            rw (nearest_ancestor, cut-append path name dotless, near, assigned) refl
      ]

  nearest-top : (name : Text) → IsDotless name → nearest_ancestor (length name) m name ≡ none
  unfolding nearest_ancestor
  nearest-top [] dotless = refl
  nearest-top (c ∷ cs) dotless = rw (nearest_ancestor, dotless-uncut (c ∷ cs) dotless) refl

module _ (cfg : Config) where
  resolve_thread-near :
      (path : Text)
      → (resolve_thread cfg path).name ≡ or (near cfg.assignments path) (first_thread cfg.threads)
  unfolding resolve_thread near
  resolve_thread-near path = elim (Option-cases (lookup path cfg.assignments)) [
    | inl unassigned ↦ elim (Option-cases (nearest_ancestor (length path) cfg.assignments path)) [
      | inl missing ↦ rw (resolve_thread, near, unassigned, missing) refl
      | inr (thread, there) ↦ rw (resolve_thread, near, unassigned, there) refl
    ]
    | inr (thread, assigned) ↦ rw (resolve_thread, near, assigned) refl
  ]

  own-or-parent :
      (path name : Text)
      → IsDotless name
      → (resolve_thread cfg (path ++ b'.' ∷ name)).name
        ≡ own_or cfg.assignments (path ++ b'.' ∷ name) (resolve_thread cfg path).name
  unfolding near resolve_thread
  own-or-parent path name dotless =
      resolve_thread-near (path ++ b'.' ∷ name)
      ∙ elim (Option-cases (lookup (path ++ b'.' ∷ name) cfg.assignments)) [
        | inl unassigned ↦
            rw (near, unassigned, nearest-parent cfg.assignments path name dotless)
              (sym (resolve_thread-near path))
        | inr (thread, assigned) ↦ rw (near, assigned) refl
      ]

  below :
      (path : Text) (names : List Text)
      → All IsDotless names
      → (resolve_thread cfg (path_below path names)).name
        ≡ walk_down cfg.assignments (resolve_thread cfg path).name path names
  below path [] plain = refl
  below path (s ∷ ss) plain =
      below (path ++ b'.' ∷ s) ss plain.1
      ∙ ap (λ t. walk_down cfg.assignments t (path ++ b'.' ∷ s) ss) (own-or-parent path s plain.0)

  at_top :
      (name : Text)
      → IsDotless name
      → (resolve_thread cfg name).name ≡ own_or cfg.assignments name (first_thread cfg.threads)
  unfolding near
  at_top name dotless =
      resolve_thread-near name ∙ elim (Option-cases (lookup name cfg.assignments)) [
        | inl unassigned ↦ rw (near, unassigned, nearest-top cfg.assignments name dotless) refl
        | inr (thread, assigned) ↦ rw (near, assigned) refl
      ]

  -- The thread that the studio shows for a group, to any depth, is the one that a walk from the root down
  -- leads to, on which each group has its own thread or else the one of its parent, and a group at the top
  -- without one has the first thread declared, or "main". The names on the path have no dot.
  pub resolve_thread_lem :
      (name : Text) (names : List Text)
      → IsDotless name
      → All IsDotless names
      → (resolve_thread cfg (path_below name names)).name
        ≡ walk_down cfg.assignments
            (own_or cfg.assignments name (first_thread cfg.threads))
            name
            names
  resolve_thread_lem name names dotless plain =
      below name names plain
      ∙ ap (λ t. walk_down cfg.assignments t name names) (at_top name dotless)
