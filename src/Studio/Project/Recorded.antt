-- ===== src/Studio/Project/Recorded.antt =====
-- What the editing operations of src/studio/include/atp/studio/project.hpp do to the history.
pub mod Scope
use ani_tools_platform.Prelude.{
  ℕ, zero, suc, ◌+◌, ◌-◌, ◌<◌, ◌≡◌, ◌⊎◌, inl, inr, refl, sym, ap, ◌∙◌, Bool, true, false, not, ◌&&◌,
  List, [], ◌∷◌, ◌++◌, Option, none, some, Text, text_eq, Result, ok, err, ◌>>=◌, >>=-eq-ok,
  if◌then◌else◌, arith, ltb, Bool-cases, Option-cases, subst,
}
use ani_tools_platform.Prelude.Int.{ℤ}
use ani_tools_platform.Prelude.Assoc.{lookup, name_eq}
use ani_tools_platform.Version.{Version}
use ani_tools_platform.Runtime.Runner.{ThreadMode}
use ani_tools_platform.Config.Node.{Node}
use ani_tools_platform.Config.Model.{Config}
use ani_tools_platform.Config.Model.Encode.{encode}
use ani_tools_platform.Studio.Lookup.{EditError}
use ani_tools_platform.Studio.Project.{
  Project, Position, snapshot, commit, commit_placed, open_scope, close_scope,
}
use ani_tools_platform.Studio.Project.Children.{
  add_module, add_group, remove_children, rename_child, remove_one_child, remove_each,
}
use ani_tools_platform.Studio.Project.Moves.{move_child, copy_child}
use ani_tools_platform.Studio.Project.Ports.{
  connect, disconnect, set_expose, remove_expose, rename_expose,
}
use ani_tools_platform.Studio.Project.Settings.{
  set_property, clear_property, set_config, clear_config, set_shared_config, clear_shared_config,
}
use ani_tools_platform.Studio.Project.Threads.{
  add_thread, remove_thread, set_thread, set_assignment, clear_assignment, add_plugin,
  remove_plugin,
}
use ani_tools_platform.Studio.Project.{require_group}
use ani_tools_platform.Studio.Project.Children.{require_child, require_children, require_free_name}
use ani_tools_platform.Studio.Project.Settings.{require_module}
use ani_tools_platform.Studio.Project.Actions.{
  Action, perform, to_add_module, to_add_group, to_remove_children, to_rename_child, to_move_child,
  to_copy_child, to_connect, to_disconnect, to_set_property, to_clear_property, to_set_config,
  to_clear_config, to_set_shared_config, to_clear_shared_config, to_set_expose, to_remove_expose,
  to_rename_expose, to_add_thread, to_remove_thread, to_set_thread, to_set_assignment,
  to_clear_assignment, to_add_plugin, to_remove_plugin,
}

-- A step of the history: the one that `snapshot` takes, which is none inside an `edit_scope`.
pub record IsRecorded (p q : Project) : Type 0 where
  pub undos : q.undos ≡ (snapshot p).undos
  pub redos : q.redos ≡ (snapshot p).redos
  pub depth : q.batch_depth ≡ p.batch_depth
  pub saved : q.saved ≡ p.saved

-- What a call does to the history: nothing at all, or the step of `snapshot`.
module _ {X : Type 0} (project : X → Project) (p : Project) where
  unfoldable pub Records : Result EditError X → Type 0
  Records (err e) = Unit {0}
  Records (ok x) = (project x ≡ p) ⊎ IsRecorded p (project x)

  pub Records->>= :
      {A : Type 0} (call : Result EditError A) (next : A → Result EditError X)
      → ((a : A) → Records (next a))
      → Records (call >>= next)
  unfolding Records
  Records->>= (err e) next h = tt
  Records->>= (ok a) next h = h a

  pub Records-if :
      (b : Bool) (first second : Result EditError X)
      → Records first
      → Records second
      → Records (if b then first else second)
  Records-if true first second f s = f
  Records-if false first second f s = s

  pub Records-found {ℓ} :
      {A : Type ℓ} (o : Option A) (first : Result EditError X) (second : A → Result EditError X)
      → Records first
      → ((a : A) → Records (second a))
      → Records (elim o as (λ x. Result EditError X) [ none ↦ first | some a ↦ second a ])
  Records-found none first second f s = f
  Records-found (some a) first second f s = s a

abbrev pub itself : Project → Project
itself p = p

abbrev pub answered : {A : Type 0} → Project × A → Project
answered r = r.0

snapshot-batch_depth : (p : Project) → (snapshot p).batch_depth ≡ p.batch_depth
unfolding snapshot
snapshot-batch_depth p = ground arith

pub snapshot-saved : (p : Project) → (snapshot p).saved ≡ p.saved
unfolding snapshot
snapshot-saved p = ground arith

module _ (p : Project) where
  commit-IsRecorded : (cfg : Config) → IsRecorded p (commit p cfg)
  unfolding commit
  commit-IsRecorded cfg = record {
    undos = refl;
    redos = refl;
    depth = snapshot-batch_depth p;
    saved = snapshot-saved p;
  }

  pub commit-Records : (cfg : Config) → Records itself p (ok (commit p cfg))
  unfolding Records
  commit-Records cfg = inr (commit-IsRecorded cfg)

  pub same-Records : Records itself p (ok p)
  unfolding Records
  same-Records = inl refl

  ruleset records = (Records->>=, Records-if, Records-found, commit-Records, same-Records)

  pub add_module-Records :
      (g f n : Text) (v : Option Version) → Records itself p (add_module p g f n v)
  unfolding add_module
  add_module-Records g f n v = search records

  pub add_group-Records : (g n : Text) → Records itself p (add_group p g n)
  unfolding add_group
  add_group-Records g n = search records

  pub connect-Records : (g f t : Text) → Records itself p (connect p g f t)
  unfolding connect
  connect-Records g f t = search records

  pub disconnect-Records : (g : Text) (i : ℕ) → Records itself p (disconnect p g i)
  unfolding disconnect
  disconnect-Records g i = search records

  pub set_property-Records : (g n k : Text) (v : Node) → Records itself p (set_property p g n k v)
  unfolding set_property
  set_property-Records g n k v = search records

  pub clear_property-Records : (g n k : Text) → Records itself p (clear_property p g n k)
  unfolding clear_property
  clear_property-Records g n k =
      Records->>= itself p (require_module p.cfg g n) _ (λ m.
        Records-found itself p (lookup k m.properties) _ _ same-Records (λ v. commit-Records _))

  pub set_config-Records : (g n : Text) (v : Node) → Records itself p (set_config p g n v)
  unfolding set_config
  set_config-Records g n v = search records

  pub clear_config-Records : (g n : Text) → Records itself p (clear_config p g n)
  unfolding clear_config
  clear_config-Records g n =
      Records->>= itself p (require_module p.cfg g n) _
        (λ m. Records-found itself p m.config _ _ same-Records (λ v. commit-Records _))

  pub set_shared_config-Records : (n : Text) (v : Node) → Records itself p (set_shared_config p n v)
  unfolding set_shared_config
  set_shared_config-Records n v = search records

  pub set_expose-Records : (i : Bool) (g a t : Text) → Records itself p (set_expose i p g a t)
  unfolding set_expose
  set_expose-Records i g a t = search records

  pub remove_expose-Records : (i : Bool) (g a : Text) → Records itself p (remove_expose i p g a)
  unfolding remove_expose
  remove_expose-Records i g a = search records

  pub rename_expose-Records : (i : Bool) (g a b : Text) → Records itself p (rename_expose i p g a b)
  unfolding rename_expose
  rename_expose-Records i g a b = search records

  pub add_thread-Records :
      (n : Text) (m : ThreadMode) (t : ℤ) → Records itself p (add_thread p n m t)
  unfolding add_thread
  add_thread-Records n m t = search records

  pub remove_thread-Records : (n : Text) → Records itself p (remove_thread p n)
  unfolding remove_thread
  remove_thread-Records n = search records

  pub set_thread-Records :
      (n : Text) (m : ThreadMode) (t : ℤ) → Records itself p (set_thread p n m t)
  unfolding set_thread
  set_thread-Records n m t = search records

  pub set_assignment-Records : (g t : Text) → Records itself p (set_assignment p g t)
  unfolding set_assignment
  set_assignment-Records g t = search records

  pub add_plugin-Records : (f : Text) → Records itself p (add_plugin p f)
  unfolding add_plugin
  add_plugin-Records f = search records

  pub remove_plugin-Records : (f : Text) → Records itself p (remove_plugin p f)
  unfolding remove_plugin
  remove_plugin-Records f = search records

  pub clear_shared_config-Records : (n : Text) → Records itself p (ok (clear_shared_config p n))
  unfolding clear_shared_config Records
  clear_shared_config-Records n = elim (Option-cases (lookup n p.cfg.configs)) [
    | inl missing ↦ rw (clear_shared_config, missing) (inl refl)
    | inr (v, there) ↦ rw (clear_shared_config, there) (inr (commit-IsRecorded _))
  ]

  pub clear_assignment-Records : (g : Text) → Records itself p (ok (clear_assignment p g))
  unfolding clear_assignment Records
  clear_assignment-Records g = inr (commit-IsRecorded _)

  pub commit_placed-IsRecorded :
      (cfg : Config) (positions : List (Text × Position))
      → IsRecorded p (commit_placed p cfg positions)
  unfolding commit_placed
  commit_placed-IsRecorded cfg positions =
      let there = commit-IsRecorded cfg in
      record { undos = there.undos; redos = there.redos; depth = there.depth; saved = there.saved }

  pub commit_placed-Records :
      (cfg : Config) (positions : List (Text × Position))
      → Records itself p (ok (commit_placed p cfg positions))
  unfolding Records
  commit_placed-Records cfg positions = inr (commit_placed-IsRecorded cfg positions)

  pub commit_placed-answers :
      {A : Type 0} (cfg : Config) (positions : List (Text × Position)) (a : A)
      → Records answered p (ok (commit_placed p cfg positions, a))
  unfolding Records
  commit_placed-answers cfg positions a = inr (commit_placed-IsRecorded cfg positions)

  pub rename_child-Records : (g n m : Text) → Records itself p (rename_child p g n m)
  unfolding rename_child
  rename_child-Records g n m = search (Records->>=, commit_placed-Records)

  pub first-Records :
      {A : Type 0} (call : Result EditError (Project × A))
      → Records answered p call
      → Records itself p (call >>= λ r. ok r.0)
  unfolding Records
  first-Records (err e) h = tt
  first-Records (ok r) h = h

  pub move_child-Records : (g n h : Text) → Records answered p (move_child p g n h)
  unfolding move_child
  move_child-Records g n h = search (Records->>=, commit_placed-answers)

  pub copy_child-Records : (g n h : Text) → Records answered p (copy_child p g n h)
  unfolding copy_child
  copy_child-Records g n h = search (Records->>=, commit_placed-answers)
