-- ===== src/Studio/Project/Recorded/Scope.antt =====
-- The editing operations of src/studio/include/atp/studio/project.hpp in the `edit_scope` that it opens
-- itself, and all of them together.
use ani_tools_platform.Prelude.{
  ◌≡◌, inr, refl, ◌∙◌, List, [], ◌∷◌, Text, Result, ok, err, ◌>>=◌, >>=-eq-ok, arith, subst,
}
use ani_tools_platform.Prelude.Assoc.{name_eq}
use ani_tools_platform.Studio.Lookup.{EditError}
use ani_tools_platform.Studio.Project.{Project, open_scope, close_scope}
use ani_tools_platform.Studio.Project.Children.{remove_children, remove_one_child, remove_each}
use ani_tools_platform.Studio.Project.{require_group}
use ani_tools_platform.Studio.Project.Actions.{
  Action, perform, to_add_module, to_add_group, to_remove_children, to_rename_child, to_move_child,
  to_copy_child, to_connect, to_disconnect, to_set_property, to_clear_property, to_set_config,
  to_clear_config, to_set_shared_config, to_clear_shared_config, to_set_expose, to_remove_expose,
  to_rename_expose, to_add_thread, to_remove_thread, to_set_thread, to_set_assignment,
  to_clear_assignment, to_add_plugin, to_remove_plugin,
}
use ani_tools_platform.Studio.Project.Recorded.{
  snapshot-saved, Records, IsRecorded, Records->>=, itself, same-Records, add_module-Records,
  add_group-Records, connect-Records, disconnect-Records, set_property-Records,
  clear_property-Records, set_config-Records, clear_config-Records, set_shared_config-Records,
  set_expose-Records, remove_expose-Records, rename_expose-Records, add_thread-Records,
  remove_thread-Records, set_thread-Records, set_assignment-Records, add_plugin-Records,
  remove_plugin-Records, clear_shared_config-Records, clear_assignment-Records,
  rename_child-Records, first-Records, move_child-Records, copy_child-Records,
}

-- An operation inside a scope leaves the history alone.
record Keeps (p q : Project) : Type 0 where
  undos : q.undos ≡ p.undos
  redos : q.redos ≡ p.redos
  depth : q.batch_depth ≡ p.batch_depth
  saved : q.saved ≡ p.saved

Keeps-ok :
    (p r q : Project) (call : Result EditError Project)
    → call ≡ ok r
    → call ≡ ok q
    → Keeps p r
    → Keeps p q
Keeps-ok p r q call e h keeps = subst (Keeps p) (cc (e, h)) keeps

remove_one_child-Keeps : (g n : Text) (p q : Project) → remove_one_child g n p ≡ ok q → Keeps p q
unfolding remove_one_child
remove_one_child-Keeps g n p q h =
    let (found, there, done) = >>=-eq-ok (require_group p.cfg g) _ h in
    Keeps-ok p _ q _ refl done (record { undos = refl; redos = refl; depth = refl; saved = refl })

remove_each-Keeps :
    (g : Text) (ns : List Text) (p q : Project) → remove_each g ns p ≡ ok q → Keeps p q
unfolding remove_each
remove_each-Keeps g [] p q h =
    Keeps-ok p p q _ refl h (record { undos = refl; redos = refl; depth = refl; saved = refl })
remove_each-Keeps g (n ∷ ns) p q h =
    let (r, first, rest) = >>=-eq-ok (remove_one_child g n p) _ h in
    let one = remove_one_child-Keeps g n p r first in
    let others = remove_each-Keeps g ns r q rest in
    record {
      undos = others.undos ∙ one.undos;
      redos = others.redos ∙ one.redos;
      depth = others.depth ∙ one.depth;
      saved = others.saved ∙ one.saved;
    }

module _ (p : Project) where
  scope-IsRecorded : (q : Project) → Keeps (open_scope p) q → IsRecorded p (close_scope q)
  unfolding open_scope
  scope-IsRecorded q keeps = record {
    undos = keeps.undos;
    redos = keeps.redos;
    depth = omega (arith, keeps.depth);
    saved = keeps.saved ∙ snapshot-saved p;
  }

  scope-Records :
      (g : Text) (ns : List Text)
      → Records itself p (remove_each g ns (open_scope p) >>= λ q. ok (close_scope q))
  unfolding Records
  scope-Records g ns = ended (remove_each g ns (open_scope p)) refl
    where
      ended :
          (call : Result EditError Project)
          → remove_each g ns (open_scope p) ≡ call
          → Records itself p (call >>= λ q. ok (close_scope q))
      ended (err e) same = tt
      ended (ok q) same = inr (scope-IsRecorded q (remove_each-Keeps g ns (open_scope p) q same))

  remove_children-Records : (g : Text) (ns : List Text) → Records itself p (remove_children p g ns)
  unfolding remove_children
  remove_children-Records g [] = search (Records->>=, same-Records)
  remove_children-Records g (n ∷ ns) = search (Records->>=, scope-Records)

  -- Whatever an operation does, it leaves the history alone or takes the one step of `snapshot`.
  pub perform-Records : (a : Action) → Records itself p (perform p a)
  unfolding perform
  perform-Records (to_add_module g f n v) = add_module-Records p g f n v
  perform-Records (to_add_group g n) = add_group-Records p g n
  perform-Records (to_remove_children g ns) = remove_children-Records g ns
  perform-Records (to_rename_child g n m) = rename_child-Records p g n m
  perform-Records (to_move_child g n h) = first-Records p _ (move_child-Records p g n h)
  perform-Records (to_copy_child g n h) = first-Records p _ (copy_child-Records p g n h)
  perform-Records (to_connect g f t) = connect-Records p g f t
  perform-Records (to_disconnect g i) = disconnect-Records p g i
  perform-Records (to_set_property g n k v) = set_property-Records p g n k v
  perform-Records (to_clear_property g n k) = clear_property-Records p g n k
  perform-Records (to_set_config g n v) = set_config-Records p g n v
  perform-Records (to_clear_config g n) = clear_config-Records p g n
  perform-Records (to_set_shared_config n v) = set_shared_config-Records p n v
  perform-Records (to_clear_shared_config n) = clear_shared_config-Records p n
  perform-Records (to_set_expose i g a t) = set_expose-Records p i g a t
  perform-Records (to_remove_expose i g a) = remove_expose-Records p i g a
  perform-Records (to_rename_expose i g a b) = rename_expose-Records p i g a b
  perform-Records (to_add_thread n m t) = add_thread-Records p n m t
  perform-Records (to_remove_thread n) = remove_thread-Records p n
  perform-Records (to_set_thread n m t) = set_thread-Records p n m t
  perform-Records (to_set_assignment g t) = set_assignment-Records p g t
  perform-Records (to_clear_assignment g) = clear_assignment-Records p g
  perform-Records (to_add_plugin f) = add_plugin-Records p f
  perform-Records (to_remove_plugin f) = remove_plugin-Records p f
