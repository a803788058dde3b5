-- ===== src/Studio/Project/Valid/Actions.antt =====
-- src/studio/include/atp/studio/project.hpp: every operation that moves no path.
use ani_tools_platform.Prelude.{◌⊎◌, inl, inr, true, ◌≡◌, List, [], ◌∷◌, ok, subst, All, length}
use ani_tools_platform.Prelude.Assoc.{name_eq}
use ani_tools_platform.Config.Model.Decode.Modules.{IsDeclared}
use ani_tools_platform.Config.Model.Decode.RoundTrip.{IsConfig}
use ani_tools_platform.Studio.Project.Actions.{
  Action, perform, to_add_module, to_add_group, to_remove_children, to_rename_child, to_move_child,
  to_copy_child, to_connect, to_disconnect, to_set_property, to_clear_property, to_set_config,
  to_clear_config, to_set_shared_config, to_clear_shared_config, to_set_expose, to_remove_expose,
  to_rename_expose, to_add_thread, to_remove_thread, to_set_thread, to_set_assignment,
  to_clear_assignment, to_add_plugin, to_remove_plugin,
}
use ani_tools_platform.Studio.Project.{Project}
use ani_tools_platform.Studio.Project.Valid.{IsValid}
use ani_tools_platform.Studio.Project.Valid.Relocations.{
  rename_child-IsConfig, move_child-IsConfig, copy_child-IsConfig,
}
use ani_tools_platform.Config.Model.Decode.Keys.{DistinctKeys}
use ani_tools_platform.Config.Model.Decode.RoundTrip.{rooted}
use ani_tools_platform.Config.Model.Encode.{encode}
use ani_tools_platform.Studio.Project.{undo, redo}
use ani_tools_platform.Studio.Project.History.{
  performed, undo-IsRecorded, redo-IsRecorded, Performs, Runs, UndoneTo, undo_times-perform,
}
use ani_tools_platform.Studio.Project.Valid.Edits.{
  add_module-IsValid, add_group-IsValid, connect-IsValid, disconnect-IsValid, set_expose-IsValid,
  remove_expose-IsValid, rename_expose-IsValid,
}
use ani_tools_platform.Studio.Project.Valid.Removals.{remove_children-IsValid}
use ani_tools_platform.Studio.Project.Valid.Settings.{
  set_property-IsValid, clear_property-IsValid, set_config-IsValid, clear_config-IsValid,
  set_shared_config-IsValid, clear_shared_config-IsValid, add_thread-IsValid, remove_thread-IsValid,
  set_thread-IsValid, set_assignment-IsValid, clear_assignment-IsValid, add_plugin-IsValid,
  remove_plugin-IsValid,
}

-- The actions that give no node another path; a version that is asked for is one that can be written.
abbrev pub IsSettled : Action → Type 0
IsSettled (to_add_module g f n v) = IsDeclared v
IsSettled (to_rename_child g n m) = ⊥
IsSettled (to_move_child g n h) = ⊥
IsSettled (to_copy_child g n h) = ⊥
IsSettled a = Unit {0}

-- Every edit that gives no node another path keeps what a document can hold: no alias, property,
-- assigned path or shared configuration stands twice, a period belongs to a throttled thread, and the
-- versions can be written. A version that is asked for has to be one that can be written.
pub perform-IsValid :
    (p : Project) (a : Action) → IsConfig p.cfg → IsSettled a → IsValid (perform p a)
unfolding perform
perform-IsValid p (to_add_module g f n v) valid h = add_module-IsValid p valid g f n v h
perform-IsValid p (to_add_group g n) valid h = add_group-IsValid p valid g n
perform-IsValid p (to_remove_children g ns) valid h = remove_children-IsValid p valid g ns
perform-IsValid p (to_rename_child g n m) valid h = absurd h
perform-IsValid p (to_move_child g n k) valid h = absurd h
perform-IsValid p (to_copy_child g n k) valid h = absurd h
perform-IsValid p (to_connect g f t) valid h = connect-IsValid p valid g f t
perform-IsValid p (to_disconnect g i) valid h = disconnect-IsValid p valid g i
perform-IsValid p (to_set_property g n k v) valid h = set_property-IsValid p valid g n k v
perform-IsValid p (to_clear_property g n k) valid h = clear_property-IsValid p valid g n k
perform-IsValid p (to_set_config g n v) valid h = set_config-IsValid p valid g n v
perform-IsValid p (to_clear_config g n) valid h = clear_config-IsValid p valid g n
perform-IsValid p (to_set_shared_config n v) valid h = set_shared_config-IsValid p valid n v
perform-IsValid p (to_clear_shared_config n) valid h = clear_shared_config-IsValid p valid n
perform-IsValid p (to_set_expose i g a t) valid h = set_expose-IsValid p valid i g a t
perform-IsValid p (to_remove_expose i g a) valid h = remove_expose-IsValid p valid i g a
perform-IsValid p (to_rename_expose i g a b) valid h = rename_expose-IsValid p valid i g a b
perform-IsValid p (to_add_thread n m t) valid h = add_thread-IsValid p valid n m t
perform-IsValid p (to_remove_thread n) valid h = remove_thread-IsValid p valid n
perform-IsValid p (to_set_thread n m t) valid h = set_thread-IsValid p valid n m t
perform-IsValid p (to_set_assignment g t) valid h = set_assignment-IsValid p valid g t
perform-IsValid p (to_clear_assignment g) valid h = clear_assignment-IsValid p valid g
perform-IsValid p (to_add_plugin f) valid h = add_plugin-IsValid p valid f
perform-IsValid p (to_remove_plugin f) valid h = remove_plugin-IsValid p valid f

perform-IsConfig :
    (p q : Project) (a : Action)
    → IsConfig p.cfg
    → IsSettled a
    → perform p a ≡ ok q
    → IsConfig q.cfg
unfolding IsValid
perform-IsConfig p q a valid settled h = subst IsValid h (perform-IsValid p a valid settled)

-- A version that is asked for can be written.
abbrev pub IsWritable : Action → Type 0
IsWritable (to_add_module g f n v) = IsDeclared v
IsWritable a = Unit {0}

edit-IsConfig :
    (p q : Project) (a : Action)
    → IsConfig p.cfg
    → IsWritable a
    → DistinctKeys q.cfg.assignments
    → perform p a ≡ ok q
    → IsConfig q.cfg
unfolding perform
edit-IsConfig p q (to_rename_child g n m) valid w distinct h =
    rename_child-IsConfig p q distinct valid g n m h
edit-IsConfig p q (to_move_child g n k) valid w distinct h =
    move_child-IsConfig p q distinct valid g n k h
edit-IsConfig p q (to_copy_child g n k) valid w distinct h =
    copy_child-IsConfig p q distinct valid g n k h
edit-IsConfig p q a valid w distinct h = perform-IsConfig p q a valid w h

-- An edit outside of an `edit_scope`, of a project that a document can hold, where a version that is
-- asked for can be written and no assigned path stands twice after the edit: it leaves the whole project
-- as it was; or `undo` answers true and gives the configuration and the undo list from before the edit,
-- and `redo` after that answers true and gives the project from after the edit. In both, the outermost
-- group is called "root", and the positions stay as the edit left them.
pub undo-perform :
    (p q : Project) (a : Action)
    → p.batch_depth ≡ 0
    → IsConfig p.cfg
    → IsWritable a
    → DistinctKeys q.cfg.assignments
    → perform p a ≡ ok q
    → (q ≡ p)
      ⊎ ((undo q ≡ (
        record q { cfg = rooted p.cfg; undos = p.undos; redos = encode q.cfg ∷ [] },
        ok true,
      ))
          × (redo (record q { cfg = rooted p.cfg; undos = p.undos; redos = encode q.cfg ∷ [] })
              ≡ (record q { cfg = rooted q.cfg }, ok true)))
undo-perform p q a outside valid writable distinct h = elim (performed p q a h) [
  | inl same ↦ inl same
  | inr recorded ↦ inr (
    undo-IsRecorded p q outside recorded valid,
    redo-IsRecorded p q outside recorded (edit-IsConfig p q a valid writable distinct h),
  )
]

Performs-Runs :
    (p q : Project) (actions : List Action)
    → IsConfig p.cfg
    → All IsSettled actions
    → Performs p actions q
    → Runs p actions q × IsConfig q.cfg
Performs-Runs p q [] valid settled same = (same, subst (λ (r : Project). IsConfig r.cfg) same valid)
Performs-Runs p q (a ∷ rest) valid settled (r, done, run) =
    let (runs, last) =
      Performs-Runs r q rest (perform-IsConfig p r a valid settled.0 done) settled.1 run in
    ((valid, (r, done, runs)), last)

-- Whatever edits a session makes outside of an `edit_scope`, from a project that a document can hold:
-- some number of undos, at most one for each edit, all succeed and lead to a project with the document
-- and the undo list of the start. The edits give no node another path, and a version that is asked for
-- can be written.
pub session-undone :
    (p q : Project) (actions : List Action)
    → p.batch_depth ≡ 0
    → IsConfig p.cfg
    → All IsSettled actions
    → Performs p actions q
    → UndoneTo p (length actions) q
session-undone p q actions outside valid settled run =
    undo_times-perform p q actions outside (Performs-Runs p q actions valid settled run).0
