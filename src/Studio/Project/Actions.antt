-- ===== src/Studio/Project/Actions.antt =====
-- src/studio/include/atp/studio/project.hpp: the editing operations as one type, and what each of them
-- does to the history.
use ani_tools_platform.Prelude.{ℕ, Bool, List, Option, Text, Result, ok, ◌>>=◌}
use ani_tools_platform.Prelude.Int.{ℤ}
use ani_tools_platform.Version.{Version}
use ani_tools_platform.Runtime.Runner.{ThreadMode}
use ani_tools_platform.Config.Node.{Node}
use ani_tools_platform.Studio.Lookup.{EditError}
use ani_tools_platform.Studio.Project.{Project}
use ani_tools_platform.Studio.Project.Children.{
  add_module, add_group, remove_children, rename_child,
}
use ani_tools_platform.Studio.Project.Moves.{move_child, copy_child}
use ani_tools_platform.Studio.Project.Ports.{
  connect, disconnect, set_expose, remove_expose, rename_expose,
}
use ani_tools_platform.Studio.Project.Settings.{
  set_property, clear_property, set_config, clear_config, set_shared_config, clear_shared_config,
}
use ani_tools_platform.Studio.Project.Threads.{
  add_thread, remove_thread, set_thread, set_assignment, clear_assignment, add_plugin,
  remove_plugin,
}

pub data Action : Type 0 where
  to_add_module : Text → Text → Text → Option Version → Action
  to_add_group : Text → Text → Action
  to_remove_children : Text → List Text → Action
  to_rename_child : Text → Text → Text → Action
  to_move_child : Text → Text → Text → Action
  to_copy_child : Text → Text → Text → Action
  to_connect : Text → Text → Text → Action
  to_disconnect : Text → ℕ → Action
  to_set_property : Text → Text → Text → Node → Action
  to_clear_property : Text → Text → Text → Action
  to_set_config : Text → Text → Node → Action
  to_clear_config : Text → Text → Action
  to_set_shared_config : Text → Node → Action
  to_clear_shared_config : Text → Action
  to_set_expose : Bool → Text → Text → Text → Action
  to_remove_expose : Bool → Text → Text → Action
  to_rename_expose : Bool → Text → Text → Text → Action
  to_add_thread : Text → ThreadMode → ℤ → Action
  to_remove_thread : Text → Action
  to_set_thread : Text → ThreadMode → ℤ → Action
  to_set_assignment : Text → Text → Action
  to_clear_assignment : Text → Action
  to_add_plugin : Text → Action
  to_remove_plugin : Text → Action

abbrev first_of : {A : Type 0} → Result EditError (Project × A) → Result EditError Project
first_of call = call >>= λ r. ok r.0

unfoldable pub perform : Project → Action → Result EditError Project
unfolding add_module add_group remove_children rename_child move_child copy_child connect disconnect
    set_expose remove_expose rename_expose set_property clear_property set_config clear_config
    set_shared_config clear_shared_config add_thread remove_thread set_thread set_assignment
    clear_assignment add_plugin remove_plugin
perform p (to_add_module g f n v) = add_module p g f n v
perform p (to_add_group g n) = add_group p g n
perform p (to_remove_children g ns) = remove_children p g ns
perform p (to_rename_child g n m) = rename_child p g n m
perform p (to_move_child g n h) = first_of (move_child p g n h)
perform p (to_copy_child g n h) = first_of (copy_child p g n h)
perform p (to_connect g f t) = connect p g f t
perform p (to_disconnect g i) = disconnect p g i
perform p (to_set_property g n k v) = set_property p g n k v
perform p (to_clear_property g n k) = clear_property p g n k
perform p (to_set_config g n v) = set_config p g n v
perform p (to_clear_config g n) = clear_config p g n
perform p (to_set_shared_config n v) = set_shared_config p n v
perform p (to_clear_shared_config n) = ok (clear_shared_config p n)
perform p (to_set_expose i g a t) = set_expose i p g a t
perform p (to_remove_expose i g a) = remove_expose i p g a
perform p (to_rename_expose i g a b) = rename_expose i p g a b
perform p (to_add_thread n m t) = add_thread p n m t
perform p (to_remove_thread n) = remove_thread p n
perform p (to_set_thread n m t) = set_thread p n m t
perform p (to_set_assignment g t) = set_assignment p g t
perform p (to_clear_assignment g) = ok (clear_assignment p g)
perform p (to_add_plugin f) = add_plugin p f
perform p (to_remove_plugin f) = remove_plugin p f
