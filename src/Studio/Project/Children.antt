-- ===== src/Studio/Project/Children.antt =====
-- src/studio/include/atp/studio/project.hpp: adding, removing, renaming, moving and copying children.
use ani_tools_platform.Prelude.{
  Bool, not, ◌||◌, List, [], ◌∷◌, ◌++◌, map, Option, none, some, Text, text_eq, Result, ok, err,
  ◌>>=◌, ◌>>◌, guard, if◌then◌else◌,
}
use ani_tools_platform.Prelude.Assoc.{put, name_eq}
use ani_tools_platform.Version.{Version}
use ani_tools_platform.Config.Model.{
  ConnectionNode, GroupPorts, ChildNode, module_child, group_child, GroupNode, group_node,
  ChildNodes, no_children, child, no_ports, modules, ports,
}
use ani_tools_platform.Config.Validate.Values.{starts_with}
use ani_tools_platform.Studio.NodeRef.{full}
use ani_tools_platform.Studio.Lookup as Lookup
use ani_tools_platform.Studio.Lookup.{
  EditError, duplicate_child, same_group, own_subtree, check_name, child_name, find_child,
  clone_child, taken, unique_child_name, rewrite_port_prefix, find_group,
}
use ani_tools_platform.Studio.Cascade.{
  with_ports, take_exports_of, erase_connections, LostAliases, cascade_lost_aliases,
  rewrite_full_path,
}
use ani_tools_platform.Studio.Project.{
  Project, Position, commit, commit_placed, open_scope, close_scope, require_group, change_pipeline,
}
use ani_tools_platform.Studio.Project.Settings.{change_child}

unfoldable pub push_back : ChildNode → ChildNodes → ChildNodes
push_back c no_children = child c no_children
push_back c (child d cs) = child d (push_back c cs)

abbrev pub with_modules : (ChildNodes → ChildNodes) → GroupNode → GroupNode
with_modules f (group_node name cs p) = group_node name (f cs) p

unfoldable pub append : ChildNode → GroupNode → GroupNode
unfolding push_back
append c = with_modules (push_back c)

unfoldable pub require_free_name : GroupNode → Text → Result EditError (Unit {0})
unfolding taken
require_free_name g name = guard (not (taken (modules g) name)) duplicate_child

-- `config_error` where there is no such child.
unfoldable pub require_child : GroupNode → Text → Result EditError ChildNode
unfolding find_child
require_child g name = elim (find_child (modules g) name) [
  | none ↦ err Lookup.no_child
  | some c ↦ ok c
]

abbrev pub name_or : Text → Text → Text
name_or [] factory = factory
name_or (c ∷ cs) factory = c ∷ cs

unfoldable pub add_module : Project → Text → Text → Text → Option Version → Result EditError Project
unfolding require_group require_free_name append change_pipeline commit
add_module p group_path factory name factory_version = require_group p.cfg group_path >>= λ g.
    check_name (name_or name factory)
    >> require_free_name g (name_or name factory)
    >> ok (
        commit p (
          change_pipeline group_path
            (append (
              module_child (record {
                factory = factory;
                name = name_or name factory;
                factory_version = factory_version;
                properties = [];
                config = none;
              })))
            p.cfg))

unfoldable pub add_group : Project → Text → Text → Result EditError Project
unfolding require_group require_free_name append change_pipeline commit
add_group p group_path name = require_group p.cfg group_path >>= λ g.
    check_name name
    >> require_free_name g name
    >> ok (
        commit p (
          change_pipeline group_path (append (group_child (group_node name no_children no_ports)))
            p.cfg))

-- Whether a path is the node's or leads into it.
unfoldable pub is_under : Text → Text → Bool
unfolding starts_with
is_under node path = text_eq path node || starts_with (node ++ b'.' ∷ []) path

unfoldable pub erase_under {ℓ} : {A : Type ℓ} → Text → List (Text × A) → List (Text × A)
unfolding is_under
erase_under node [] = []
erase_under node ((path, a) ∷ es) =
    let rest = erase_under node es in if is_under node path then rest else (path, a) ∷ rest

unfoldable pub erase_named : Text → ChildNodes → ChildNodes
erase_named name no_children = no_children
erase_named name (child c cs) =
    let rest = erase_named name cs in if text_eq (child_name c) name then rest else child c rest

unfoldable pub touches : Text → ConnectionNode → Bool
unfolding starts_with
touches name c = starts_with (name ++ b'.' ∷ []) c.from || starts_with (name ++ b'.' ∷ []) c.to

-- What a child leaves behind in the ports of its group: what stays, and the aliases that are lost.
unfoldable pub detach_ports : Text → GroupPorts → GroupPorts × LostAliases
unfolding take_exports_of erase_connections touches
detach_ports name q =
    take_exports_of (name ++ b'.' ∷ [])
      (record q { connections = erase_connections (touches name) q.connections })

unfoldable pub remove_one_child : Text → Text → Project → Result EditError Project
unfolding require_group erase_under erase_named detach_ports change_pipeline cascade_lost_aliases
    full
remove_one_child group_path name p = require_group p.cfg group_path >>= λ g.
    let node = full (record { group = group_path; name = name }) in
    let cut =
      change_pipeline group_path
        (λ (h : GroupNode).
          with_ports (λ q. (detach_ports name q).0) (with_modules (erase_named name) h))
        p.cfg in
    ok (record p {
      cfg = record cut {
        pipeline = (cascade_lost_aliases cut.pipeline group_path (detach_ports name (ports g)).1).0;
        assignments = erase_under node p.cfg.assignments;
      };
      positions = erase_under node p.positions;
    })

unfoldable pub require_children : GroupNode → List Text → Result EditError (Unit {0})
unfolding require_child
require_children g [] = ok tt
require_children g (name ∷ names) = require_child g name >>= λ c. require_children g names

unfoldable pub remove_each : Text → List Text → Project → Result EditError Project
unfolding remove_one_child
remove_each group_path [] p = ok p
remove_each group_path (name ∷ names) p =
    remove_one_child group_path name p >>= remove_each group_path names

unfoldable pub remove_children : Project → Text → List Text → Result EditError Project
unfolding require_group require_children remove_each open_scope
remove_children p group_path [] = require_group p.cfg group_path >>= λ g. ok p
remove_children p group_path (name ∷ names) = require_group p.cfg group_path >>= λ g.
    require_children g (name ∷ names)
    >> (remove_each group_path (name ∷ names) (open_scope p) >>= λ q. ok (close_scope q))

unfoldable pub remove_child : Project → Text → Text → Result EditError Project
unfolding remove_children
remove_child p group_path name = remove_children p group_path (name ∷ [])

abbrev pub set_name : Text → ChildNode → ChildNode
set_name name (module_child m) = module_child (record m { name = name })
set_name name (group_child (group_node n cs q)) = group_child (group_node name cs q)

unfoldable pub rename_targets : Text → Text → List (Text × Text) → List (Text × Text)
unfolding rewrite_port_prefix
rename_targets old_name new_name [] = []
rename_targets old_name new_name ((alias, path) ∷ es) =
    (alias, rewrite_port_prefix path old_name new_name) ∷ rename_targets old_name new_name es

unfoldable pub rename_connection : Text → Text → ConnectionNode → ConnectionNode
unfolding rewrite_port_prefix
rename_connection old_name new_name c = record {
  from = rewrite_port_prefix c.from old_name new_name;
  to = rewrite_port_prefix c.to old_name new_name;
}

unfoldable pub rename_ports : Text → Text → GroupPorts → GroupPorts
unfolding rename_targets rename_connection
rename_ports old_name new_name q = record {
  expose_inputs = rename_targets old_name new_name q.expose_inputs;
  expose_outputs = rename_targets old_name new_name q.expose_outputs;
  connections = map (rename_connection old_name new_name) q.connections;
}

-- The thread assignments, whose list stays in its order.
unfoldable pub move_paths : Text → Text → List (Text × Text) → List (Text × Text)
unfolding rewrite_full_path
move_paths old_full new_full [] = []
move_paths old_full new_full ((path, thread) ∷ es) =
    (rewrite_full_path old_full new_full path, thread) ∷ move_paths old_full new_full es

-- The positions, which go into a new map one by one.
unfoldable pub move_positions :
    Text → Text → List (Text × Position) → List (Text × Position) → List (Text × Position)
unfolding rewrite_full_path put
move_positions old_full new_full [] made = made
move_positions old_full new_full ((path, at) ∷ es) made =
    move_positions old_full new_full es (put (rewrite_full_path old_full new_full path) at made)

unfoldable pub rename_child : Project → Text → Text → Text → Result EditError Project
unfolding require_group require_child require_free_name change_child rename_ports move_paths
    move_positions change_pipeline commit_placed full
rename_child p group_path old_name new_name = require_group p.cfg group_path >>= λ g.
    require_child g old_name >>= λ c.
    let old_full = full (record { group = group_path; name = old_name }) in
    let new_full = full (record { group = group_path; name = new_name }) in
    let renamed =
      change_pipeline group_path
        (λ (h : GroupNode).
          with_ports (rename_ports old_name new_name)
            (with_modules (change_child old_name (set_name new_name)) h))
        p.cfg in
    check_name new_name
    >> (if text_eq new_name old_name then ok tt else require_free_name g new_name)
    >> ok (
        commit_placed p
          (record renamed { assignments = move_paths old_full new_full p.cfg.assignments })
          (move_positions old_full new_full p.positions []))
