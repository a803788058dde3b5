-- ===== src/Studio/Project/Moves.antt =====
-- src/studio/include/atp/studio/project.hpp: moving and copying children.
use ani_tools_platform.Prelude.{
  ℕ, ◌+◌, ◌-◌, not, List, [], ◌∷◌, ◌++◌, none, some, length, Text, text_eq, Result, ok, ◌>>=◌, ◌>>◌,
  guard, if◌then◌else◌,
}
use ani_tools_platform.Prelude.Assoc.{lookup, put, name_eq}
use ani_tools_platform.Config.Model.{
  ChildNode, GroupNode, ChildNodes, no_children, child, Config, modules, ports,
}
use ani_tools_platform.Studio.NodeRef.{full, contains}
use ani_tools_platform.Studio.Lookup.{
  EditError, same_group, own_subtree, child_name, clone_child, unique_child_name,
}
use ani_tools_platform.Studio.Cascade.{
  with_ports, count_lost, CascadeCount, cascade_lost_aliases, rewrite_full_path,
}
use ani_tools_platform.Studio.Project.{
  Project, Position, commit_placed, require_group, change_pipeline,
}
use ani_tools_platform.Studio.Project.Children.{
  append, with_modules, require_child, is_under, detach_ports, set_name, move_paths, move_positions,
}

pub record MoveResult : Type 0 where
  pub new_name : Text
  pub dropped_connections : ℕ
  pub dropped_exposes : ℕ

-- The loop of `unique_child_name` always finds a name.
unfoldable free_name : ChildNodes → Text → Text
unfolding unique_child_name
free_name cs base = elim (unique_child_name cs base) [ none ↦ base | some name ↦ name ]

-- The first child of the name goes.
unfoldable pub take_out : Text → ChildNodes → ChildNodes
take_out name no_children = no_children
take_out name (child c cs) =
    let rest = child c (take_out name cs) in if text_eq (child_name c) name then cs else rest

-- The configuration behind a move, and what the cascade removed.
unfoldable pub moved_config :
    Config → Text → Text → Text → GroupNode → ChildNode → Text → Config × CascadeCount
unfolding append detach_ports take_out move_paths change_pipeline cascade_lost_aliases full
moved_config cfg from_group name to_group from c new_name = (
  record there {
    pipeline = cascaded.0;
    assignments = move_paths old_full new_full cfg.assignments;
  },
  cascaded.1,
)
  where
    old_full : Text
    old_full = full (record { group = from_group; name = name })

    new_full : Text
    new_full = full (record { group = to_group; name = new_name })

    gone : Config
    gone =
        change_pipeline from_group
          (λ (h : GroupNode).
            with_ports (λ q. (detach_ports name q).0) (with_modules (take_out name) h))
          cfg

    there : Config
    there = change_pipeline to_group (append (set_name new_name c)) gone

    cascaded : GroupNode × CascadeCount
    cascaded = cascade_lost_aliases there.pipeline from_group (detach_ports name (ports from)).1

unfoldable pub move_child : Project → Text → Text → Text → Result EditError (Project × MoveResult)
unfolding require_group require_child contains free_name moved_config move_positions detach_ports
    commit_placed full
move_child p from_group name to_group = require_group p.cfg from_group >>= λ from.
    require_child from name >>= λ c.
    guard (not (text_eq from_group to_group)) same_group
    >> guard (not (contains (record { group = from_group; name = name }) to_group)) own_subtree
    >> (require_group p.cfg to_group >>= λ to.
        let new_name = free_name (modules to) name in
        let detached = detach_ports name (ports from) in
        let after = moved_config p.cfg from_group name to_group from c new_name in
        ok (
          commit_placed p after.0 (
              move_positions (full (record { group = from_group; name = name }))
                (full (record { group = to_group; name = new_name })) p.positions []),
          record {
            new_name = new_name;
            dropped_connections =
                (length (ports from).connections - length detached.0.connections)
                + after.1.connections;
            dropped_exposes = count_lost detached.1 + after.1.exposes;
          },
        ))

-- The entries of a subtree again, under the path of its copy.
unfoldable pub copy_paths : Text → Text → List (Text × Text) → List (Text × Text)
unfolding is_under rewrite_full_path
copy_paths old_full new_full [] = []
copy_paths old_full new_full ((path, thread) ∷ es) =
    let rest = copy_paths old_full new_full es in
    if is_under old_full path
    then (rewrite_full_path old_full new_full path, thread) ∷ rest
    else rest

unfoldable pub copy_positions :
    Text → Text → List (Text × Position) → List (Text × Position) → List (Text × Position)
unfolding is_under rewrite_full_path put
copy_positions old_full new_full [] made = made
copy_positions old_full new_full ((path, at) ∷ es) made = copy_positions old_full new_full es (
    if is_under old_full path then put (rewrite_full_path old_full new_full path) at made else made)

-- `std::map::insert` of a range: a key that is there keeps its value.
unfoldable pub insert_all : List (Text × Position) → List (Text × Position) → List (Text × Position)
unfolding lookup
insert_all [] m = m
insert_all ((path, at) ∷ es) m =
    insert_all es (elim (lookup path m) [ none ↦ m ++ (path, at) ∷ [] | some there ↦ m ])

unfoldable pub copy_child : Project → Text → Text → Text → Result EditError (Project × Text)
unfolding require_group require_child free_name clone_child append copy_paths copy_positions
    insert_all change_pipeline commit_placed full
copy_child p from_group name to_group = require_group p.cfg from_group >>= λ from.
    require_child from name >>= λ c. require_group p.cfg to_group >>= λ to.
    let new_name = free_name (modules to) name in
    let old_full = full (record { group = from_group; name = name }) in
    let new_full = full (record { group = to_group; name = new_name }) in
    let there = change_pipeline to_group (append (set_name new_name (clone_child c))) p.cfg in
    ok (
      commit_placed p
          (record there {
            assignments = p.cfg.assignments ++ copy_paths old_full new_full p.cfg.assignments;
          })
          (insert_all (copy_positions old_full new_full p.positions []) p.positions),
      new_name,
    )
