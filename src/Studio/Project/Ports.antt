-- ===== src/Studio/Project/Ports.antt =====
-- src/studio/include/atp/studio/project.hpp: connections and exported ports.
use ani_tools_platform.Prelude.{
  ℕ, zero, suc, Bool, true, false, not, ◌&&◌, List, [], ◌∷◌, ◌++◌, Text, text_eq, length, Result,
  ok, ◌>>=◌, ◌>>◌, guard, if◌then◌else◌, ltb,
}
use ani_tools_platform.Prelude.Assoc.{put, erase, name_eq}
use ani_tools_platform.Config.Model.{ConnectionNode, GroupPorts, ports}
use ani_tools_platform.Studio.Lookup.{
  EditError, no_alias, no_connection, duplicate_connection, duplicate_alias, check_name,
}
use ani_tools_platform.Studio.Cascade.{
  with_ports, has_alias, aliases, require_port, LostAliases, cascade_lost_aliases,
  rewrite_alias_above,
}
use ani_tools_platform.Studio.Project.{Project, commit, require_group, change_pipeline}

unfoldable pub has_connection : Text → Text → List ConnectionNode → Bool
has_connection from to [] = false
has_connection from to (c ∷ cs) =
    if text_eq c.from from && text_eq c.to to then true else has_connection from to cs

unfoldable pub connect : Project → Text → Text → Text → Result EditError Project
unfolding require_group require_port has_connection change_pipeline commit
connect p group_path from to = require_group p.cfg group_path >>= λ g.
    require_port g from false
    >> require_port g to true
    >> guard (not (has_connection from to (ports g).connections)) duplicate_connection
    >> ok (
        commit p (
          change_pipeline group_path
            (with_ports
              λ q. record q { connections = q.connections ++ record { from = from; to = to } ∷ [] })
            p.cfg))

unfoldable pub remove_nth : ℕ → List ConnectionNode → List ConnectionNode
remove_nth i [] = []
remove_nth zero (c ∷ cs) = cs
remove_nth (suc i) (c ∷ cs) = c ∷ remove_nth i cs

unfoldable pub disconnect : Project → Text → ℕ → Result EditError Project
unfolding require_group remove_nth change_pipeline commit
disconnect p group_path index = require_group p.cfg group_path >>= λ g.
    guard (ltb index (length (ports g).connections)) no_connection
    >> ok (
        commit p (
          change_pipeline group_path
            (with_ports λ q. record q { connections = remove_nth index q.connections }) p.cfg))

-- A change of the aliases of one direction.
abbrev pub with_aliases : Bool → (List (Text × Text) → List (Text × Text)) → GroupPorts → GroupPorts
with_aliases true f q = record q { expose_inputs = f q.expose_inputs }
with_aliases false f q = record q { expose_outputs = f q.expose_outputs }

-- `set_expose_input` and `set_expose_output`.
unfoldable pub set_expose : Bool → Project → Text → Text → Text → Result EditError Project
unfolding require_group require_port put change_pipeline commit
set_expose input p group_path alias port_path = require_group p.cfg group_path >>= λ g.
    check_name alias
    >> require_port g port_path input
    >> ok (
        commit p (
          change_pipeline group_path (with_ports (with_aliases input (put alias port_path))) p.cfg))

abbrev pub lost_alias : Bool → Text → LostAliases
lost_alias true alias = record { inputs = alias ∷ []; outputs = [] }
lost_alias false alias = record { inputs = []; outputs = alias ∷ [] }

-- `remove_expose_input` and `remove_expose_output`.
unfoldable pub remove_expose : Bool → Project → Text → Text → Result EditError Project
unfolding require_group has_alias erase cascade_lost_aliases change_pipeline commit
remove_expose input p group_path alias = require_group p.cfg group_path >>= λ g.
    let cut = change_pipeline group_path (with_ports (with_aliases input (erase alias))) p.cfg in
    guard (has_alias alias (aliases input (ports g))) no_alias
    >> ok (
        commit p (record cut {
          pipeline = (cascade_lost_aliases cut.pipeline group_path (lost_alias input alias)).0;
        }))

-- The first alias of the name gets the new one.
unfoldable pub rename_key : Text → Text → List (Text × Text) → List (Text × Text)
rename_key alias new_alias [] = []
rename_key alias new_alias ((a, path) ∷ es) =
    let rest = rename_key alias new_alias es in
    if text_eq a alias then (new_alias, path) ∷ es else (a, path) ∷ rest

-- `rename_expose_input` and `rename_expose_output`.
unfoldable pub rename_expose : Bool → Project → Text → Text → Text → Result EditError Project
unfolding require_group has_alias rename_key rewrite_alias_above change_pipeline commit
rename_expose input p group_path alias new_alias = require_group p.cfg group_path >>= λ g.
    let renamed =
      change_pipeline group_path (with_ports (with_aliases input (rename_key alias new_alias)))
        p.cfg in
    check_name new_alias
    >> guard (has_alias alias (aliases input (ports g))) no_alias
    >> (if text_eq new_alias alias
        then ok p
        else (guard (not (has_alias new_alias (aliases input (ports g)))) duplicate_alias
            >> ok (
                commit p (record renamed {
                  pipeline = rewrite_alias_above renamed.pipeline group_path alias new_alias input;
                }))))
