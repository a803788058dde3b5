-- ===== src/Studio/Cascade.antt =====
-- src/studio/include/atp/studio/expose_cascade.hpp: what follows when an exported alias of a group
-- disappears or is renamed.
pub mod Fuel
use ani_tools_platform.Prelude.{
  ℕ, zero, suc, ◌+◌, ◌-◌, Bool, true, false, not, ◌&&◌, ◌||◌, List, [], ◌∷◌, ◌++◌, map, Option,
  none, some, length, Text, text_eq, Result, ok, err, ◌>>=◌, if◌then◌else◌,
}
use ani_tools_platform.Config.Model.{
  ConnectionNode, GroupPorts, ChildNode, module_child, group_child, GroupNode, group_node,
  ChildNodes, no_children, child, group_name, modules, ports,
}
use ani_tools_platform.Config.Validate.Values.{starts_with}
use ani_tools_platform.Studio.NodeRef.{NodeRef, is_empty, parse, strip_prefix}
use ani_tools_platform.Studio.Lookup.{
  EditError, no_child, no_port, segments_of, subgroup, find_group, split_port_path, find_child,
}

-- A change of the first subgroup of that name, and of the group at a path: the mutable pointer that
-- `find_group` answers.
unfoldable pub set_subgroup : Text → GroupNode → ChildNodes → ChildNodes
set_subgroup name h no_children = no_children
set_subgroup name h (child (module_child m) cs) = child (module_child m) (set_subgroup name h cs)
set_subgroup name h (child (group_child g) cs) =
    let rest = child (group_child g) (set_subgroup name h cs) in
    if text_eq (group_name g) name then child (group_child h) cs else rest

unfoldable pub change_at : List Text → (GroupNode → GroupNode) → GroupNode → GroupNode
unfolding set_subgroup subgroup
change_at [] f g = f g
change_at (s ∷ ss) f g = elim (subgroup s (modules g)) [
  | none ↦ g
  | some h ↦ group_node (group_name g) (set_subgroup s (change_at ss f h) (modules g)) (ports g)
]

unfoldable pub change_group : Text → (GroupNode → GroupNode) → GroupNode → GroupNode
unfolding change_at segments_of
change_group path f root = change_at (segments_of path) f root

abbrev pub with_ports : (GroupPorts → GroupPorts) → GroupNode → GroupNode
with_ports f (group_node name cs p) = group_node name cs (f p)

unfoldable pub has_alias : Text → List (Text × Text) → Bool
has_alias alias [] = false
has_alias alias ((a, path) ∷ es) = if text_eq a alias then true else has_alias alias es

abbrev pub aliases : Bool → GroupPorts → List (Text × Text)
aliases true p = p.expose_inputs
aliases false p = p.expose_outputs

-- Whether a subgroup exports the port; the ports of a module are not known here.
unfoldable exports : Bool → ChildNode → Text → Result EditError (Unit {0})
unfolding has_alias
exports input (module_child m) port = ok tt
exports input (group_child g) port =
    if has_alias port (aliases input (ports g)) then ok tt else err no_port

unfoldable pub require_port : GroupNode → Text → Bool → Result EditError (Unit {0})
unfolding split_port_path find_child exports
require_port g port_path input = split_port_path port_path >>= λ parts.
    elim (find_child (modules g) parts.0) [ none ↦ err no_child | some c ↦ exports input c parts.1 ]

pub record LostAliases : Type 0 where
  pub inputs : List Text
  pub outputs : List Text

abbrev pub is_nil : List Text → Bool
is_nil [] = true
is_nil (x ∷ xs) = false

abbrev pub none_lost : LostAliases → Bool
none_lost lost = is_nil lost.inputs && is_nil lost.outputs

abbrev pub count_lost : LostAliases → ℕ
count_lost lost = length lost.inputs + length lost.outputs

pub record CascadeCount : Type 0 where
  pub exposes : ℕ
  pub connections : ℕ

abbrev pub no_count : CascadeCount
no_count = record { exposes = 0; connections = 0 }

-- `std::erase_if` on a list of aliases by their targets: what stays, and the aliases that went.
unfoldable pub keep : (Text → Bool) → List (Text × Text) → List (Text × Text)
keep gone [] = []
keep gone ((alias, path) ∷ es) =
    let rest = keep gone es in if gone path then rest else (alias, path) ∷ rest

unfoldable pub lose : (Text → Bool) → List (Text × Text) → List Text
lose gone [] = []
lose gone ((alias, path) ∷ es) = let rest = lose gone es in if gone path then alias ∷ rest else rest

unfoldable pub erase_connections :
    (ConnectionNode → Bool) → List ConnectionNode → List ConnectionNode
erase_connections gone [] = []
erase_connections gone (c ∷ cs) =
    let rest = erase_connections gone cs in if gone c then rest else c ∷ rest

unfoldable pub take_exports_of : Text → GroupPorts → GroupPorts × LostAliases
unfolding keep lose starts_with
take_exports_of prefix p = (
  record p {
    expose_inputs = keep (starts_with prefix) p.expose_inputs;
    expose_outputs = keep (starts_with prefix) p.expose_outputs;
  },
  record {
    inputs = lose (starts_with prefix) p.expose_inputs;
    outputs = lose (starts_with prefix) p.expose_outputs;
  },
)

-- Whether a path of the parent is '<self>.<alias>' for one of the aliases.
unfoldable pub refers : Text → List Text → Text → Bool
refers self [] path = false
refers self (alias ∷ rest) path =
    if text_eq path (self ++ b'.' ∷ alias) then true else refers self rest path

unfoldable pub refers_connection : Text → LostAliases → ConnectionNode → Bool
unfolding refers
refers_connection self lost c = refers self lost.outputs c.from || refers self lost.inputs c.to

-- A round of the cascade in the parent: its ports, and what it loses itself.
unfoldable pub drop_references : Text → LostAliases → GroupPorts → GroupPorts × LostAliases
unfolding keep lose erase_connections refers
drop_references self lost p = (
  record {
    expose_inputs = keep (refers self lost.inputs) p.expose_inputs;
    expose_outputs = keep (refers self lost.outputs) p.expose_outputs;
    connections =
        erase_connections (λ c. refers self lost.outputs c.from || refers self lost.inputs c.to)
          p.connections;
  },
  record {
    inputs = lose (refers self lost.inputs) p.expose_inputs;
    outputs = lose (refers self lost.outputs) p.expose_outputs;
  },
)

abbrev pub add_count : CascadeCount → GroupPorts → GroupPorts → LostAliases → CascadeCount
add_count n before after next = record {
  exposes = n.exposes + count_lost next;
  connections = n.connections + (length before.connections - length after.connections);
}

unfoldable pub cascade :
    ℕ → GroupNode → Text → LostAliases → CascadeCount → GroupNode × CascadeCount
unfolding drop_references find_group change_group parse
cascade zero root path lost n = (root, n)
cascade (suc fuel) root path lost n =
    if is_empty path || none_lost lost
    then (root, n)
    else elim (find_group root (parse path).group) [
      | none ↦ (root, n)
      | some parent ↦
          let dropped = drop_references (parse path).name lost (ports parent) in
          cascade fuel (change_group (parse path).group (with_ports (λ p. dropped.0)) root)
            (parse path).group dropped.1 (add_count n (ports parent) dropped.0 dropped.1)
    ]

-- The path gets shorter in each round, so as many rounds as it has characters are enough.
unfoldable pub cascade_lost_aliases : GroupNode → Text → LostAliases → GroupNode × CascadeCount
unfolding cascade
cascade_lost_aliases root path lost = cascade (length path) root path lost no_count

unfoldable pub rename_target : Text → Text → List (Text × Text) → List (Text × Text)
rename_target was now [] = []
rename_target was now ((alias, path) ∷ es) =
    (alias, if text_eq path was then now else path) ∷ rename_target was now es

abbrev rename_end : Bool → Text → Text → ConnectionNode → ConnectionNode
rename_end true was now c = record c { to = if text_eq c.to was then now else c.to }
rename_end false was now c = record c { from = if text_eq c.from was then now else c.from }

unfoldable pub rename_aliases : Bool → Text → Text → GroupPorts → GroupPorts
unfolding rename_target
rename_aliases true was now p = record p { expose_inputs = rename_target was now p.expose_inputs }
rename_aliases false was now p = record p {
  expose_outputs = rename_target was now p.expose_outputs;
}

unfoldable pub rename_references : Bool → Text → Text → GroupPorts → GroupPorts
unfolding rename_aliases
rename_references input was now p = record (rename_aliases input was now p) {
  connections = map (rename_end input was now) p.connections;
}

unfoldable pub rewrite_alias_above : GroupNode → Text → Text → Text → Bool → GroupNode
unfolding find_group change_group rename_references parse
rewrite_alias_above root path old_alias new_alias input =
    let self = parse path in
    if is_empty path then root else elim (find_group root self.group) [
      | none ↦ root
      | some parent ↦
          change_group self.group
            (with_ports (
              rename_references input (self.name ++ b'.' ∷ old_alias)
                (self.name ++ b'.' ∷ new_alias)))
            root
    ]

abbrev pub moved : Option Text → Text → Text → Text
moved none path new_full = path
moved (some rest) path new_full = new_full ++ b'.' ∷ rest

unfoldable pub rewrite_full_path : Text → Text → Text → Text
unfolding strip_prefix
rewrite_full_path old_full new_full path =
    if text_eq path old_full
    then new_full
    else moved (strip_prefix (old_full ++ b'.' ∷ []) path) path new_full
