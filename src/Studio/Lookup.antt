-- ===== src/Studio/Lookup.antt =====
-- src/studio/include/atp/studio/node_lookup.hpp: finding and naming nodes of a configuration.
pub mod Names
use ani_tools_platform.Prelude.{
  ℕ, zero, suc, ◌+◌, Bool, true, false, not, ◌&&◌, ◌||◌, List, [], ◌∷◌, ◌++◌, Option, none, some,
  Text, text_eq, codes, Result, ok, err, ◌==◌, if◌then◌else◌,
}
use ani_tools_platform.Version.Decimal.{decimal}
use ani_tools_platform.Runtime.Compose.{cut_at_dot}
use ani_tools_platform.Config.Model.{
  ModuleNode, GroupPorts, ChildNode, module_child, group_child, GroupNode, group_node, ChildNodes,
  no_children, child, group_name, modules,
}
use ani_tools_platform.Config.Validate.Values.{contains, is_name, is_port_path}
use ani_tools_platform.Config.Validate.Document.{split_dots}
use ani_tools_platform.Studio.NodeRef.{is_empty, strip_prefix}

-- What an edit is refused for.
pub data EditError : Type 0 where
  bad_name bad_port_path bad_value bad_period : EditError
  no_group no_child no_module no_port no_alias no_connection no_thread no_plugin : EditError
  duplicate_child duplicate_connection duplicate_alias duplicate_thread : EditError
  same_group own_subtree empty_path : EditError

-- The segments of a path, "" being the root.
unfoldable pub segments_of : Text → List Text
unfolding split_dots
segments_of [] = []
segments_of (c ∷ cs) = split_dots (c ∷ cs)

-- The first of the children that is a group of that name.
unfoldable pub subgroup : Text → ChildNodes → Option GroupNode
subgroup name no_children = none
subgroup name (child (module_child m) cs) = subgroup name cs
subgroup name (child (group_child g) cs) =
    let rest = subgroup name cs in if text_eq (group_name g) name then some g else rest

unfoldable pub find_at : List Text → GroupNode → Option GroupNode
unfolding subgroup
find_at [] g = some g
find_at (s ∷ ss) g = elim (subgroup s (modules g)) [ none ↦ none | some h ↦ find_at ss h ]

unfoldable pub find_group : GroupNode → Text → Option GroupNode
unfolding find_at segments_of
find_group root path = find_at (segments_of path) root

unfoldable pub check_name : Text → Result EditError (Unit {0})
unfolding is_name
check_name name = if is_name name then ok tt else err bad_name

-- The child of a path '<child>.<port>' and its port.
unfoldable pub split_port_path : Text → Result EditError (Text × Text)
unfolding is_port_path cut_at_dot
split_port_path path =
    if is_port_path path
    then elim (cut_at_dot path) [ none ↦ err bad_port_path | some parts ↦ ok parts ]
    else err bad_port_path

abbrev pub child_name : ChildNode → Text
child_name (module_child m) = m.name
child_name (group_child g) = group_name g

unfoldable pub find_child : ChildNodes → Text → Option ChildNode
find_child no_children name = none
find_child (child c cs) name =
    let rest = find_child cs name in if text_eq (child_name c) name then some c else rest

-- The deep copy; a module is a plain value.
unfoldable mutual
  pub clone_child : ChildNode → ChildNode
  clone_child (module_child m) = module_child m
  clone_child (group_child (group_node name cs p)) =
      group_child (group_node name (clone_children cs) p)

  pub clone_children : ChildNodes → ChildNodes
  clone_children no_children = no_children
  clone_children (child c cs) = child (clone_child c) (clone_children cs)

unfoldable pub taken : ChildNodes → Text → Bool
taken no_children name = false
taken (child c cs) name =
    let rest = taken cs name in if text_eq (child_name c) name then true else rest

unfoldable pub candidate : Text → ℕ → Text
unfolding decimal
candidate base i = base ++ b'_' ∷ decimal i

unfoldable pub count_children : ChildNodes → ℕ
count_children no_children = 0
count_children (child c cs) = suc (count_children cs)

-- The loop over the suffixes from `i` on.
unfoldable pub first_free : ℕ → ChildNodes → Text → ℕ → Option Text
unfolding taken candidate
first_free zero cs base i = none
first_free (suc fuel) cs base i =
    let rest = first_free fuel cs base (suc i) in
    if taken cs (candidate base i) then rest else some (candidate base i)

-- One round for each child, and one more.
unfoldable pub unique_child_name : ChildNodes → Text → Option Text
unfolding first_free taken count_children
unique_child_name cs base =
    if taken cs base then first_free (suc (count_children cs)) cs base 2 else some base

-- A path '<old>.<port>' is made '<new>.<port>'.
unfoldable pub rewrite_port_prefix : Text → Text → Text → Text
unfolding strip_prefix
rewrite_port_prefix path old_name new_name = elim (strip_prefix (old_name ++ b'.' ∷ []) path) [
  | none ↦ path
  | some port ↦ new_name ++ b'.' ∷ port
]
