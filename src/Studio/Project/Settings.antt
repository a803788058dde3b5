-- ===== src/Studio/Project/Settings.antt =====
-- src/studio/include/atp/studio/project.hpp: properties, configs and shared configs.
use ani_tools_platform.Prelude.{
  Bool, false, not, ◌&&◌, ◌||◌, List, [], ◌∷◌, Option, none, some, Text, text_eq, length, Result,
  ok, err, ◌>>=◌, ◌>>◌, guard, if◌then◌else◌, ltb,
}
use ani_tools_platform.Prelude.Assoc.{lookup, put, name_eq}
use ani_tools_platform.Config.Node.{Node, is_object, is_string, try_as_string, erase_first}
use ani_tools_platform.Config.Model.{
  ModuleNode, ChildNode, module_child, group_child, GroupNode, group_node, ChildNodes, no_children,
  child, Config, modules,
}
use ani_tools_platform.Config.Validate.Values.{contains, starts_with, file_prefix}
use ani_tools_platform.Config.Validate.Parts.{is_scalar}
use ani_tools_platform.Studio.NodeRef.{is_empty}
use ani_tools_platform.Studio.Lookup.{
  EditError, bad_name, bad_value, no_module, child_name, find_child,
}
use ani_tools_platform.Studio.Project.{Project, commit, require_group, change_pipeline}

-- A change of the first child of that name.
unfoldable pub change_child : Text → (ChildNode → ChildNode) → ChildNodes → ChildNodes
change_child name f no_children = no_children
change_child name f (child c cs) =
    let rest = child c (change_child name f cs) in
    if text_eq (child_name c) name then child (f c) cs else rest

abbrev pub on_module : (ModuleNode → ModuleNode) → ChildNode → ChildNode
on_module f (module_child m) = module_child (f m)
on_module f (group_child g) = group_child g

unfoldable pub change_module : Text → Text → (ModuleNode → ModuleNode) → Config → Config
unfolding change_pipeline change_child
change_module group_path name f = change_pipeline group_path λ (g : GroupNode). elim g [
  | group_node n cs p ↦ group_node n (change_child name (on_module f) cs) p
]

abbrev as_module : Option ChildNode → Result EditError ModuleNode
as_module none = err no_module
as_module (some (group_child g)) = err no_module
as_module (some (module_child m)) = ok m

unfoldable pub require_module : Config → Text → Text → Result EditError ModuleNode
unfolding require_group find_child
require_module cfg group_path name =
    require_group cfg group_path >>= λ g. as_module (find_child (modules g) name)

unfoldable pub set_property : Project → Text → Text → Text → Node → Result EditError Project
unfolding require_module change_module put commit
set_property p group_path name prop value =
    guard (is_scalar value) bad_value
    >> (require_module p.cfg group_path name >>= λ m. ok (
        commit p (
          change_module group_path name (λ k. record k { properties = put prop value k.properties })
            p.cfg)))

unfoldable pub clear_property : Project → Text → Text → Text → Result EditError Project
unfolding require_module change_module lookup erase_first commit
clear_property p group_path name prop = require_module p.cfg group_path name >>= λ m.
    elim (lookup prop m.properties) [
      | none ↦ ok p
      | some v ↦ ok (
          commit p (
            change_module group_path name
              (λ k. record k { properties = erase_first prop k.properties }) p.cfg))
    ]

unfoldable pub set_config : Project → Text → Text → Node → Result EditError Project
unfolding require_module change_module commit
set_config p group_path name value =
    guard (is_object value || is_string value) bad_value
    >> (require_module p.cfg group_path name >>= λ m.
        ok (commit p (change_module group_path name (λ k. record k { config = some value }) p.cfg)))

unfoldable pub clear_config : Project → Text → Text → Result EditError Project
unfolding require_module change_module commit
clear_config p group_path name = require_module p.cfg group_path name >>= λ m. elim m.config [
  | none ↦ ok p
  | some c ↦ ok (commit p (change_module group_path name (λ k. record k { config = none }) p.cfg))
]

unfoldable pub config_of : Config → Text → Text → Result EditError (Option Node)
unfolding require_module
config_of cfg group_path name = require_module cfg group_path name >>= λ m. ok m.config

-- Whether the value is a 'file:' string with a path in it.
unfoldable pub names_a_config_file : Node → Bool
unfolding starts_with
names_a_config_file value = elim (try_as_string value) [
  | none ↦ false
  | some text ↦ starts_with file_prefix text && ltb (length file_prefix) (length text)
]

unfoldable pub set_shared_config : Project → Text → Node → Result EditError Project
unfolding contains names_a_config_file put commit
set_shared_config p name value =
    guard (not (is_empty name || contains b':' name)) bad_name
    >> guard (is_object value || names_a_config_file value) bad_value
    >> ok (commit p (record p.cfg { configs = put name value p.cfg.configs }))

unfoldable pub clear_shared_config : Project → Text → Project
unfolding lookup erase_first commit
clear_shared_config p name = elim (lookup name p.cfg.configs) [
  | none ↦ p
  | some v ↦ commit p (record p.cfg { configs = erase_first name p.cfg.configs })
]

unfoldable pub shared_config : Config → Text → Option Node
unfolding lookup
shared_config cfg name = lookup name cfg.configs

unfoldable pub config_names : List (Text × Node) → List Text
config_names [] = []
config_names ((name, value) ∷ es) = name ∷ config_names es
