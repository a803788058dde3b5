-- ===== src/Config/Model.antt =====
-- src/runtime/include/atp/runtime/config_model.hpp: a configuration document in typed form, and the
-- two conversions.
pub mod Encode
pub mod Decode
use ani_tools_platform.Prelude.{
  ◌≡◌, Bool, true, false, List, [], ◌∷◌, ◌++◌, Option, none, some, Text, codes, ◌==◌, if◌then◌else◌,
}
use ani_tools_platform.Prelude.Int.{ℤ}
use ani_tools_platform.Version.{Version}
use ani_tools_platform.Runtime.Runner.{ThreadMode}
use ani_tools_platform.Config.Node.{Node}

abbrev pub config_schema_version : Version
config_schema_version = record { parts = 1 ∷ 0 ∷ 0 ∷ 0 ∷ []; count = 2 }

pub record ModuleNode : Type 0 where
  pub factory : Text
  pub name : Text
  pub factory_version : Option Version
  pub properties : List (Text × Node)
  pub config : Option Node

pub record ConnectionNode : Type 0 where
  pub from : Text
  pub to : Text

-- The fields of a group but for its modules.
pub record GroupPorts : Type 0 where
  pub expose_inputs : List (Text × Text)
  pub expose_outputs : List (Text × Text)
  pub connections : List ConnectionNode

-- `child_node` has exactly one of its two fields, so it is a module or a group.
mutual
  pub data ChildNode : Type 0 where
    module_child : ModuleNode → ChildNode
    group_child : GroupNode → ChildNode

  pub data GroupNode : Type 0 where
    group_node : Text → ChildNodes → GroupPorts → GroupNode

  pub data ChildNodes : Type 0 where
    no_children : ChildNodes
    child : ChildNode → ChildNodes → ChildNodes

abbrev pub no_ports : GroupPorts
no_ports = record { expose_inputs = []; expose_outputs = []; connections = [] }

abbrev pub group_name : GroupNode → Text
group_name (group_node n ms ps) = n

abbrev pub modules : GroupNode → ChildNodes
modules (group_node n ms ps) = ms

abbrev pub ports : GroupNode → GroupPorts
ports (group_node n ms ps) = ps

pub record ThreadNode : Type 0 where
  pub name : Text
  pub mode : ThreadMode
  pub period : ℤ

pub record Config : Type 0 where
  pub schema : Version
  pub plugins : List Text
  pub pipeline : GroupNode
  pub threads : List ThreadNode
  pub assignments : List (Text × Text)
  pub configs : List (Text × Node)

-- The entry that a "config" string names; one with a colon names another source.
unfoldable pub parse_config_ref : Text → Option Text
parse_config_ref [] = some []
parse_config_ref (c ∷ cs) =
    let rest = parse_config_ref cs in
    if c == b':' then none else elim rest [ none ↦ none | some name ↦ some (c ∷ name) ]
