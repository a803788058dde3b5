-- ===== src/Studio/Project.antt =====
-- src/studio/include/atp/studio/project.hpp: the project and its history. An editing operation that throws
-- does so before it changes anything, so that it gives the error and no project.
pub mod Children
pub mod Moves
pub mod Ports
pub mod Settings
pub mod Threads
pub mod Actions
pub mod Recorded
pub mod Valid
pub mod History
use ani_tools_platform.Prelude.{
  ℕ, zero, suc, ◌+◌, ◌-◌, Bool, true, false, List, [], ◌∷◌, ◌++◌, Option, none, some, Text, codes,
  Result, ok, err, ◌>>=◌, if◌then◌else◌, ltb,
}
use ani_tools_platform.Prelude.Assoc.{lookup, put, name_eq}
use ani_tools_platform.Config.Node.{Node}
use ani_tools_platform.Config.Model.{
  GroupNode, group_node, no_children, no_ports, Config, config_schema_version,
}
use ani_tools_platform.Config.Model.Encode.{encode}
use ani_tools_platform.Config.Model.Decode.{DecodeError, decode}
use ani_tools_platform.Config.Validate.{validate}
use ani_tools_platform.Config.Validate.Values.{Errors}
use ani_tools_platform.Studio.Lookup.{EditError, no_group, find_group}
use ani_tools_platform.Studio.Cascade.{change_group}

-- The coordinates of a node on the canvas, each the bits of a `float`.
abbrev pub Position : Type 0
Position = ℕ × ℕ

-- `undo_` and `redo_` have their last snapshot in front.
pub record Project : Type 0 where
  pub cfg : Config
  pub positions : List (Text × Position)
  pub undos : List Node
  pub redos : List Node
  pub batch_depth : ℕ
  pub saved : Node

abbrev pub empty_config : Config
empty_config = record {
  schema = config_schema_version;
  plugins = [];
  pipeline = group_node [] no_children no_ports;
  threads = [];
  assignments = [];
  configs = [];
}

-- A project without a history.
abbrev pub fresh : Config → Project
fresh cfg = record {
  cfg = cfg;
  positions = [];
  undos = [];
  redos = [];
  batch_depth = 0;
  saved = encode cfg;
}

abbrev pub create : Project
create = fresh empty_config

-- What `from_document` throws: every error of the validator, or what `decode` throws.
pub data OpenError : Type 0 where
  invalid : Errors → OpenError
  undecoded : DecodeError → OpenError

unfoldable pub from_document : Node → Result OpenError Project
from_document doc = elim (validate doc) [
  | e ∷ errors ↦ err (invalid (e ∷ errors))
  | [] ↦ elim (decode doc) [ err e ↦ err (undecoded e) | ok cfg ↦ ok (fresh cfg) ]
]

unfoldable pub snapshot : Project → Project
snapshot p =
    if ltb 0 p.batch_depth then p else record p { undos = encode p.cfg ∷ p.undos; redos = [] }

-- A change of the configuration behind a snapshot.
unfoldable pub commit : Project → Config → Project
unfolding snapshot
commit p cfg = record (snapshot p) { cfg = cfg }

-- The same where the positions change as well, which no snapshot holds.
unfoldable pub commit_placed : Project → Config → List (Text × Position) → Project
unfolding commit
commit_placed p cfg positions = record (commit p cfg) { positions = positions }

-- The constructor and the destructor of `edit_scope`.
unfoldable pub open_scope : Project → Project
unfolding snapshot
open_scope p = record (snapshot p) { batch_depth = p.batch_depth + 1 }

abbrev pub close_scope : Project → Project
close_scope p = record p { batch_depth = p.batch_depth - 1 }

-- Where `decode` throws, the configuration has already been put on the other list.
unfoldable pub undo : Project → Project × Result DecodeError Bool
undo p = elim p.undos [
  | [] ↦ (p, ok false)
  | last ∷ rest ↦ elim (decode last) [
    | err e ↦ (record p { redos = encode p.cfg ∷ p.redos }, err e)
    | ok cfg ↦ (record p { cfg = cfg; undos = rest; redos = encode p.cfg ∷ p.redos }, ok true)
  ]
]

unfoldable pub redo : Project → Project × Result DecodeError Bool
redo p = elim p.redos [
  | [] ↦ (p, ok false)
  | last ∷ rest ↦ elim (decode last) [
    | err e ↦ (record p { undos = encode p.cfg ∷ p.undos }, err e)
    | ok cfg ↦ (record p { cfg = cfg; undos = encode p.cfg ∷ p.undos; redos = rest }, ok true)
  ]
]

abbrev pub can_undo : Project → Bool
can_undo p = elim p.undos [ [] ↦ false | last ∷ rest ↦ true ]

abbrev pub can_redo : Project → Bool
can_redo p = elim p.redos [ [] ↦ false | last ∷ rest ↦ true ]

unfoldable pub position : Project → Text → Option Position
unfolding lookup
position p node_path = lookup node_path p.positions

unfoldable pub set_position : Project → Text → Position → Project
unfolding put
set_position p node_path at = record p { positions = put node_path at p.positions }

unfoldable pub require_group : Config → Text → Result EditError GroupNode
unfolding find_group
require_group cfg path = elim (find_group cfg.pipeline path) [ none ↦ err no_group | some g ↦ ok g ]

unfoldable pub change_pipeline : Text → (GroupNode → GroupNode) → Config → Config
unfolding change_group
change_pipeline path f cfg = record cfg { pipeline = change_group path f cfg.pipeline }
