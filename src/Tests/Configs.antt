-- ===== src/Tests/Configs.antt =====
-- Runs of Config, and its theorems on concrete documents and paths.
use ani_tools_platform.Prelude.{
  ◌≡◌, ◌≢◌, ◌↔◌, refl, List, [], ◌∷◌, none, some, codes, text_eq, ok, err, arith, All,
}
use ani_tools_platform.Prelude.Int.{pos}
use ani_tools_platform.Prelude.Assoc.{lookup}
use ani_tools_platform.Version.{IsVersion, parse_version}
use ani_tools_platform.Version.Decimal.{decimal}
use ani_tools_platform.Runtime.Runner.{throttled, spinning}
use ani_tools_platform.Config.Node.{
  Node, int_node, string_node, array_of, object_of, to_items, to_fields, to_list, to_entries,
  entries, elements, find,
}
use ani_tools_platform.Config.Path.{PathError, PathFault, empty_key, find_path}
use ani_tools_platform.Config.Path.Grammar.{find_path-ends}
use ani_tools_platform.Config.Path.Resolve.{
  Segment, print_path, follow, IsGrammatical, find_path-print_path,
}
use ani_tools_platform.Config.Model.{
  Config, ModuleNode, GroupNode, group_node, module_child, group_child, no_children, child,
  no_ports, config_schema_version,
}
use ani_tools_platform.Config.Model.Encode.{encode}
use ani_tools_platform.Config.Model.Decode.{decode, elements_of}
use ani_tools_platform.Config.Model.Decode.RoundTrip.{IsConfig, rooted, decode-encode}
use ani_tools_platform.Config.Validate.{validate}
use ani_tools_platform.Config.Validate.Values.{check_keys}
use ani_tools_platform.Config.Validate.Check.{Succeeds}
use ani_tools_platform.Config.Validate.Threads.{IsNamed}
use ani_tools_platform.Config.Validate.Contract.{decode-validated}

-- {"cameras": [3, {"rate": 25}]}
abbrev rig : Node
unfolding to_items to_fields
rig = object_of (
    (
      codes "cameras",
      array_of (int_node (pos 3) ∷ object_of ((codes "rate", int_node (pos 25)) ∷ []) ∷ []),
    )
    ∷ [])

abbrev rate_path : List Segment
rate_path =
    record { name = codes "cameras"; indices = 1 ∷ [] }
    ∷ record { name = codes "rate"; indices = [] }
    ∷ []

rate_path-IsGrammatical : IsGrammatical rate_path
rate_path-IsGrammatical = (
  record { named = refl; plain = refl; fit = (omega arith, tt) },
  (record { named = refl; plain = refl; fit = tt }, tt),
)

print_rate : print_path rate_path ≡ codes "cameras[1].rate"
unfolding print_path decimal
print_rate = refl

find_rate : find_path rig (codes "cameras[1].rate") ≡ ok (some (int_node (pos 25)))
unfolding rig find_path find entries lookup text_eq elements to_entries to_list
find_rate = refl

find_path-print_path_example :
    find_path rig (print_path rate_path) ≡ ok (follow rate_path (some rig))
find_path-print_path_example = find_path-print_path rig _ _ rate_path-IsGrammatical

abbrev two_dots : PathError
two_dots = record { fault = empty_key; offset = 2 }

find_two_dots : find_path rig (codes "a..b") ≡ err two_dots
unfolding rig find_path find entries lookup text_eq elements to_entries to_list
find_two_dots = refl

find_path-ends_example : two_dots.fault ≢ PathFault.stuck
find_path-ends_example = find_path-ends rig (codes "a..b") two_dots find_two_dots

abbrev camera : ModuleNode
camera = record {
  factory = codes "camera";
  name = codes "left";
  factory_version = some config_schema_version;
  properties = (codes "rate", int_node (pos 25)) ∷ [];
  config = none;
}

abbrev cameras : GroupNode
cameras = group_node (codes "cameras") (child (module_child camera) no_children) no_ports

abbrev document : Config
document = record {
  schema = config_schema_version;
  plugins = codes "lib" ∷ [];
  pipeline = group_node (codes "root") (child (group_child cameras) no_children) (record {
    expose_inputs = [];
    expose_outputs = (codes "image", codes "left.image") ∷ [];
    connections = record { from = codes "a.x"; to = codes "b.y" } ∷ [];
  });
  threads =
      record { name = codes "slow"; mode = throttled; period = pos 20 }
      ∷ record { name = codes "fast"; mode = spinning; period = pos 0 }
      ∷ [];
  assignments = (codes "cameras", codes "slow") ∷ [];
  configs = [];
}

pub schema-IsVersion : IsVersion config_schema_version
schema-IsVersion = record {
  size = refl;
  bounded = omega arith;
  fits = (omega arith, (omega arith, (omega arith, (omega arith, tt))));
  padded = (refl, (refl, tt));
}

document-IsConfig : IsConfig document
unfolding lookup
document-IsConfig = record {
  schema = (schema-IsVersion, omega arith);
  children = (
    (
      (record { declared = (schema-IsVersion, omega arith); distinct = (refl, tt) }, tt),
      record { inputs = tt; outputs = tt },
    ),
    tt,
  );
  ports = record { inputs = tt; outputs = (refl, tt) };
  threads = (tt, (refl, tt));
  assigned_once = (refl, tt);
  distinct_configs = tt;
}

decode-encode_example : decode (encode document) ≡ ok (rooted document)
decode-encode_example = decode-encode document document-IsConfig

-- A thread without a name, which the validator does not complain about.
abbrev nameless : Node
unfolding to_items to_fields
nameless = object_of (
    (codes "version", string_node (codes "1.0"))
    ∷ (codes "pipeline", object_of [])
    ∷ (codes "threads", array_of (object_of [] ∷ []))
    ∷ [])

validate-nameless : validate nameless ≡ []
unfolding nameless validate check_keys parse_version find entries lookup text_eq elements to_entries
    to_list to_items to_fields
validate-nameless = refl

decode-validated_example :
    Succeeds (decode nameless) ↔ All IsNamed (elements_of (find (codes "threads") nameless))
decode-validated_example = decode-validated nameless validate-nameless
