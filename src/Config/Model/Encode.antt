-- ===== src/Config/Model/Encode.antt =====
-- src/runtime/include/atp/runtime/config_model.hpp: encode.
use ani_tools_platform.Prelude.{
  List, [], ◌∷◌, ◌++◌, map, Option, none, some, Text, text_eq, codes, if◌then◌else◌,
}
use ani_tools_platform.Prelude.Assoc.{put, name_eq}
use ani_tools_platform.Prelude.Int.{ℤ}
use ani_tools_platform.Version.{Version, to_string}
use ani_tools_platform.Runtime.Runner.{ThreadMode, on_demand, throttled, spinning}
use ani_tools_platform.Config.Node.{
  Node, to_items, to_fields, array_of, object_of, string_node, int_node,
}
use ani_tools_platform.Config.Model.{
  ModuleNode, ConnectionNode, GroupPorts, ChildNode, module_child, group_child, GroupNode,
  group_node, ChildNodes, no_children, child, ThreadNode, Config,
}

-- `if (value) { j[key] = *value; }`, on the entries of j.
abbrev pub put_some : Text → Option Node → List (Text × Node) → List (Text × Node)
put_some k none es = es
put_some k (some v) es = put k v es

-- `for (const auto& [key, value] : entries) { j[key] = value; }`
unfoldable pub write : List (Text × Node) → List (Text × Node) → List (Text × Node)
write [] es = es
write ((k, v) ∷ entries) es = write entries (put k v es)

abbrev pub unless_empty {ℓ} : {A : Type ℓ} → List A → Node → Option Node
unless_empty [] j = none
unless_empty (x ∷ xs) j = some j

unfoldable pub map_object : List (Text × Node) → Node
unfolding write to_fields
map_object entries = object_of (write entries [])

abbrev pub text_entry : Text × Text → Text × Node
text_entry (k, v) = (k, string_node v)

abbrev pub version_node : Option Version → Option Node
version_node none = none
version_node (some v) = some (string_node (to_string v))

unfoldable pub module_entries : ModuleNode → List (Text × Node)
unfolding map_object
module_entries m = put_some (codes "config") m.config (
    put_some (codes "properties") (unless_empty m.properties (map_object m.properties)) (
      put_some (codes "version") (version_node m.factory_version) (
        put_some (codes "name")
          (if text_eq m.name m.factory then none else some (string_node m.name))
          (put (codes "module") (string_node m.factory) []))))

unfoldable pub directed : List (Text × Text) → Option Node
unfolding map_object
directed aliases = unless_empty aliases (map_object (map text_entry aliases))

unfoldable pub expose_entries : GroupPorts → List (Text × Node)
unfolding directed
expose_entries p =
    put_some (codes "outputs") (directed p.expose_outputs)
      (put_some (codes "inputs") (directed p.expose_inputs) [])

unfoldable pub encode_connection : ConnectionNode → Node
unfolding to_fields
encode_connection c =
    object_of ((codes "from", string_node c.from) ∷ (codes "to", string_node c.to) ∷ [])

-- The body of a group, whose children are encoded already.
unfoldable pub body_entries : List Node → GroupPorts → List (Text × Node)
unfolding expose_entries encode_connection to_items to_fields
body_entries children p =
    put_some (codes "connections")
      (unless_empty p.connections (array_of (map encode_connection p.connections)))
      (put_some (codes "expose")
        (unless_empty (p.expose_inputs ++ p.expose_outputs) (object_of (expose_entries p)))
        (put_some (codes "modules") (unless_empty children (array_of children)) []))

unfoldable mutual
  unfolding module_entries body_entries to_fields

  pub encode_child : ChildNode → Node
  encode_child (module_child m) = object_of (module_entries m)
  encode_child (group_child (group_node name children p)) =
      object_of (put (codes "group") (string_node name) (body_entries (encode_children children) p))

  pub encode_children : ChildNodes → List Node
  encode_children no_children = []
  encode_children (child c cs) = encode_child c ∷ encode_children cs

unfoldable pub encode_group_body : GroupNode → Node
unfolding encode_child body_entries to_fields
encode_group_body (group_node name children p) =
    object_of (body_entries (encode_children children) p)

abbrev pub mode_text : ThreadMode → Text
mode_text on_demand = codes "on_demand"
mode_text throttled = codes "throttled"
mode_text spinning = codes "spinning"

abbrev pub period_node : ThreadMode → ℤ → Option Node
period_node throttled period = some (int_node period)
period_node _ period = none

unfoldable pub encode_thread : ThreadNode → Node
unfolding to_fields
encode_thread t = object_of (
    put_some (codes "period_ms") (period_node t.mode t.period) (
      put (codes "mode") (string_node (mode_text t.mode))
        (put (codes "name") (string_node t.name) [])))

unfoldable pub document_entries : Config → List (Text × Node)
unfolding encode_group_body encode_thread map_object directed to_items to_fields
document_entries cfg =
    put_some (codes "configs") (unless_empty cfg.configs (map_object cfg.configs)) (
      put_some (codes "assign") (directed cfg.assignments) (
        put_some (codes "threads")
          (unless_empty cfg.threads (array_of (map encode_thread cfg.threads)))
          (put (codes "pipeline") (encode_group_body cfg.pipeline) (
            put_some (codes "plugins")
              (unless_empty cfg.plugins (array_of (map string_node cfg.plugins)))
              (put (codes "version") (string_node (to_string cfg.schema)) [])))))

unfoldable pub encode : Config → Node
unfolding document_entries to_fields
encode cfg = object_of (document_entries cfg)
