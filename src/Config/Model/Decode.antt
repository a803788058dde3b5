-- ===== src/Config/Model/Decode.antt =====
-- src/runtime/include/atp/runtime/config_model.hpp: decode.
pub mod Keys
pub mod Modules
pub mod Ports
pub mod Groups
pub mod RoundTrip
use ani_tools_platform.Prelude.{
  Bool, true, false, List, [], ◌∷◌, Option, none, some, Text, text_eq, codes, Result, ok, err,
  ◌>>=◌, if◌then◌else◌,
}
use ani_tools_platform.Prelude.Int.{ℤ, pos}
use ani_tools_platform.Version.{Version, parse_version}
use ani_tools_platform.Runtime.Runner.{ThreadMode, on_demand, throttled, spinning}
use ani_tools_platform.Config.Node.{
  Node, Items, Fields, AccessError, object_node, array_node, no_items, item, no_fields, field, find,
  at, entries, elements, as_string, string_at, int_at, no_key,
}
use ani_tools_platform.Config.Read.{string_or}
use ani_tools_platform.Config.Model.{
  ModuleNode, ConnectionNode, GroupPorts, ChildNode, module_child, group_child, GroupNode,
  group_node, ChildNodes, no_children, child, no_ports, ThreadNode, Config,
}

pub data DecodeError : Type 0 where
  access : AccessError → DecodeError
  bad_schema_version bad_version : DecodeError

-- An `access_error` passes through.
abbrev pub lift {ℓ} : {A : Type ℓ} → Result AccessError A → Result DecodeError A
lift (err e) = err (access e)
lift (ok a) = ok a

-- `std::optional` of the parser, and what is thrown if it is empty.
abbrev pub parsed : DecodeError → Text → Result DecodeError Version
parsed thrown text = elim (parse_version text) [ err e ↦ err thrown | ok v ↦ ok v ]

abbrev pub decode_version : Option Node → Result DecodeError (Option Version)
decode_version none = ok none
decode_version (some declared) =
    lift (as_string declared) >>= (λ text. parsed bad_version text >>= λ v. ok (some v))

unfoldable pub entries_of : Option Node → List (Text × Node)
unfolding entries
entries_of none = []
entries_of (some j) = entries j

unfoldable pub elements_of : Option Node → List Node
unfolding elements
elements_of none = []
elements_of (some j) = elements j

unfoldable pub decode_module : Node → Result DecodeError ModuleNode
unfolding find string_at entries_of
decode_module j = do
  factory ← lift (string_at (codes "module") j)
  let name = string_or (find (codes "name") j) factory
  version ← decode_version (find (codes "version") j)
  ok (record {
    factory = factory;
    name = name;
    factory_version = version;
    properties = entries_of (find (codes "properties") j);
    config = find (codes "config") j;
  })

unfoldable pub decode_texts : List (Text × Node) → Result DecodeError (List (Text × Text))
decode_texts [] = ok []
decode_texts ((k, v) ∷ es) = do
  text ← lift (as_string v)
  rest ← decode_texts es
  ok ((k, text) ∷ rest)

unfoldable pub find_in : Text → Option Node → Option Node
unfolding find
find_in k none = none
find_in k (some j) = find k j

unfoldable pub decode_expose : Option Node → Result DecodeError (List (Text × Text))
unfolding decode_texts entries_of
decode_expose map = decode_texts (entries_of map)

unfoldable pub decode_connections : List Node → Result DecodeError (List ConnectionNode)
unfolding string_at
decode_connections [] = ok []
decode_connections (c ∷ cs) = do
  from ← lift (string_at (codes "from") c)
  to ← lift (string_at (codes "to") c)
  rest ← decode_connections cs
  ok (record { from = from; to = to } ∷ rest)

unfoldable pub decode_ports : Node → Result DecodeError GroupPorts
unfolding find decode_expose decode_connections elements_of
decode_ports j = do
  let expose = find (codes "expose") j
  inputs ← decode_expose (find_in (codes "inputs") expose)
  outputs ← decode_expose (find_in (codes "outputs") expose)
  connections ← decode_connections (elements_of (find (codes "connections") j))
  ok (record { expose_inputs = inputs; expose_outputs = outputs; connections = connections })

abbrev pub is_some {ℓ} : {A : Type ℓ} → Option A → Bool
is_some none = false
is_some (some a) = true

-- The group whose modules are decoded, with the rest of it.
unfoldable pub with_ports :
    Text → Node → Result DecodeError ChildNodes → Result DecodeError GroupNode
unfolding decode_ports
with_ports name j children = children >>= (λ cs. decode_ports j >>= λ p. ok (group_node name cs p))

-- `decode_child`, once the children that it may have are decoded.
unfoldable pub decode_either : Node → Result DecodeError ChildNodes → Result DecodeError ChildNode
unfolding decode_module with_ports find string_at
decode_either j children =
    if is_some (find (codes "module") j)
    then (decode_module j >>= λ m. ok (module_child m))
    else (lift (string_at (codes "group") j) >>= λ name.
        with_ports name j children >>= λ g. ok (group_child g))

-- The value under "modules" is looked for and decoded in one walk over the entries.
unfoldable mutual
  unfolding decode_either

  pub decode_child : Node → Result DecodeError ChildNode
  decode_child (object_node fs) = decode_either (object_node fs) (decode_modules fs)
  decode_child j = err (access (no_key (codes "group")))

  pub decode_modules : Fields → Result DecodeError ChildNodes
  decode_modules no_fields = ok no_children
  decode_modules (field k v fs) =
      let found = decode_elements v in
      let rest = decode_modules fs in if text_eq k (codes "modules") then found else rest

  pub decode_elements : Node → Result DecodeError ChildNodes
  decode_elements (array_node js) = decode_items js
  decode_elements j = ok no_children

  pub decode_items : Items → Result DecodeError ChildNodes
  decode_items no_items = ok no_children
  decode_items (item j js) = decode_child j >>= (λ c. decode_items js >>= λ cs. ok (child c cs))

unfoldable pub decode_group : Text → Node → Result DecodeError GroupNode
unfolding decode_child with_ports
decode_group name (object_node fs) = with_ports name (object_node fs) (decode_modules fs)
decode_group name j = ok (group_node name no_children no_ports)

unfoldable pub decode_plugins : List Node → Result DecodeError (List Text)
decode_plugins [] = ok []
decode_plugins (p ∷ ps) = do path ← lift (as_string p); rest ← decode_plugins ps; ok (path ∷ rest)

unfoldable pub decode_thread : Node → Result DecodeError ThreadNode
unfolding find string_at int_at
decode_thread t = do
  name ← lift (string_at (codes "name") t)
  let mode = string_or (find (codes "mode") t) (codes "on_demand")
  if text_eq mode (codes "throttled")
      then lift (int_at (codes "period_ms") t)
        >>= (λ period. ok (record { name = name; mode = throttled; period = period }))
      else if text_eq mode (codes "spinning")
      then ok (record { name = name; mode = spinning; period = pos 0 })
      else ok (record { name = name; mode = on_demand; period = pos 0 })

unfoldable pub decode_threads : List Node → Result DecodeError (List ThreadNode)
unfolding decode_thread
decode_threads [] = ok []
decode_threads (t ∷ ts) = do thread ← decode_thread t; rest ← decode_threads ts; ok (thread ∷ rest)

unfoldable pub decode : Node → Result DecodeError Config
unfolding find at string_at decode_group decode_plugins decode_threads decode_texts entries_of
    elements_of
decode doc = do
  written ← lift (string_at (codes "version") doc)
  schema ← parsed bad_schema_version written
  plugins ← decode_plugins (elements_of (find (codes "plugins") doc))
  pipeline ← lift (at (codes "pipeline") doc) >>= decode_group (codes "root")
  threads ← decode_threads (elements_of (find (codes "threads") doc))
  assignments ← decode_texts (entries_of (find (codes "assign") doc))
  ok (record {
    schema = schema;
    plugins = plugins;
    pipeline = pipeline;
    threads = threads;
    assignments = assignments;
    configs = entries_of (find (codes "configs") doc);
  })
