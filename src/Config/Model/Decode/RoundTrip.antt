-- ===== src/Config/Model/Decode/RoundTrip.antt =====
-- Decoding the documents that `encode` of src/runtime/include/atp/runtime/config_model.hpp wrote.
use ani_tools_platform.Prelude.{◌≡◌, refl, List, [], ◌∷◌, map, some, Text, text_eq, codes, ok, All}
use ani_tools_platform.Prelude.Int.{ℤ, pos}
use ani_tools_platform.Prelude.Assoc.{lookup, put, lookup-put, name_eq}
use ani_tools_platform.Version.{to_string}
use ani_tools_platform.Runtime.Runner.{ThreadMode, on_demand, throttled, spinning}
use ani_tools_platform.Config.Node.{
  Node, string_node, array_of, to_fields, to_entries, entries, find, at, entries, to_entries,
  string_at, int_at,
}
use ani_tools_platform.Config.Model.{
  GroupPorts, GroupNode, group_node, ChildNodes, ThreadNode, Config, modules, ports,
}
use ani_tools_platform.Config.Model.Encode.{
  unless_empty, map_object, directed, body_entries, encode_children, encode_group_body,
  encode_thread, document_entries, encode,
}
use ani_tools_platform.Config.Model.Decode.{
  bad_schema_version, decode_group, decode_plugins, decode_thread, decode_threads, decode,
}
use ani_tools_platform.Config.Model.Decode.Modules.{IsWritten, parsed-written, or_else-none}
use ani_tools_platform.Config.Model.Decode.Ports.{IsGroupPorts, body_entries-IsBody}
use ani_tools_platform.Config.Model.Decode.Groups.{
  AllChildren, with_ports-IsBody, decode_items-encode_children,
}
use ani_tools_platform.Config.Model.Decode.Keys.{
  DistinctKeys, lookup-put_some, decode_texts-directed, entries_of-unless_empty, elements_of-map,
  find-object_of,
}

-- A thread that is not throttled has no period.
abbrev pub IsThreadNode : ThreadNode → Type 0
IsThreadNode t = elim t.mode [
  | throttled ↦ Unit {0}
  | on_demand ↦ t.period ≡ pos 0
  | spinning ↦ t.period ≡ pos 0
]

decode_thread-encode_thread :
    (name : Text) (mode : ThreadMode) (period : ℤ)
    → IsThreadNode (record { name = name; mode = mode; period = period })
    → decode_thread (encode_thread (record { name = name; mode = mode; period = period }))
      ≡ ok (record { name = name; mode = mode; period = period })
unfolding decode_thread encode_thread find entries to_entries to_fields lookup put text_eq string_at
    int_at at
decode_thread-encode_thread name on_demand period h = rw h refl
decode_thread-encode_thread name throttled period h = refl
decode_thread-encode_thread name spinning period h = rw h refl

decode_threads-encode_thread :
    (ts : List ThreadNode) → All IsThreadNode ts → decode_threads (map encode_thread ts) ≡ ok ts
unfolding decode_threads
decode_threads-encode_thread [] h = refl
decode_threads-encode_thread (t ∷ ts) h =
    rw (decode_thread-encode_thread t.name t.mode t.period h.0, decode_threads-encode_thread ts h.1)
      refl

decode_plugins-string_node : (ps : List Text) → decode_plugins (map string_node ps) ≡ ok ps
unfolding decode_plugins
decode_plugins-string_node [] = refl
decode_plugins-string_node (p ∷ ps) = rw (decode_plugins-string_node ps) refl

-- A configuration that a document can hold.
pub record IsConfig (cfg : Config) : Type 0 where
  pub schema : IsWritten cfg.schema
  pub children : AllChildren (modules cfg.pipeline)
  pub ports : IsGroupPorts (ports cfg.pipeline)
  pub threads : All IsThreadNode cfg.threads
  pub assigned_once : DistinctKeys cfg.assignments
  pub distinct_configs : DistinctKeys cfg.configs

abbrev pub as_root : GroupNode → GroupNode
as_root (group_node name cs p) = group_node (codes "root") cs p

-- What a document says: the outermost group has no name of its own.
abbrev pub rooted : Config → Config
rooted cfg = record cfg { pipeline = as_root cfg.pipeline }

decode_group-encode_group_body :
    (name : Text) (cs : ChildNodes) (p : GroupPorts)
    → AllChildren cs
    → IsGroupPorts p
    → decode_group (codes "root") (encode_group_body (group_node name cs p))
      ≡ ok (group_node (codes "root") cs p)
unfolding decode_group encode_group_body
decode_group-encode_group_body name cs p all h =
    with_ports-IsBody (body_entries (encode_children cs) p) cs p (codes "root")
      (body_entries-IsBody (encode_children cs) p) h (decode_items-encode_children cs all)

module _ (cfg : Config) where
  found_schema :
      lookup (codes "version") (document_entries cfg) ≡ some (string_node (to_string cfg.schema))
  unfolding document_entries text_eq lookup
  found_schema = simp (lookup-put_some, lookup-put, or_else-none)

  found_plugins :
      lookup (codes "plugins") (document_entries cfg)
      ≡ unless_empty cfg.plugins (array_of (map string_node cfg.plugins))
  unfolding document_entries text_eq lookup
  found_plugins = simp (lookup-put_some, lookup-put, or_else-none)

  found_pipeline :
      lookup (codes "pipeline") (document_entries cfg) ≡ some (encode_group_body cfg.pipeline)
  unfolding document_entries text_eq lookup
  found_pipeline = simp (lookup-put_some, lookup-put, or_else-none)

  found_threads :
      lookup (codes "threads") (document_entries cfg)
      ≡ unless_empty cfg.threads (array_of (map encode_thread cfg.threads))
  unfolding document_entries text_eq lookup
  found_threads = simp (lookup-put_some, lookup-put, or_else-none)

  found_assign : lookup (codes "assign") (document_entries cfg) ≡ directed cfg.assignments
  unfolding document_entries text_eq lookup
  found_assign = simp (lookup-put_some, lookup-put, or_else-none)

  found_configs :
      lookup (codes "configs") (document_entries cfg)
      ≡ unless_empty cfg.configs (map_object cfg.configs)
  unfolding document_entries text_eq lookup
  found_configs = simp (lookup-put_some, lookup-put, or_else-none)

  pipeline_again :
      IsConfig cfg
      → decode_group (codes "root") (encode_group_body cfg.pipeline) ≡ ok (as_root cfg.pipeline)
  pipeline_again h = go cfg.pipeline h.children h.ports
    where
      go :
          (g : GroupNode)
          → AllChildren (modules g)
          → IsGroupPorts (ports g)
          → decode_group (codes "root") (encode_group_body g) ≡ ok (as_root g)
      go (group_node name cs p) all valid = decode_group-encode_group_body name cs p all valid

  -- A configuration in which no property, alias, assigned path or shared configuration stands twice, every
  -- version that is given can be written, and only throttled threads have a period is read back from its
  -- document exactly as it was: the groups to any depth, the ports, the versions, the threads and the
  -- shared configurations. Only the outermost group, whose name is not written, is called "root".
  pub decode-encode : IsConfig cfg → decode (encode cfg) ≡ ok (rooted cfg)
  unfolding decode encode string_at at
  decode-encode h =
      rw
        (
          find-object_of (codes "version") es,
          find-object_of (codes "plugins") es,
          find-object_of (codes "pipeline") es,
          find-object_of (codes "threads") es,
          find-object_of (codes "assign") es,
          find-object_of (codes "configs") es,
          found_schema,
          found_plugins,
          found_pipeline,
          found_threads,
          found_assign,
          found_configs,
          parsed-written bad_schema_version cfg.schema h.schema,
          elements_of-map string_node cfg.plugins,
          decode_plugins-string_node cfg.plugins,
          pipeline_again h,
          elements_of-map encode_thread cfg.threads,
          decode_threads-encode_thread cfg.threads h.threads,
          decode_texts-directed cfg.assignments h.assigned_once,
          entries_of-unless_empty cfg.configs h.distinct_configs,
        )
        refl
    where
      es : List (Text × Node)
      es = document_entries cfg

encode_group_body-as_root : (g : GroupNode) → encode_group_body (as_root g) ≡ encode_group_body g
unfolding encode_group_body
encode_group_body-as_root (group_node name cs p) = refl

pub encode-rooted : (cfg : Config) → encode (rooted cfg) ≡ encode cfg
unfolding encode document_entries
encode-rooted cfg = rw (encode_group_body-as_root cfg.pipeline) refl

pub rooted-IsConfig : {cfg : Config} → IsConfig cfg → IsConfig (rooted cfg)
rooted-IsConfig {cfg} h = go cfg.pipeline h.children h.ports
  where
    go :
        (g : GroupNode)
        → AllChildren (modules g)
        → IsGroupPorts (ports g)
        → IsConfig (record cfg { pipeline = as_root g })
    go (group_node name cs p) all valid = record {
      schema = h.schema;
      children = all;
      ports = valid;
      threads = h.threads;
      assigned_once = h.assigned_once;
      distinct_configs = h.distinct_configs;
    }
