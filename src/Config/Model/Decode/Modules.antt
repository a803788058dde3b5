-- ===== src/Config/Model/Decode/Modules.antt =====
-- Decoding the versions and the modules that `encode` of
-- src/runtime/include/atp/runtime/config_model.hpp wrote.
use ani_tools_platform.Prelude.{
  ◌≡◌, ◌<◌, refl, ap, ◌∙◌, Option, none, some, text_eq, text_eq_iff, codes, ok, err, ◌>>=◌,
  if◌then◌else◌, arith, max,
}
use ani_tools_platform.Prelude.Assoc.{lookup, lookup-put, name_eq}
use ani_tools_platform.Version.{Version, IsVersion, to_string, parse_version}
use ani_tools_platform.Version.Parse.{parse-to_string}
use ani_tools_platform.Config.Node.{Node, string_node, object_of, find, at, string_at}
use ani_tools_platform.Config.Read.{string_or}
use ani_tools_platform.Config.Model.{ModuleNode}
use ani_tools_platform.Config.Model.Encode.{unless_empty, map_object, version_node, module_entries}
use ani_tools_platform.Config.Model.Decode.{
  DecodeError, bad_version, parsed, decode_version, decode_module,
}
use ani_tools_platform.Config.Model.Decode.Keys.{
  DistinctKeys, or_else, lookup-put_some, entries_of-unless_empty, find-object_of,
}

-- A version that its text brings back: its components were written down.
abbrev pub IsWritten : Version → Type 0
IsWritten v = IsVersion v × (0 < v.count)

parse-written : (v : Version) → IsWritten v → parse_version (to_string v) ≡ ok v
parse-written v h =
    parse-to_string v h.0 ∙ ap ok (λ i. record { parts = v.parts; count = one_max i })
  where
    one_max : max 1 v.count ≡ v.count
    one_max = omega (arith, h.1)

pub parsed-written :
    (thrown : DecodeError) (v : Version) → IsWritten v → parsed thrown (to_string v) ≡ ok v
parsed-written thrown v h =
    ap (λ r. elim r [ err e ↦ err thrown | ok w ↦ ok w ]) (parse-written v h)

abbrev pub IsDeclared : Option Version → Type 0
IsDeclared none = Unit {0}
IsDeclared (some v) = IsWritten v

decode_version-version_node :
    (v : Option Version) → IsDeclared v → decode_version (version_node v) ≡ ok v
decode_version-version_node none h = refl
decode_version-version_node (some v) h =
    ap (λ r. r >>= λ w. ok (some w)) (parsed-written bad_version v h)

pub record IsModuleNode (m : ModuleNode) : Type 0 where
  pub declared : IsDeclared m.factory_version
  pub distinct : DistinctKeys m.properties

pub or_else-none : (o : Option Node) → or_else o none ≡ o
or_else-none none = refl
or_else-none (some j) = refl

module _ (m : ModuleNode) where
  pub found_module :
      find (codes "module") (object_of (module_entries m)) ≡ some (string_node m.factory)
  unfolding module_entries text_eq lookup
  found_module = simp (find-object_of, lookup-put_some, lookup-put)

  found_name :
      find (codes "name") (object_of (module_entries m))
      ≡ (if text_eq m.name m.factory then none else some (string_node m.name))
  unfolding module_entries text_eq lookup
  found_name = simp (find-object_of, lookup-put_some, lookup-put, or_else-none)

  found_config : find (codes "config") (object_of (module_entries m)) ≡ m.config
  unfolding module_entries text_eq lookup
  found_config = simp (find-object_of, lookup-put_some, lookup-put, or_else-none)

  found_version :
      find (codes "version") (object_of (module_entries m)) ≡ version_node m.factory_version
  unfolding module_entries text_eq lookup
  found_version = simp (find-object_of, lookup-put_some, lookup-put, or_else-none)

  found_properties :
      find (codes "properties") (object_of (module_entries m))
      ≡ unless_empty m.properties (map_object m.properties)
  unfolding module_entries text_eq lookup
  found_properties = simp (find-object_of, lookup-put_some, lookup-put, or_else-none)

  name_again :
      string_or (if text_eq m.name m.factory then none else some (string_node m.name)) m.factory
      ≡ m.name
  name_again = ground (arith, text_eq_iff m.name m.factory)

  pub decode_module-encode : IsModuleNode m → decode_module (object_of (module_entries m)) ≡ ok m
  unfolding decode_module string_at at
  decode_module-encode h =
      rw
        (
          found_module,
          found_name,
          found_version,
          found_properties,
          found_config,
          decode_version-version_node m.factory_version h.declared,
          entries_of-unless_empty m.properties h.distinct,
          name_again,
        )
        refl
