-- ===== src/Config/Model/Decode/Groups.antt =====
-- Decoding the groups that `encode` of src/runtime/include/atp/runtime/config_model.hpp wrote.
use ani_tools_platform.Prelude.{
  ◌≡◌, refl, sym, ap, ◌∙◌, List, [], ◌∷◌, Option, none, some, Text, text_eq, codes, Result, ok,
  ◌>>=◌, if◌then◌else◌, arith, subst,
}
use ani_tools_platform.Prelude.Assoc.{lookup, put, lookup-put, name_eq}
use ani_tools_platform.Config.Node.{
  Node, string_node, array_of, object_of, to_items, to_fields, find, at, string_at,
}
use ani_tools_platform.Config.Model.{
  ModuleNode, GroupPorts, ChildNode, module_child, group_child, group_node, ChildNodes, no_children,
  child,
}
use ani_tools_platform.Config.Model.Encode.{
  unless_empty, module_entries, body_entries, encode_child, encode_children,
}
use ani_tools_platform.Config.Model.Decode.{
  DecodeError, is_some, lift, decode_module, with_ports, decode_either, decode_child,
  decode_modules, decode_elements, decode_items,
}
use ani_tools_platform.Config.Model.Decode.Modules.{
  IsModuleNode, found_module, decode_module-encode,
}
use ani_tools_platform.Config.Model.Decode.Ports.{
  IsGroupPorts, IsBody, body_entries-IsBody, put_group-IsBody, decode_ports-IsBody,
}
use ani_tools_platform.Config.Model.Decode.Keys.{lookup-put_some, find-object_of}

abbrev mutual
  pub IsChildNode : ChildNode → Type 0
  IsChildNode (module_child m) = IsModuleNode m
  IsChildNode (group_child (group_node name cs p)) = AllChildren cs × IsGroupPorts p

  pub AllChildren : ChildNodes → Type 0
  AllChildren no_children = Unit {0}
  AllChildren (child c cs) = IsChildNode c × AllChildren cs

-- The walk over the entries finds what `find` finds.
unfoldable modules_of : Option Node → Result DecodeError ChildNodes
unfolding decode_elements
modules_of none = ok no_children
modules_of (some j) = decode_elements j

decode_modules-lookup :
    (es : List (Text × Node))
    → decode_modules (to_fields es) ≡ modules_of (lookup (codes "modules") es)
unfolding decode_child to_fields lookup modules_of
decode_modules-lookup [] = refl
decode_modules-lookup ((k, v) ∷ es) = ground (arith, decode_modules-lookup es)

-- No list of children is written for a group without children.
modules_of-unless_empty :
    (js : List Node) (cs : ChildNodes)
    → decode_items (to_items js) ≡ ok cs
    → modules_of (unless_empty js (array_of js)) ≡ ok cs
unfolding decode_child to_items modules_of
modules_of-unless_empty [] cs h = h
modules_of-unless_empty (j ∷ js) cs h = h

-- The rest of a group, once its children are read back.
pub with_ports-IsBody :
    (es : List (Text × Node)) (cs : ChildNodes) (p : GroupPorts) (name : Text)
    → IsBody es (encode_children cs) p
    → IsGroupPorts p
    → decode_items (to_items (encode_children cs)) ≡ ok cs
    → with_ports name (object_of es) (decode_modules (to_fields es)) ≡ ok (group_node name cs p)
unfolding with_ports
with_ports-IsBody es cs p name body h children =
    rw
      (
        decode_modules-lookup es,
        body.at_modules,
        modules_of-unless_empty (encode_children cs) cs children,
        decode_ports-IsBody es (encode_children cs) p body h,
      )
      refl

-- A child with the key "module" is a module.
pub decode_either-module :
    (j m : Node) (children : Result DecodeError ChildNodes)
    → find (codes "module") j ≡ some m
    → decode_either j children ≡ (decode_module j >>= λ k. ok (module_child k))
unfolding decode_either
decode_either-module j m children there =
    subst (λ found. (if is_some found then as_module else as_group) ≡ as_module) (sym there) refl
  where
    as_module : Result DecodeError ChildNode
    as_module = decode_module j >>= λ k. ok (module_child k)

    as_group : Result DecodeError ChildNode
    as_group = lift (string_at (codes "group") j) >>= λ name.
        with_ports name j children >>= λ g. ok (group_child g)

decode_child-module :
    (m : ModuleNode)
    → IsModuleNode m
    → decode_child (encode_child (module_child m)) ≡ ok (module_child m)
unfolding decode_child encode_child
decode_child-module m h =
    decode_either-module (object_of (module_entries m)) _ _ (found_module m)
    ∙ ap (λ r. r >>= λ k. ok (module_child k)) (decode_module-encode m h)

group_entries : ChildNodes → GroupPorts → Text → List (Text × Node)
group_entries cs p name =
    put (codes "group") (string_node name) (body_entries (encode_children cs) p)

found_no_module :
    (cs : ChildNodes) (p : GroupPorts) (name : Text)
    → lookup (codes "module") (group_entries cs p name) ≡ none
unfolding group_entries body_entries text_eq lookup
found_no_module cs p name = simp (lookup-put, lookup-put_some)

found_group :
    (cs : ChildNodes) (p : GroupPorts) (name : Text)
    → lookup (codes "group") (group_entries cs p name) ≡ some (string_node name)
unfolding group_entries text_eq lookup
found_group cs p name = simp lookup-put

decode_child-group :
    (name : Text) (cs : ChildNodes) (p : GroupPorts)
    → IsGroupPorts p
    → decode_items (to_items (encode_children cs)) ≡ ok cs
    → decode_child (encode_child (group_child (group_node name cs p)))
      ≡ ok (group_child (group_node name cs p))
unfolding decode_child encode_child group_entries string_at at
decode_child-group name cs p h children =
    rw
      (
        find-object_of (codes "module") es,
        find-object_of (codes "group") es,
        found_no_module cs p name,
        found_group cs p name,
        with_ports-IsBody es cs p name
            (put_group-IsBody (string_node name) (body_entries-IsBody (encode_children cs) p)) h
            children,
      )
      refl
  where
    es : List (Text × Node)
    es = group_entries cs p name

mutual
  unfolding decode_child encode_child to_items

  pub decode_child-encode_child :
      (c : ChildNode) → IsChildNode c → decode_child (encode_child c) ≡ ok c
  decode_child-encode_child (module_child m) h = decode_child-module m h
  decode_child-encode_child (group_child (group_node name cs p)) h =
      decode_child-group name cs p h.1 (decode_items-encode_children cs h.0)

  pub decode_items-encode_children :
      (cs : ChildNodes) → AllChildren cs → decode_items (to_items (encode_children cs)) ≡ ok cs
  decode_items-encode_children no_children h = refl
  decode_items-encode_children (child c cs) h =
      rw (decode_child-encode_child c h.0, decode_items-encode_children cs h.1) refl
