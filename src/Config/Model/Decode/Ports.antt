-- ===== src/Config/Model/Decode/Ports.antt =====
-- Decoding the ports and the connections of a group that `encode` of
-- src/runtime/include/atp/runtime/config_model.hpp wrote.
use ani_tools_platform.Prelude.{
  ◌≡◌, refl, ◌∙◌, List, [], ◌∷◌, ◌++◌, map, append-eq-nil, Option, Text, text_eq, codes, ok,
}
use ani_tools_platform.Prelude.Assoc.{lookup, put, lookup-put, name_eq}
use ani_tools_platform.Config.Node.{
  Node, array_of, object_of, to_fields, to_entries, entries, find, at, string_at,
}
use ani_tools_platform.Config.Model.{ConnectionNode, GroupPorts}
use ani_tools_platform.Config.Model.Encode.{
  unless_empty, directed, expose_entries, encode_connection, body_entries,
}
use ani_tools_platform.Config.Model.Decode.{
  decode_expose, find_in, decode_connections, decode_ports,
}
use ani_tools_platform.Config.Model.Decode.Modules.{or_else-none}
use ani_tools_platform.Config.Model.Decode.Keys.{
  DistinctKeys, lookup-put_some, decode_texts-directed, elements_of-map, find-object_of,
}

pub record IsGroupPorts (p : GroupPorts) : Type 0 where
  pub inputs : DistinctKeys p.expose_inputs
  pub outputs : DistinctKeys p.expose_outputs

decode_connections-encode :
    (cs : List ConnectionNode) → decode_connections (map encode_connection cs) ≡ ok cs
unfolding decode_connections encode_connection string_at at find entries to_entries to_fields lookup
    text_eq
decode_connections-encode [] = refl
decode_connections-encode (c ∷ cs) = rw (decode_connections-encode cs) refl

module _ (p : GroupPorts) where
  abbrev pub expose : Option Node
  expose = unless_empty (p.expose_inputs ++ p.expose_outputs) (object_of (expose_entries p))

  found_inputs : find (codes "inputs") (object_of (expose_entries p)) ≡ directed p.expose_inputs
  unfolding expose_entries text_eq lookup
  found_inputs = simp (find-object_of, lookup-put_some, or_else-none)

  found_outputs : find (codes "outputs") (object_of (expose_entries p)) ≡ directed p.expose_outputs
  unfolding expose_entries text_eq lookup
  found_outputs = simp (find-object_of, lookup-put_some, or_else-none)

  module _ (key : Text) (aliases : List (Text × Text)) where
    find_in-exposed :
        (ins outs : List (Text × Text)) (es : List (Text × Node))
        → find key (object_of es) ≡ directed aliases
        → (ins ++ outs ≡ [] → aliases ≡ [])
        → find_in key (unless_empty (ins ++ outs) (object_of es)) ≡ directed aliases
    unfolding find_in directed
    find_in-exposed [] [] es h none_there = rw (none_there refl) refl
    find_in-exposed [] (e ∷ outs) es h none_there = h
    find_in-exposed (e ∷ ins) outs es h none_there = h

-- The entries of a group's body, alone or behind the entry "group" of a subgroup.
pub record IsBody (es : List (Text × Node)) (children : List Node) (p : GroupPorts) : Type 0 where
  pub at_modules : lookup (codes "modules") es ≡ unless_empty children (array_of children)
  pub at_expose : lookup (codes "expose") es ≡ expose p
  pub at_connections :
      lookup (codes "connections") es
      ≡ unless_empty p.connections (array_of (map encode_connection p.connections))

pub body_entries-IsBody :
    (children : List Node) (p : GroupPorts) → IsBody (body_entries children p) children p
unfolding body_entries text_eq lookup
body_entries-IsBody children p = record {
  at_modules = simp (lookup-put_some, or_else-none);
  at_expose = simp (lookup-put_some, or_else-none);
  at_connections = simp (lookup-put_some, or_else-none);
}

pub put_group-IsBody :
    (name : Node) {es : List (Text × Node)} {children : List Node} {p : GroupPorts}
    → IsBody es children p
    → IsBody (put (codes "group") name es) children p
unfolding text_eq
put_group-IsBody name body = record {
  at_modules = lookup-put _ _ name _ ∙ body.at_modules;
  at_expose = lookup-put _ _ name _ ∙ body.at_expose;
  at_connections = lookup-put _ _ name _ ∙ body.at_connections;
}

pub decode_ports-IsBody :
    (es : List (Text × Node)) (children : List Node) (p : GroupPorts)
    → IsBody es children p
    → IsGroupPorts p
    → decode_ports (object_of es) ≡ ok p
unfolding decode_ports decode_expose
decode_ports-IsBody es children p body h =
    rw
      (
        find-object_of (codes "expose") es,
        find-object_of (codes "connections") es,
        body.at_expose,
        body.at_connections,
        find_in-exposed p (codes "inputs") p.expose_inputs p.expose_inputs p.expose_outputs
            (expose_entries p) (found_inputs p) (λ e. (append-eq-nil _ _ e).0),
        find_in-exposed p (codes "outputs") p.expose_outputs p.expose_inputs p.expose_outputs
            (expose_entries p) (found_outputs p) (λ e. (append-eq-nil _ _ e).1),
        decode_texts-directed p.expose_inputs h.inputs,
        decode_texts-directed p.expose_outputs h.outputs,
        elements_of-map encode_connection p.connections,
        decode_connections-encode,
      )
      refl
