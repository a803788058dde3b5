-- ===== src/Tests/Composing.antt =====
-- Groups built by src/runtime/include/atp/runtime/group.hpp.
use ani_tools_platform.Prelude.{
  ℕ, ◌+◌, ◌≡◌, refl, true, false, [], ◌∷◌, ◌++◌, none, some, if◌then◌else◌, text_eq, codes, ok, err,
  All,
}
use ani_tools_platform.Io.Output.{any, member, connect}
use ani_tools_platform.Runtime.Tree.{Group, group, end, leaf, info, children}
use ani_tools_platform.Runtime.Compose.{
  plugin, composite, Faces, bad_path, duplicate_child, find_child, add, split_text, resolve_input,
  resolve_output, input_of, expose_input, Outputs, link, unlink, set_output,
}
use ani_tools_platform.Runtime.Compose.Names.{expose_input-finds}
use ani_tools_platform.Runtime.Compose.Links.{IsLinked, link-IsLinked, unlink-removes}
use ani_tools_platform.Tests.Pipelines.{info_at}

-- Every plugin's module `a` has one input "in" at 100 + a and one output "out" at 200 + a.
abbrev faces : Faces
faces = record {
  input = λ a name. if text_eq name (codes "in") then some (100 + a) else none;
  output = λ a name. if text_eq name (codes "out") then some (200 + a) else none;
}

abbrev pair_group : Group
pair_group = group (info_at 10 (codes "pair")) (leaf (codes "src") 1 (leaf (codes "dst") 2 end))

abbrev with_third : Group
with_third =
    group (info_at 10 (codes "pair"))
      (leaf (codes "src") 1 (leaf (codes "dst") 2 (leaf (codes "log") 3 end)))

splits : split_text (codes "radar.out.raw") ≡ ok (codes "radar", codes "out.raw")
unfolding split_text
splits = refl

refuses_port : split_text (codes "radar.") ≡ err bad_path
unfolding split_text
refuses_port = refl

refuses_name : add (codes "src") (some (plugin 3)) pair_group ≡ err duplicate_child
unfolding add find_child text_eq
refuses_name = refl

adds : add (codes "log") (some (plugin 3)) pair_group ≡ ok with_third
unfolding add find_child text_eq
adds = refl

abbrev exposing : Group
exposing =
    group (record (info_at 10 (codes "pair")) { inputs = (codes "feed", 102) ∷ [] })
      (leaf (codes "src") 1 (leaf (codes "dst") 2 end))

exposes : expose_input faces (codes "feed") (codes "dst.in") pair_group ≡ ok exposing
unfolding expose_input find_child text_eq
exposes = refl

expose_input-finds_example :
    (p : ℕ) × (resolve_input faces (codes "dst.in") pair_group ≡ ok p)
    × (input_of faces (composite exposing) (codes "feed") ≡ (
        if text_eq (codes "feed") (codes "feed")
        then some p
        else input_of faces (composite pair_group) (codes "feed")))
    × (children exposing ≡ children pair_group)
expose_input-finds_example =
    expose_input-finds faces (codes "feed") (codes "dst.in") pair_group exposing (codes "feed")
      exposes

abbrev outputs : Outputs
outputs a = record {
  element = record { name = 1; address = 1; starred = false };
  safe = true;
  targets = [];
  writes = 0;
}

abbrev linked_outputs : Outputs
linked_outputs = set_output 201 (record (outputs 201) { targets = 102 ∷ [] }) outputs

abbrev linked_group : Group
linked_group =
    group (record (info_at 10 (codes "pair")) { connections = (201, 102) ∷ [] })
      (leaf (codes "src") 1 (leaf (codes "dst") 2 end))

links :
    link faces (λ a. any) (codes "src.out") (codes "dst.in") (pair_group, outputs)
    ≡ ok (linked_group, linked_outputs)
unfolding link connect find_child text_eq
links = refl

link-IsLinked_example :
    (out : ℕ) × (in_port : ℕ) × (resolve_output faces (codes "src.out") pair_group ≡ ok out)
    × (resolve_input faces (codes "dst.in") pair_group ≡ ok in_port)
    × ((info linked_group).connections ≡ (info pair_group).connections ++ (out, in_port) ∷ [])
    × IsLinked (linked_group, linked_outputs)
link-IsLinked_example =
    link-IsLinked faces (λ a. any) (codes "src.out") (codes "dst.in") pair_group linked_group
      outputs linked_outputs tt links

unlink-removes_example :
    All
      (λ (c : ℕ × ℕ). member c.1 (unlink ((201, 102) ∷ []) linked_outputs c.0).targets ≡ false)
      ((201, 102) ∷ [])
unlink-removes_example = unlink-removes ((201, 102) ∷ []) linked_outputs
