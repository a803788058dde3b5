-- ===== src/Studio/Project/Valid/Groups.antt =====
-- src/studio/include/atp/studio/project.hpp and expose_cascade.hpp: the changes of the groups.
use ani_tools_platform.Prelude.{
  ◌≡◌, sym, List, [], ◌∷◌, some, Text, text_eq, Bool-cases, Option-cases, inl, inr, subst,
}
use ani_tools_platform.Config.Model.{
  ModuleNode, GroupPorts, ChildNode, module_child, group_child, GroupNode, group_node, ChildNodes,
  no_children, child, modules, ports,
}
use ani_tools_platform.Config.Model.Decode.Ports.{IsGroupPorts}
use ani_tools_platform.Config.Model.Decode.Modules.{IsModuleNode}
use ani_tools_platform.Config.Model.Decode.Groups.{IsChildNode, AllChildren}
use ani_tools_platform.Studio.Lookup.{child_name, segments_of, subgroup, find_at, find_group}
use ani_tools_platform.Studio.Cascade.{set_subgroup, change_at, change_group, with_ports}
use ani_tools_platform.Studio.Project.Settings.{change_child, on_module}
use ani_tools_platform.Studio.Project.Children.{push_back, erase_named, with_modules}

abbrev pub IsGroup : GroupNode → Type 0
IsGroup g = AllChildren (modules g) × IsGroupPorts (ports g)

subgroup-IsGroup :
    (name : Text) (cs : ChildNodes) (g : GroupNode)
    → AllChildren cs
    → subgroup name cs ≡ some g
    → IsGroup g
unfolding subgroup
subgroup-IsGroup name no_children g all h = absurd cc
subgroup-IsGroup name (child (module_child m) cs) g all h = subgroup-IsGroup name cs g all.1 h
subgroup-IsGroup name (child (group_child (group_node n ds q)) cs) g all h =
    elim (Bool-cases (text_eq n name)) [
      | inl same ↦
          subst (λ o. IsGroup o) {x = group_node n ds q} {y = g} (let found = rw same at h in cc)
            all.0
      | inr other ↦ subgroup-IsGroup name cs g all.1 (rw other at h)
    ]

find_at-IsGroup :
    (ss : List Text) (root g : GroupNode) → IsGroup root → find_at ss root ≡ some g → IsGroup g
unfolding find_at
find_at-IsGroup [] root g valid h = subst (λ o. IsGroup o) {x = root} {y = g} (cc) valid
find_at-IsGroup (s ∷ ss) root g valid h = elim (Option-cases (subgroup s (modules root))) [
  | inl missing ↦ absurd (let wrong = rw (find_at, missing) at h in cc)
  | inr (k, there) ↦
      find_at-IsGroup ss k g (subgroup-IsGroup s (modules root) k valid.0 there)
        (rw (find_at, there) at h)
]

pub find_group-IsGroup :
    (path : Text) (root g : GroupNode) → IsGroup root → find_group root path ≡ some g → IsGroup g
unfolding find_group
find_group-IsGroup path root g valid h = find_at-IsGroup (segments_of path) root g valid h

set_subgroup-AllChildren :
    (name : Text) (g : GroupNode) (cs : ChildNodes)
    → IsGroup g
    → AllChildren cs
    → AllChildren (set_subgroup name g cs)
unfolding set_subgroup
set_subgroup-AllChildren name g no_children valid all = tt
set_subgroup-AllChildren name g (child (module_child m) cs) valid all =
    (all.0, set_subgroup-AllChildren name g cs valid all.1)
set_subgroup-AllChildren name (group_node k es r) (child (group_child (group_node n ds q)) cs) valid
      all =
    elim (Bool-cases (text_eq n name)) [
      | inl same ↦ rw same (valid, all.1)
      | inr other ↦
          rw other (all.0, set_subgroup-AllChildren name (group_node k es r) cs valid all.1)
    ]

module _ (f : GroupNode → GroupNode) (keeps : (g : GroupNode) → IsGroup g → IsGroup (f g)) where
  change_at-IsGroup : (ss : List Text) (g : GroupNode) → IsGroup g → IsGroup (change_at ss f g)
  unfolding change_at
  change_at-IsGroup [] g valid = keeps g valid
  change_at-IsGroup (s ∷ ss) g valid = elim (Option-cases (subgroup s (modules g))) [
    | inl missing ↦ rw (change_at, missing) valid
    | inr (h, there) ↦
        rw (change_at, there)
          (
            set_subgroup-AllChildren s (change_at ss f h) (modules g)
                (change_at-IsGroup ss h (subgroup-IsGroup s (modules g) h valid.0 there)) valid.0,
            valid.1,
          )
  ]

  pub change_group-IsGroup :
      (path : Text) (g : GroupNode) → IsGroup g → IsGroup (change_group path f g)
  unfolding change_group
  change_group-IsGroup path g valid = change_at-IsGroup (segments_of path) g valid

change_at-found :
    (ss : List Text) (f : GroupNode → GroupNode) (root g : GroupNode)
    → IsGroup root
    → find_at ss root ≡ some g
    → IsGroup (f g)
    → IsGroup (change_at ss f root)
unfolding change_at find_at
change_at-found [] f root g valid h made =
    subst (λ o. IsGroup (f o)) {x = g} {y = root} (sym (let same = h in cc)) made
change_at-found (s ∷ ss) f root g valid h made = elim (Option-cases (subgroup s (modules root))) [
  | inl missing ↦ rw (change_at, missing) valid
  | inr (k, there) ↦
      rw (change_at, there)
        (
          set_subgroup-AllChildren s (change_at ss f k) (modules root)
              (change_at-found ss f k g (subgroup-IsGroup s (modules root) k valid.0 there)
                (rw (find_at, there) at h) made)
              valid.0,
          valid.1,
        )
]

-- Where only the group that is found has to stay one.
pub change_group-found :
    (path : Text) (f : GroupNode → GroupNode) (root g : GroupNode)
    → IsGroup root
    → find_group root path ≡ some g
    → IsGroup (f g)
    → IsGroup (change_group path f root)
unfolding change_group find_group
change_group-found path f root g valid h made =
    change_at-found (segments_of path) f root g valid h made

pub with_ports-IsGroup :
    (f : GroupPorts → GroupPorts)
    → ((q : GroupPorts) → IsGroupPorts q → IsGroupPorts (f q))
    → (g : GroupNode) → IsGroup g
    → IsGroup (with_ports f g)
with_ports-IsGroup f keeps (group_node n cs q) valid = (valid.0, keeps q valid.1)

pub with_modules-IsGroup :
    (f : ChildNodes → ChildNodes)
    → ((cs : ChildNodes) → AllChildren cs → AllChildren (f cs))
    → (g : GroupNode) → IsGroup g
    → IsGroup (with_modules f g)
with_modules-IsGroup f keeps (group_node n cs q) valid = (keeps cs valid.0, valid.1)

pub push_back-AllChildren :
    (c : ChildNode) (cs : ChildNodes)
    → IsChildNode c
    → AllChildren cs
    → AllChildren (push_back c cs)
unfolding push_back
push_back-AllChildren c no_children valid all = (valid, tt)
push_back-AllChildren c (child d cs) valid all = (all.0, push_back-AllChildren c cs valid all.1)

pub erase_named-AllChildren :
    (name : Text) (cs : ChildNodes) → AllChildren cs → AllChildren (erase_named name cs)
unfolding erase_named
erase_named-AllChildren name no_children all = tt
erase_named-AllChildren name (child c cs) all = elim (Bool-cases (text_eq (child_name c) name)) [
  | inl same ↦ rw same (erase_named-AllChildren name cs all.1)
  | inr other ↦ rw other (all.0, erase_named-AllChildren name cs all.1)
]

pub change_child-AllChildren :
    (name : Text) (f : ChildNode → ChildNode)
    → ((c : ChildNode) → IsChildNode c → IsChildNode (f c))
    → (cs : ChildNodes) → AllChildren cs
    → AllChildren (change_child name f cs)
unfolding change_child
change_child-AllChildren name f keeps no_children all = tt
change_child-AllChildren name f keeps (child c cs) all =
    elim (Bool-cases (text_eq (child_name c) name)) [
      | inl same ↦ rw same (keeps c all.0, all.1)
      | inr other ↦ rw other (all.0, change_child-AllChildren name f keeps cs all.1)
    ]

pub on_module-IsChildNode :
    (f : ModuleNode → ModuleNode)
    → ((m : ModuleNode) → IsModuleNode m → IsModuleNode (f m))
    → (c : ChildNode) → IsChildNode c
    → IsChildNode (on_module f c)
on_module-IsChildNode f keeps (module_child m) valid = keeps m valid
on_module-IsChildNode f keeps (group_child g) valid = valid
