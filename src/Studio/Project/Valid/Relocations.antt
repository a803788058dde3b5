-- ===== src/Studio/Project/Valid/Relocations.antt =====
-- src/studio/include/atp/studio/project.hpp: renaming, moving and copying a child.
use ani_tools_platform.Prelude.{
  ◌≡◌, refl, sym, ap, ◌∙◌, not, List, [], ◌∷◌, none, some, Text, text_eq, Result, ok, ◌>>=◌, ◌>>◌,
  guard, >>=-eq-ok, if◌then◌else◌, Bool-cases, Option-cases, inl, inr, subst,
}
use ani_tools_platform.Prelude.Assoc.{lookup, name_eq}
use ani_tools_platform.Config.Model.{
  GroupPorts, ChildNode, module_child, group_child, GroupNode, group_node, ChildNodes, no_children,
  child, Config, modules, ports,
}
use ani_tools_platform.Config.Model.Decode.Keys.{DistinctKeys}
use ani_tools_platform.Config.Model.Decode.Ports.{IsGroupPorts}
use ani_tools_platform.Config.Model.Decode.Groups.{IsChildNode, AllChildren}
use ani_tools_platform.Config.Model.Decode.RoundTrip.{IsConfig}
use ani_tools_platform.Studio.NodeRef.{contains}
use ani_tools_platform.Studio.Lookup.{
  EditError, same_group, own_subtree, check_name, child_name, find_child, find_group, clone_child,
  clone_children,
}
use ani_tools_platform.Studio.Cascade.{with_ports}
use ani_tools_platform.Studio.Project.{
  Project, Position, commit, commit_placed, require_group, change_pipeline,
}
use ani_tools_platform.Studio.Project.Children.{
  append, push_back, with_modules, require_child, require_free_name, detach_ports, set_name,
  rename_targets, rename_ports, rename_child,
}
use ani_tools_platform.Studio.Project.Moves.{take_out, moved_config, move_child, copy_child}
use ani_tools_platform.Studio.Project.Settings.{change_child}
use ani_tools_platform.Studio.Project.Valid.{
  pipeline-IsConfig, assignments-IsConfig, change_pipeline-IsConfig,
}
use ani_tools_platform.Studio.Project.Valid.Groups.{
  IsGroup, find_group-IsGroup, with_ports-IsGroup, with_modules-IsGroup, push_back-AllChildren,
  change_child-AllChildren,
}
use ani_tools_platform.Studio.Project.Valid.Cascades.{
  detach_ports-IsGroupPorts, cascade_lost_aliases-IsGroup,
}

set_name-IsChildNode : (name : Text) (c : ChildNode) → IsChildNode c → IsChildNode (set_name name c)
set_name-IsChildNode name (module_child m) valid = record {
  declared = valid.declared;
  distinct = valid.distinct;
}
set_name-IsChildNode name (group_child (group_node n cs q)) valid = valid

mutual
  unfolding clone_child

  clone_child-eq : (c : ChildNode) → clone_child c ≡ c
  clone_child-eq (module_child m) = refl
  clone_child-eq (group_child (group_node n cs q)) =
      ap (λ ds. group_child (group_node n ds q)) (clone_children-eq cs)

  clone_children-eq : (cs : ChildNodes) → clone_children cs ≡ cs
  clone_children-eq no_children = refl
  clone_children-eq (child c cs) =
      ap (λ d. child d (clone_children cs)) (clone_child-eq c) ∙ ap (child c) (clone_children-eq cs)

find_child-IsChildNode :
    (name : Text) (cs : ChildNodes) (c : ChildNode)
    → AllChildren cs
    → find_child cs name ≡ some c
    → IsChildNode c
unfolding find_child
find_child-IsChildNode name no_children c all h = absurd cc
find_child-IsChildNode name (child d cs) c all h = elim (Bool-cases (text_eq (child_name d) name)) [
  | inl same ↦
      subst (λ (k : ChildNode). IsChildNode k) {x = d} {y = c} (let found = rw same at h in cc)
        all.0
  | inr other ↦ find_child-IsChildNode name cs c all.1 (rw other at h)
]

take_out-AllChildren :
    (name : Text) (cs : ChildNodes) → AllChildren cs → AllChildren (take_out name cs)
unfolding take_out
take_out-AllChildren name no_children all = tt
take_out-AllChildren name (child c cs) all = elim (Bool-cases (text_eq (child_name c) name)) [
  | inl same ↦ rw same all.1
  | inr other ↦ rw other (all.0, take_out-AllChildren name cs all.1)
]

rename_targets-lookup :
    (was now k : Text) (m : List (Text × Text))
    → lookup k m ≡ none
    → lookup k (rename_targets was now m) ≡ none
unfolding rename_targets lookup
rename_targets-lookup was now k [] h = refl
rename_targets-lookup was now k ((a, path) ∷ m) h = elim (Bool-cases (text_eq a k)) [
  | inl same ↦ absurd (let wrong = rw same at h in cc)
  | inr other ↦ rw other (rename_targets-lookup was now k m (rw other at h))
]

rename_targets-DistinctKeys :
    (was now : Text) (m : List (Text × Text))
    → DistinctKeys m
    → DistinctKeys (rename_targets was now m)
unfolding rename_targets
rename_targets-DistinctKeys was now [] h = tt
rename_targets-DistinctKeys was now ((a, path) ∷ m) h =
    (rename_targets-lookup was now a m h.0, rename_targets-DistinctKeys was now m h.1)

rename_ports-IsGroupPorts :
    (was now : Text) (q : GroupPorts) → IsGroupPorts q → IsGroupPorts (rename_ports was now q)
unfolding rename_ports
rename_ports-IsGroupPorts was now q valid = record {
  inputs = rename_targets-DistinctKeys was now q.expose_inputs valid.inputs;
  outputs = rename_targets-DistinctKeys was now q.expose_outputs valid.outputs;
}

require_group-IsGroup :
    (cfg : Config) (path : Text) (g : GroupNode)
    → IsConfig cfg
    → require_group cfg path ≡ ok g
    → IsGroup g
unfolding require_group
require_group-IsGroup cfg path g valid h = elim (Option-cases (find_group cfg.pipeline path)) [
  | inl missing ↦ absurd (let wrong = rw (require_group, missing) at h in cc)
  | inr (k, there) ↦
      find_group-IsGroup path cfg.pipeline g (valid.children, valid.ports)
        (there ∙ (let found = rw (require_group, there) at h in cc))
]

require_child-IsChildNode :
    (g : GroupNode) (name : Text) (c : ChildNode)
    → IsGroup g
    → require_child g name ≡ ok c
    → IsChildNode c
unfolding require_child
require_child-IsChildNode g name c valid h = elim (Option-cases (find_child (modules g) name)) [
  | inl missing ↦ absurd (let wrong = rw (require_child, missing) at h in cc)
  | inr (k, there) ↦
      find_child-IsChildNode name (modules g) c valid.0
        (there ∙ (let found = rw (require_child, there) at h in cc))
]

append-IsConfig :
    (cfg : Config) (path : Text) (c : ChildNode)
    → IsConfig cfg
    → IsChildNode c
    → IsConfig (change_pipeline path (append c) cfg)
unfolding append
append-IsConfig cfg path c valid new =
    change_pipeline-IsConfig valid path (append c)
      (with_modules-IsGroup (push_back c) (λ cs all. push_back-AllChildren c cs new all))

clone_child-IsChildNode : (c : ChildNode) → IsChildNode c → IsChildNode (clone_child c)
clone_child-IsChildNode c valid =
    subst (λ (d : ChildNode). IsChildNode d) (sym (clone_child-eq c)) valid

-- The configuration that an operation commits, up to the assigned paths.
module _ (p q : Project) (distinct : DistinctKeys q.cfg.assignments) where
  committed-IsConfig :
      (cfg : Config) (positions : List (Text × Position))
      → (DistinctKeys cfg.assignments → IsConfig cfg)
      → ◌≡◌ {A = Result EditError Project} (ok (commit_placed p cfg positions)) (ok q)
      → IsConfig q.cfg
  unfolding commit_placed commit
  committed-IsConfig cfg positions made same =
      let result : commit_placed p cfg positions ≡ q = cc in
      let placed : cfg ≡ q.cfg = ap (λ (r : Project). r.cfg) result in
      subst (λ (c : Config). IsConfig c) placed
        (made (subst (λ (c : Config). DistinctKeys c.assignments) (sym placed) distinct))

  module _ (valid : IsConfig p.cfg) where
    pub rename_child-IsConfig : (g n m : Text) → rename_child p g n m ≡ ok q → IsConfig q.cfg
    unfolding rename_child
    rename_child-IsConfig g n m h =
        let (from, there, rest) = >>=-eq-ok (require_group p.cfg g) _ h in
        let (c, found, checked) = >>=-eq-ok (require_child from n) _ rest in
        let (u, checks, done) =
          >>=-eq-ok (check_name m >> (if text_eq m n then ok tt else require_free_name from m)) _
            checked in
        committed-IsConfig _ _
          (λ fresh.
            assignments-IsConfig
              (change_pipeline-IsConfig valid g
                (λ (k : GroupNode).
                  with_ports (rename_ports n m) (with_modules (change_child n (set_name m)) k))
                (λ k group.
                  with_ports-IsGroup (rename_ports n m) (rename_ports-IsGroupPorts n m)
                    (with_modules (change_child n (set_name m)) k)
                    (with_modules-IsGroup (change_child n (set_name m))
                      (change_child-AllChildren n (set_name m) (set_name-IsChildNode m)) k group)))
              fresh)
          done

    moved_config-IsConfig :
        (g n h : Text) (from : GroupNode) (c : ChildNode) (name : Text)
        → IsChildNode c
        → DistinctKeys (moved_config p.cfg g n h from c name).0.assignments
        → IsConfig (moved_config p.cfg g n h from c name).0
    unfolding moved_config
    moved_config-IsConfig g n h from c name child_valid fresh =
        let there =
          append-IsConfig _ h (set_name name c)
            (change_pipeline-IsConfig valid g
              (λ (k : GroupNode).
                with_ports (λ r. (detach_ports n r).0) (with_modules (take_out n) k))
              (λ k group.
                with_ports-IsGroup (λ r. (detach_ports n r).0) (detach_ports-IsGroupPorts n)
                  (with_modules (take_out n) k)
                  (with_modules-IsGroup (take_out n) (take_out-AllChildren n) k group)))
            (set_name-IsChildNode name c child_valid) in
        assignments-IsConfig
          (pipeline-IsConfig there (
            cascade_lost_aliases-IsGroup _ g (detach_ports n (ports from)).1
              (there.children, there.ports)))
          fresh

    pub move_child-IsConfig :
        (g n h : Text) → (move_child p g n h >>= λ r. ok r.0) ≡ ok q → IsConfig q.cfg
    unfolding move_child
    move_child-IsConfig g n h e =
        let (r, call, last) = >>=-eq-ok (move_child p g n h) _ e in
        let (from, there, rest) = >>=-eq-ok (require_group p.cfg g) _ call in
        let (c, found, checked) = >>=-eq-ok (require_child from n) _ rest in
        let (u, checks, went) =
          >>=-eq-ok
            (guard (not (text_eq g h)) same_group
              >> guard (not (contains (record { group = g; name = n }) h)) own_subtree)
            _ checked in
        let (to, target, done) = >>=-eq-ok (require_group p.cfg h) _ went in
        committed-IsConfig _ _
          (moved_config-IsConfig g n h from c _ (
            require_child-IsChildNode from n c (require_group-IsGroup p.cfg g from valid there)
              found))
          (ap (λ s. s >>= λ t. ok t.0) done ∙ last)

    pub copy_child-IsConfig :
        (g n h : Text) → (copy_child p g n h >>= λ r. ok r.0) ≡ ok q → IsConfig q.cfg
    unfolding copy_child
    copy_child-IsConfig g n h e =
        let (r, call, last) = >>=-eq-ok (copy_child p g n h) _ e in
        let (from, there, rest) = >>=-eq-ok (require_group p.cfg g) _ call in
        let (c, found, went) = >>=-eq-ok (require_child from n) _ rest in
        let (to, target, done) = >>=-eq-ok (require_group p.cfg h) _ went in
        committed-IsConfig _ _
          (λ fresh.
            assignments-IsConfig
              (append-IsConfig p.cfg h _ valid (
                set_name-IsChildNode _ (clone_child c) (
                  clone_child-IsChildNode c (
                    require_child-IsChildNode from n c
                      (require_group-IsGroup p.cfg g from valid there) found))))
              fresh)
          (ap (λ s. s >>= λ t. ok t.0) done ∙ last)
