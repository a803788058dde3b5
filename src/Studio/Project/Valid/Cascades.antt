-- ===== src/Studio/Project/Valid/Cascades.antt =====
-- src/studio/include/atp/studio/expose_cascade.hpp: the ports of the groups that the walks change.
use ani_tools_platform.Prelude.{
  ℕ, zero, suc, Bool, true, false, ◌||◌, List, length, Text, Bool-cases, Option-cases, inl, inr,
}
use ani_tools_platform.Config.Model.{GroupPorts, GroupNode, ports}
use ani_tools_platform.Config.Model.Decode.Ports.{IsGroupPorts}
use ani_tools_platform.Config.Model.Decode.Keys.{DistinctKeys}
use ani_tools_platform.Studio.NodeRef.{is_empty, parse}
use ani_tools_platform.Studio.Lookup.{find_group}
use ani_tools_platform.Studio.Cascade.{
  LostAliases, none_lost, CascadeCount, no_count, keep, drop_references, cascade,
  cascade_lost_aliases, rename_aliases, rename_references, rewrite_alias_above, take_exports_of,
}
use ani_tools_platform.Studio.Project.Children.{detach_ports}
use ani_tools_platform.Studio.Project.Ports.{with_aliases}
use ani_tools_platform.Studio.Project.Valid.Keys.{
  keep-Sublist, Sublist-DistinctKeys, rename_target-DistinctKeys,
}
use ani_tools_platform.Studio.Project.Valid.Groups.{
  IsGroup, find_group-IsGroup, change_group-IsGroup, with_ports-IsGroup,
}

keep-DistinctKeys :
    (gone : Text → Bool) (m : List (Text × Text)) → DistinctKeys m → DistinctKeys (keep gone m)
keep-DistinctKeys gone m = Sublist-DistinctKeys (keep gone m) m (keep-Sublist gone m)

drop_references-IsGroupPorts :
    (self : Text) (lost : LostAliases) (q : GroupPorts)
    → IsGroupPorts q
    → IsGroupPorts (drop_references self lost q).0
unfolding drop_references
drop_references-IsGroupPorts self lost q valid = record {
  inputs = keep-DistinctKeys _ q.expose_inputs valid.inputs;
  outputs = keep-DistinctKeys _ q.expose_outputs valid.outputs;
}

pub detach_ports-IsGroupPorts :
    (name : Text) (q : GroupPorts) → IsGroupPorts q → IsGroupPorts (detach_ports name q).0
unfolding detach_ports take_exports_of
detach_ports-IsGroupPorts name q valid = record {
  inputs = keep-DistinctKeys _ q.expose_inputs valid.inputs;
  outputs = keep-DistinctKeys _ q.expose_outputs valid.outputs;
}

cascade-IsGroup :
    (fuel : ℕ) (root : GroupNode) (path : Text) (lost : LostAliases) (n : CascadeCount)
    → IsGroup root
    → IsGroup (cascade fuel root path lost n).0
unfolding cascade
cascade-IsGroup zero root path lost n valid = valid
cascade-IsGroup (suc fuel) root path lost n valid =
    elim (Bool-cases (is_empty path || none_lost lost)) [
      | inl over ↦ rw (cascade, over) valid
      | inr on ↦ elim (Option-cases (find_group root (parse path).group)) [
        | inl missing ↦ rw (cascade, on, missing) valid
        | inr (parent, there) ↦
            rw (cascade, on, there)
              (cascade-IsGroup fuel _ (parse path).group _ _ (
                change_group-IsGroup _
                  (with_ports-IsGroup _ (λ r was.
                    drop_references-IsGroupPorts (parse path).name lost (ports parent)
                      (find_group-IsGroup (parse path).group root parent valid there).1))
                  (parse path).group root valid))
      ]
    ]

pub cascade_lost_aliases-IsGroup :
    (root : GroupNode) (path : Text) (lost : LostAliases)
    → IsGroup root
    → IsGroup (cascade_lost_aliases root path lost).0
unfolding cascade_lost_aliases
cascade_lost_aliases-IsGroup root path lost valid =
    cascade-IsGroup (length path) root path lost no_count valid

rename_references-IsGroupPorts :
    (input : Bool) (was now : Text) (q : GroupPorts)
    → IsGroupPorts q
    → IsGroupPorts (rename_references input was now q)
unfolding rename_references rename_aliases
rename_references-IsGroupPorts true was now q valid = record {
  inputs = rename_target-DistinctKeys was now q.expose_inputs valid.inputs;
  outputs = valid.outputs;
}
rename_references-IsGroupPorts false was now q valid = record {
  inputs = valid.inputs;
  outputs = rename_target-DistinctKeys was now q.expose_outputs valid.outputs;
}

pub rewrite_alias_above-IsGroup :
    (root : GroupNode) (path was now : Text) (input : Bool)
    → IsGroup root
    → IsGroup (rewrite_alias_above root path was now input)
unfolding rewrite_alias_above
rewrite_alias_above-IsGroup root path was now input valid = elim (Bool-cases (is_empty path)) [
  | inl over ↦ rw over valid
  | inr on ↦ elim (Option-cases (find_group root (parse path).group)) [
    | inl missing ↦ rw (rewrite_alias_above, on, missing) valid
    | inr (parent, there) ↦
        rw (rewrite_alias_above, on, there)
          (change_group-IsGroup _ (with_ports-IsGroup _ (rename_references-IsGroupPorts input _ _))
            (parse path).group root valid)
  ]
]

pub with_aliases-IsGroupPorts :
    (input : Bool) (f : List (Text × Text) → List (Text × Text)) (q : GroupPorts)
    → ((m : List (Text × Text)) → DistinctKeys m → DistinctKeys (f m))
    → IsGroupPorts q
    → IsGroupPorts (with_aliases input f q)
with_aliases-IsGroupPorts true f q keeps valid = record {
  inputs = keeps q.expose_inputs valid.inputs;
  outputs = valid.outputs;
}
with_aliases-IsGroupPorts false f q keeps valid = record {
  inputs = valid.inputs;
  outputs = keeps q.expose_outputs valid.outputs;
}
