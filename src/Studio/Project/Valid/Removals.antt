-- ===== src/Studio/Project/Valid/Removals.antt =====
-- src/studio/include/atp/studio/project.hpp: removing children, one after another in one scope.
use ani_tools_platform.Prelude.{
  ◌≡◌, refl, sym, List, [], ◌∷◌, Text, Result, ok, err, ◌>>=◌, >>=-eq-ok, arith, subst,
}
use ani_tools_platform.Prelude.Assoc.{name_eq}
use ani_tools_platform.Config.Model.{GroupNode, Config, ports}
use ani_tools_platform.Config.Model.Decode.RoundTrip.{IsConfig}
use ani_tools_platform.Studio.NodeRef.{full}
use ani_tools_platform.Studio.Lookup.{EditError}
use ani_tools_platform.Studio.Cascade.{with_ports}
use ani_tools_platform.Studio.Project.{Project, snapshot, require_group, open_scope, close_scope}
use ani_tools_platform.Studio.Project.Children.{
  erase_named, detach_ports, with_modules, remove_children, remove_one_child, remove_each,
}
use ani_tools_platform.Studio.Project.Valid.Keys.{Sublist-DistinctKeys, erase_under-Sublist}
use ani_tools_platform.Studio.Project.Valid.Groups.{
  with_ports-IsGroup, with_modules-IsGroup, erase_named-AllChildren,
}
use ani_tools_platform.Studio.Project.Valid.Cascades.{
  detach_ports-IsGroupPorts, cascade_lost_aliases-IsGroup,
}
use ani_tools_platform.Studio.Project.Valid.{
  IsValid, IsValid->>=, IsConfig-IsValid, pipeline-IsConfig, assignments-IsConfig,
  change_pipeline-IsConfig,
}

remove_one_child-IsValid :
    (g n : Text) (p : Project) → IsConfig p.cfg → IsValid (remove_one_child g n p)
unfolding remove_one_child IsValid
remove_one_child-IsValid g n p valid = IsValid->>= (require_group p.cfg g) _ λ (found : GroupNode).
    let cut =
      change_pipeline-IsConfig valid g
        (λ (h : GroupNode). with_ports (λ q. (detach_ports n q).0) (with_modules (erase_named n) h))
        (λ h group.
          with_ports-IsGroup (λ q. (detach_ports n q).0) (detach_ports-IsGroupPorts n)
            (with_modules (erase_named n) h)
            (with_modules-IsGroup (erase_named n) (erase_named-AllChildren n) h group)) in
    assignments-IsConfig
      (pipeline-IsConfig cut (
        cascade_lost_aliases-IsGroup _ g (detach_ports n (ports found)).1
          (cut.children, cut.ports)))
      (Sublist-DistinctKeys _ _
        (erase_under-Sublist (full (record { group = g; name = n })) p.cfg.assignments)
        valid.assigned_once)

remove_one_child-IsConfig :
    (g n : Text) (p q : Project) → IsConfig p.cfg → remove_one_child g n p ≡ ok q → IsConfig q.cfg
unfolding IsValid
remove_one_child-IsConfig g n p q valid h = subst IsValid h (remove_one_child-IsValid g n p valid)

remove_each-IsConfig :
    (g : Text) (ns : List Text) (p q : Project)
    → IsConfig p.cfg
    → remove_each g ns p ≡ ok q
    → IsConfig q.cfg
unfolding remove_each
remove_each-IsConfig g [] p q valid h =
    subst (λ (r : Project). IsConfig r.cfg) {x = p} {y = q} (let same = h in cc) valid
remove_each-IsConfig g (n ∷ ns) p q valid h =
    let (r, first, rest) = >>=-eq-ok (remove_one_child g n p) _ h in
    remove_each-IsConfig g ns r q (remove_one_child-IsConfig g n p r valid first) rest

scope-IsValid :
    (call : Result EditError Project)
    → ((q : Project) → call ≡ ok q → IsConfig q.cfg)
    → IsValid (call >>= λ q. ok (close_scope q))
unfolding IsValid
scope-IsValid (err e) h = tt
scope-IsValid (ok q) h = h q refl

snapshot-cfg : (p : Project) → (snapshot p).cfg ≡ p.cfg
unfolding snapshot
snapshot-cfg p = ground arith

open_scope-IsConfig : (p : Project) → IsConfig p.cfg → IsConfig (open_scope p).cfg
unfolding open_scope
open_scope-IsConfig p valid = subst (λ (c : Config). IsConfig c) (sym (snapshot-cfg p)) valid

pub remove_children-IsValid :
    (p : Project) → IsConfig p.cfg → (g : Text) (ns : List Text) → IsValid (remove_children p g ns)
unfolding remove_children
remove_children-IsValid p valid g [] =
    IsValid->>= (require_group p.cfg g) _ λ h. IsConfig-IsValid p valid
remove_children-IsValid p valid g (n ∷ ns) =
    let body =
      scope-IsValid (remove_each g (n ∷ ns) (open_scope p))
        (λ q. remove_each-IsConfig g (n ∷ ns) (open_scope p) q (open_scope-IsConfig p valid)) in
    search (IsValid->>=)
