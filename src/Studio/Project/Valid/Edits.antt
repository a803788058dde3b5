-- ===== src/Studio/Project/Valid/Edits.antt =====
-- src/studio/include/atp/studio/project.hpp: the operations on children, connections and aliases.
use ani_tools_platform.Prelude.{
  ℕ, ◌≡◌, Bool, true, false, not, [], ◌∷◌, ◌++◌, Option, none, some, Text, text_eq, ok, ◌>>◌, guard,
  if◌then◌else◌, inl, inr, Option-cases,
}
use ani_tools_platform.Prelude.Assoc.{put, erase, name_eq}
use ani_tools_platform.Version.{Version}
use ani_tools_platform.Config.Model.{
  GroupPorts, ChildNode, module_child, group_child, GroupNode, group_node, no_children, no_ports,
  Config, ports,
}
use ani_tools_platform.Config.Model.Decode.Modules.{IsDeclared}
use ani_tools_platform.Config.Model.Decode.Ports.{IsGroupPorts}
use ani_tools_platform.Config.Model.Decode.Groups.{IsChildNode}
use ani_tools_platform.Config.Model.Decode.RoundTrip.{IsConfig}
use ani_tools_platform.Studio.Lookup.{no_alias, duplicate_alias, check_name, find_group}
use ani_tools_platform.Studio.Cascade.{
  cascade_lost_aliases, rewrite_alias_above, has_alias, aliases, with_ports,
}
use ani_tools_platform.Studio.Project.{Project, commit, require_group, change_pipeline}
use ani_tools_platform.Studio.Project.Children.{push_back, add_module, add_group, append, name_or}
use ani_tools_platform.Studio.Project.Ports.{
  remove_nth, lost_alias, connect, disconnect, with_aliases, set_expose, remove_expose, rename_key,
  rename_expose,
}
use ani_tools_platform.Studio.Project.Valid.Keys.{
  Sublist-DistinctKeys, put-DistinctKeys, erase-Sublist, rename_key-DistinctKeys,
}
use ani_tools_platform.Studio.Project.Valid.Groups.{
  IsGroup, find_group-IsGroup, change_group-found, with_ports-IsGroup, with_modules-IsGroup,
  push_back-AllChildren,
}
use ani_tools_platform.Studio.Project.Valid.Cascades.{
  cascade_lost_aliases-IsGroup, rewrite_alias_above-IsGroup, with_aliases-IsGroupPorts,
}
use ani_tools_platform.Studio.Project.Valid.{
  IsValid, IsValid->>=, IsValid-if, IsConfig-IsValid, not-true, IsValid-guard, commit-IsValid,
  pipeline-IsConfig, change_pipeline-IsConfig,
}

pub with_ports-Valid :
    {cfg : Config} (path : Text) (f : GroupPorts → GroupPorts)
    → IsConfig cfg
    → ((q : GroupPorts) → IsGroupPorts q → IsGroupPorts (f q))
    → IsConfig (change_pipeline path (with_ports f) cfg)
with_ports-Valid path f valid keeps =
    change_pipeline-IsConfig valid path (with_ports f) (with_ports-IsGroup f keeps)

module _ (p : Project) (valid : IsConfig p.cfg) where
  append-IsValid :
      (g : Text) (c : ChildNode)
      → IsChildNode c
      → IsValid (ok (commit p (change_pipeline g (append c) p.cfg)))
  unfolding append
  append-IsValid g c new = commit-IsValid p _ (
      change_pipeline-IsConfig valid g (append c)
        (with_modules-IsGroup (push_back c) (λ cs all. push_back-AllChildren c cs new all)))

  ports-IsValid :
      (g : Text) (f : GroupPorts → GroupPorts)
      → ((q : GroupPorts) → IsGroupPorts q → IsGroupPorts (f q))
      → IsValid (ok (commit p (change_pipeline g (with_ports f) p.cfg)))
  ports-IsValid g f keeps = commit-IsValid p _ (with_ports-Valid g f valid keeps)

  pub add_module-IsValid :
      (g f n : Text) (v : Option Version) → IsDeclared v → IsValid (add_module p g f n v)
  unfolding add_module
  add_module-IsValid g f n v declared =
      let new =
        append-IsValid g
          (module_child (record {
            factory = f;
            name = name_or n f;
            factory_version = v;
            properties = [];
            config = none;
          }))
          (record { declared = declared; distinct = tt }) in
      search (IsValid->>=)

  pub add_group-IsValid : (g n : Text) → IsValid (add_group p g n)
  unfolding add_group
  add_group-IsValid g n =
      let new =
        append-IsValid g (group_child (group_node n no_children no_ports))
          (tt, record { inputs = tt; outputs = tt }) in
      search (IsValid->>=)

  pub connect-IsValid : (g f t : Text) → IsValid (connect p g f t)
  unfolding connect
  connect-IsValid g f t =
      let joined =
        ports-IsValid g
          (λ q. record q { connections = q.connections ++ record { from = f; to = t } ∷ [] })
          (λ q was. record { inputs = was.inputs; outputs = was.outputs }) in
      search (IsValid->>=)

  pub disconnect-IsValid : (g : Text) (i : ℕ) → IsValid (disconnect p g i)
  unfolding disconnect
  disconnect-IsValid g i =
      let parted =
        ports-IsValid g (λ q. record q { connections = remove_nth i q.connections })
          (λ q was. record { inputs = was.inputs; outputs = was.outputs }) in
      search (IsValid->>=)

  pub set_expose-IsValid : (input : Bool) (g a t : Text) → IsValid (set_expose input p g a t)
  unfolding set_expose
  set_expose-IsValid input g a t =
      let exposed =
        ports-IsValid g (with_aliases input (put a t))
          (λ q was. with_aliases-IsGroupPorts input (put a t) q (put-DistinctKeys a t) was) in
      search (IsValid->>=)

  erase-Valid :
      (input : Bool) (g a : Text)
      → IsConfig (change_pipeline g (with_ports (with_aliases input (erase a))) p.cfg)
  erase-Valid input g a = with_ports-Valid g (with_aliases input (erase a)) valid (λ q was.
      with_aliases-IsGroupPorts input (erase a) q
        (λ m. Sublist-DistinctKeys (erase a m) m (erase-Sublist a m)) was)

  pub remove_expose-IsValid : (input : Bool) (g a : Text) → IsValid (remove_expose input p g a)
  unfolding remove_expose
  remove_expose-IsValid input g a =
      let cut = erase-Valid input g a in
      let cascaded =
        commit-IsValid p
          (record (change_pipeline g (with_ports (with_aliases input (erase a))) p.cfg) {
            pipeline =
                (cascade_lost_aliases
                  (change_pipeline g (with_ports (with_aliases input (erase a))) p.cfg).pipeline g
                  (lost_alias input a)).0;
          })
          (pipeline-IsConfig cut (
            cascade_lost_aliases-IsGroup
              (change_pipeline g (with_ports (with_aliases input (erase a))) p.cfg).pipeline g
              (lost_alias input a) (cut.children, cut.ports))) in
      search (IsValid->>=)

  rename_key-Valid :
      (input : Bool) (g a b : Text) (h : GroupNode)
      → find_group p.cfg.pipeline g ≡ some h
      → has_alias b (aliases input (ports h)) ≡ false
      → IsConfig (change_pipeline g (with_ports (with_aliases input (rename_key a b))) p.cfg)
  unfolding change_pipeline
  rename_key-Valid input g a b h there free = pipeline-IsConfig valid (
      change_group-found g (with_ports (with_aliases input (rename_key a b))) p.cfg.pipeline h
        (valid.children, valid.ports) there
        (renamed input h (find_group-IsGroup g p.cfg.pipeline h (valid.children, valid.ports) there)
          free))
    where
      renamed :
          (input : Bool) (h : GroupNode)
          → IsGroup h
          → has_alias b (aliases input (ports h)) ≡ false
          → IsGroup (with_ports (with_aliases input (rename_key a b)) h)
      renamed true (group_node n cs q) group free = (
        group.0,
        record {
          inputs = rename_key-DistinctKeys a b q.expose_inputs free group.1.inputs;
          outputs = group.1.outputs;
        },
      )
      renamed false (group_node n cs q) group free = (
        group.0,
        record {
          inputs = group.1.inputs;
          outputs = rename_key-DistinctKeys a b q.expose_outputs free group.1.outputs;
        },
      )

  -- The project that `rename_expose` leaves where it changes something.
  abbrev renamed : Bool → Text → Text → Text → Config
  renamed input g a b =
      let cut = change_pipeline g (with_ports (with_aliases input (rename_key a b))) p.cfg in
      record cut { pipeline = rewrite_alias_above cut.pipeline g a b input }

  renamed-IsValid :
      (input : Bool) (g a b : Text) (h : GroupNode)
      → find_group p.cfg.pipeline g ≡ some h
      → not (has_alias b (aliases input (ports h))) ≡ true
      → IsValid (ok (commit p (renamed input g a b)))
  renamed-IsValid input g a b h there free =
      let cut = rename_key-Valid input g a b h there (not-true _ free) in
      commit-IsValid p (renamed input g a b) (
        pipeline-IsConfig cut (
          rewrite_alias_above-IsGroup
            (change_pipeline g (with_ports (with_aliases input (rename_key a b))) p.cfg).pipeline g
            a b input (cut.children, cut.ports)))

  rename_expose-found :
      (input : Bool) (g a b : Text) (h : GroupNode)
      → find_group p.cfg.pipeline g ≡ some h
      → IsValid (rename_expose input p g a b)
  unfolding rename_expose require_group
  rename_expose-found input g a b h there = rw (rename_expose, require_group, there) checked
    where
      checked : IsValid (
          check_name b
          >> guard (has_alias a (aliases input (ports h))) no_alias
          >> (if text_eq b a
              then ok p
              else (guard (not (has_alias b (aliases input (ports h)))) duplicate_alias
                  >> ok (commit p (renamed input g a b)))))
      checked = IsValid->>= _ _ λ done.
          IsValid-if (text_eq b a) (ok p) _ (IsConfig-IsValid p valid)
            (IsValid-guard _ duplicate_alias _ (renamed-IsValid input g a b h there))

  pub rename_expose-IsValid : (input : Bool) (g a b : Text) → IsValid (rename_expose input p g a b)
  unfolding rename_expose require_group IsValid
  rename_expose-IsValid input g a b = elim (Option-cases (find_group p.cfg.pipeline g)) [
    | inl missing ↦ rw (rename_expose, require_group, missing) tt
    | inr (h, there) ↦ rename_expose-found input g a b h there
  ]
