-- ===== src/Studio/Project/Valid.antt =====
-- src/studio/include/atp/studio/project.hpp: the operations keep what every document can hold.
pub mod Keys
pub mod Groups
pub mod Cascades
pub mod Edits
pub mod Removals
pub mod Relocations
pub mod Settings
pub mod Actions
use ani_tools_platform.Prelude.{
  ℕ, zero, suc, ◌+◌, ◌-◌, ◌<◌, ◌≡◌, refl, sym, ap, ◌∙◌, Bool, true, false, not, ◌&&◌, List, [], ◌∷◌,
  ◌++◌, Option, none, some, Text, text_eq, Result, ok, err, ◌>>=◌, ◌>>◌, guard, if◌then◌else◌,
  arith, Bool-cases, inl, inr, Option-cases, subst, All, All-append,
}
use ani_tools_platform.Prelude.Int.{ℤ, pos}
use ani_tools_platform.Prelude.Assoc.{lookup, put, erase, name_eq}
use ani_tools_platform.Version.{Version}
use ani_tools_platform.Runtime.Runner.{ThreadMode, on_demand, throttled, spinning}
use ani_tools_platform.Config.Node.{Node, erase_first}
use ani_tools_platform.Config.Model.{
  ModuleNode, GroupPorts, ChildNode, module_child, group_child, GroupNode, group_node, ChildNodes,
  no_children, no_ports, Config, modules, ports, ThreadNode,
}
use ani_tools_platform.Config.Model.Decode.Keys.{DistinctKeys}
use ani_tools_platform.Config.Model.Decode.Modules.{IsDeclared, IsModuleNode}
use ani_tools_platform.Config.Model.Decode.Ports.{IsGroupPorts}
use ani_tools_platform.Config.Model.Decode.Groups.{AllChildren}
use ani_tools_platform.Config.Model.Decode.RoundTrip.{IsThreadNode, IsConfig}
use ani_tools_platform.Studio.Lookup.{EditError}
use ani_tools_platform.Studio.Cascade.{has_alias, aliases, with_ports}
use ani_tools_platform.Studio.Project.{
  Project, commit, require_group, change_pipeline, open_scope, close_scope,
}
use ani_tools_platform.Studio.Project.Children.{
  add_module, add_group, erase_under, erase_named, detach_ports, with_modules, append, name_or,
  remove_children, remove_one_child, remove_each,
}
use ani_tools_platform.Studio.Project.Ports.{
  connect, disconnect, with_aliases, set_expose, remove_expose, rename_key, rename_expose,
}
use ani_tools_platform.Studio.Project.Settings.{
  change_child, on_module, change_module, require_module, set_property, clear_property, set_config,
  clear_config, set_shared_config, clear_shared_config,
}
use ani_tools_platform.Studio.Project.Threads.{
  is_paced, add_thread, erase_thread, erase_assigned, remove_thread, change_thread, set_thread,
  set_assignment, clear_assignment, add_plugin, remove_plugin,
}
use ani_tools_platform.Studio.Project.Valid.Keys.{
  Sublist-DistinctKeys, put-DistinctKeys, erase-Sublist, erase_under-Sublist,
  erase_assigned-Sublist, erase_first-Sublist, rename_key-DistinctKeys,
}
use ani_tools_platform.Studio.Project.Valid.Groups.{
  IsGroup, change_group-IsGroup, with_ports-IsGroup, with_modules-IsGroup, push_back-AllChildren,
  erase_named-AllChildren, change_child-AllChildren, on_module-IsChildNode,
}
use ani_tools_platform.Studio.Project.Valid.Cascades.{
  detach_ports-IsGroupPorts, cascade_lost_aliases-IsGroup, rewrite_alias_above-IsGroup,
  with_aliases-IsGroupPorts,
}

-- What a call leaves is a project that a document can hold.
unfoldable pub IsValid : Result EditError Project → Type 0
IsValid (err e) = Unit {0}
IsValid (ok q) = IsConfig q.cfg

pub IsValid->>= :
    {A : Type 0} (call : Result EditError A) (next : A → Result EditError Project)
    → ((a : A) → IsValid (next a))
    → IsValid (call >>= next)
unfolding IsValid
IsValid->>= (err e) next h = tt
IsValid->>= (ok a) next h = h a

pub IsValid-guard :
    (b : Bool) (e : EditError) (next : Result EditError Project)
    → (b ≡ true → IsValid next)
    → IsValid (guard b e >> next)
unfolding IsValid
IsValid-guard true e next h = h refl
IsValid-guard false e next h = tt

pub IsValid-if :
    (b : Bool) (first second : Result EditError Project)
    → IsValid first
    → IsValid second
    → IsValid (if b then first else second)
IsValid-if true first second f s = f
IsValid-if false first second f s = s

pub IsConfig-IsValid : (p : Project) → IsConfig p.cfg → IsValid (ok p)
unfolding IsValid
IsConfig-IsValid p valid = valid

pub not-true : (b : Bool) → not b ≡ true → b ≡ false
not-true true h = absurd cc
not-true false h = refl

pub IsValid-found {ℓ} :
    {A : Type ℓ} (o : Option A) (first : Result EditError Project)
    (second : A → Result EditError Project)
    → IsValid first
    → ((a : A) → IsValid (second a))
    → IsValid (elim o as (λ x. Result EditError Project) [ none ↦ first | some a ↦ second a ])
IsValid-found none first second f s = f
IsValid-found (some a) first second f s = s a

pub commit-IsValid : (p : Project) (cfg : Config) → IsConfig cfg → IsValid (ok (commit p cfg))
unfolding IsValid commit
commit-IsValid p cfg valid = valid

-- The parts of a configuration, changed one by one.
module _ {cfg : Config} (valid : IsConfig cfg) where
  pub pipeline-IsConfig : {g : GroupNode} → IsGroup g → IsConfig (record cfg { pipeline = g })
  pipeline-IsConfig {g} group = record {
    schema = valid.schema;
    children = group.0;
    ports = group.1;
    threads = valid.threads;
    assigned_once = valid.assigned_once;
    distinct_configs = valid.distinct_configs;
  }

  pub threads-IsConfig :
      {ts : List ThreadNode} → All IsThreadNode ts → IsConfig (record cfg { threads = ts })
  threads-IsConfig {ts} all = record {
    schema = valid.schema;
    children = valid.children;
    ports = valid.ports;
    threads = all;
    assigned_once = valid.assigned_once;
    distinct_configs = valid.distinct_configs;
  }

  pub assignments-IsConfig :
      {m : List (Text × Text)} → DistinctKeys m → IsConfig (record cfg { assignments = m })
  assignments-IsConfig {m} distinct = record {
    schema = valid.schema;
    children = valid.children;
    ports = valid.ports;
    threads = valid.threads;
    assigned_once = distinct;
    distinct_configs = valid.distinct_configs;
  }

  pub configs-IsConfig :
      {m : List (Text × Node)} → DistinctKeys m → IsConfig (record cfg { configs = m })
  configs-IsConfig {m} distinct = record {
    schema = valid.schema;
    children = valid.children;
    ports = valid.ports;
    threads = valid.threads;
    assigned_once = valid.assigned_once;
    distinct_configs = distinct;
  }

  pub plugins-IsConfig : {ps : List Text} → IsConfig (record cfg { plugins = ps })
  plugins-IsConfig {ps} = record {
    schema = valid.schema;
    children = valid.children;
    ports = valid.ports;
    threads = valid.threads;
    assigned_once = valid.assigned_once;
    distinct_configs = valid.distinct_configs;
  }

  pub change_pipeline-IsConfig :
      (path : Text) (f : GroupNode → GroupNode)
      → ((g : GroupNode) → IsGroup g → IsGroup (f g))
      → IsConfig (change_pipeline path f cfg)
  unfolding change_pipeline
  change_pipeline-IsConfig path f keeps =
      pipeline-IsConfig
        (change_group-IsGroup f keeps path cfg.pipeline (valid.children, valid.ports))
