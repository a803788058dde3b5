-- ===== src/Studio/Project/Valid/Settings.antt =====
-- src/studio/include/atp/studio/project.hpp: the operations on modules, shared configurations, threads, assignments and plugins.
use ani_tools_platform.Prelude.{
  zero, suc, ◌≡◌, refl, Bool, true, not, List, [], ◌∷◌, ◌++◌, none, some, Text, text_eq, Result, ok,
  err, ◌>>◌, guard, Bool-cases, inl, inr, Option-cases, All, All-append,
}
use ani_tools_platform.Prelude.Int.{ℤ, pos, negsuc, is_zero}
use ani_tools_platform.Prelude.Assoc.{lookup, put, erase, name_eq}
use ani_tools_platform.Runtime.Runner.{ThreadMode, on_demand, throttled, spinning}
use ani_tools_platform.Config.Node.{Node, erase_first}
use ani_tools_platform.Config.Model.{ModuleNode, GroupNode, group_node, ThreadNode}
use ani_tools_platform.Config.Model.Decode.Modules.{IsModuleNode}
use ani_tools_platform.Config.Model.Decode.RoundTrip.{IsThreadNode, IsConfig}
use ani_tools_platform.Studio.Lookup.{
  EditError, bad_period, no_thread, duplicate_thread, check_name,
}
use ani_tools_platform.Studio.Project.{Project, commit}
use ani_tools_platform.Studio.Project.Settings.{
  change_child, on_module, change_module, require_module, set_property, clear_property, set_config,
  clear_config, set_shared_config, clear_shared_config,
}
use ani_tools_platform.Studio.Project.Threads.{
  without, has_thread, is_paced, add_thread, erase_thread, erase_assigned, remove_thread,
  change_thread, set_thread, set_assignment, clear_assignment, add_plugin, remove_plugin,
}
use ani_tools_platform.Studio.Project.Valid.Keys.{
  Sublist-DistinctKeys, put-DistinctKeys, erase-Sublist, erase_assigned-Sublist,
  erase_first-Sublist,
}
use ani_tools_platform.Studio.Project.Valid.Groups.{
  IsGroup, change_child-AllChildren, on_module-IsChildNode,
}
use ani_tools_platform.Studio.Project.Valid.{
  IsValid, IsValid->>=, IsValid-if, IsConfig-IsValid, IsValid-guard, IsValid-found, commit-IsValid,
  threads-IsConfig, assignments-IsConfig, configs-IsConfig, plugins-IsConfig,
  change_pipeline-IsConfig,
}

zero_period : (period : ℤ) → is_zero period ≡ true → period ≡ pos 0
zero_period (pos zero) h = refl
zero_period (pos (suc n)) h = absurd cc
zero_period (negsuc n) h = absurd cc

-- A guard behind other checks.
IsValid-checked :
    (checks : Result EditError (Unit {0})) (b : Bool) (e : EditError)
    (next : Result EditError Project)
    → (b ≡ true → IsValid next)
    → IsValid (checks >> guard b e >> next)
unfolding IsValid
IsValid-checked (err thrown) b e next h = tt
IsValid-checked (ok done) b e next h = IsValid-guard b e next h

is_paced-IsThreadNode :
    (name : Text) (mode : ThreadMode) (period : ℤ)
    → is_paced mode period ≡ true
    → IsThreadNode (record { name = name; mode = mode; period = period })
is_paced-IsThreadNode name throttled period h = tt
is_paced-IsThreadNode name on_demand period h = zero_period period h
is_paced-IsThreadNode name spinning period h = zero_period period h

erase_thread-All :
    (name : Text) (ts : List ThreadNode)
    → All IsThreadNode ts
    → All IsThreadNode (erase_thread name ts)
unfolding erase_thread
erase_thread-All name [] all = tt
erase_thread-All name (t ∷ ts) all = elim (Bool-cases (text_eq t.name name)) [
  | inl same ↦ rw same all.1
  | inr other ↦ rw other (all.0, erase_thread-All name ts all.1)
]

change_thread-All :
    (name : Text) (mode : ThreadMode) (period : ℤ) (ts : List ThreadNode)
    → is_paced mode period ≡ true
    → All IsThreadNode ts
    → All IsThreadNode (change_thread name mode period ts)
unfolding change_thread
change_thread-All name mode period [] paced all = tt
change_thread-All name mode period (t ∷ ts) paced all = elim (Bool-cases (text_eq t.name name)) [
  | inl same ↦ rw same (is_paced-IsThreadNode t.name mode period paced, all.1)
  | inr other ↦ rw other (all.0, change_thread-All name mode period ts paced all.1)
]

module _ (p : Project) (valid : IsConfig p.cfg) where
  change_module-IsValid :
      (g n : Text) (f : ModuleNode → ModuleNode)
      → ((m : ModuleNode) → IsModuleNode m → IsModuleNode (f m))
      → IsValid (ok (commit p (change_module g n f p.cfg)))
  unfolding change_module
  change_module-IsValid g n f keeps =
      commit-IsValid p (change_module g n f p.cfg)
        (change_pipeline-IsConfig valid g _ λ (h : GroupNode) (group : IsGroup h). changed h group)
    where
      changed :
          (h : GroupNode)
          → IsGroup h
          → IsGroup (elim h as (λ x. GroupNode) [
            | group_node m cs q ↦ group_node m (change_child n (on_module f) cs) q
          ])
      changed (group_node m cs q) group = (
        change_child-AllChildren n (on_module f) (on_module-IsChildNode f keeps) cs group.0,
        group.1,
      )

  pub set_property-IsValid : (g n k : Text) (v : Node) → IsValid (set_property p g n k v)
  unfolding set_property
  set_property-IsValid g n k v =
      let changed =
        change_module-IsValid g n (λ m. record m { properties = put k v m.properties })
          (λ m was. record {
            declared = was.declared;
            distinct = put-DistinctKeys k v m.properties was.distinct;
          }) in
      search (IsValid->>=)

  pub clear_property-IsValid : (g n k : Text) → IsValid (clear_property p g n k)
  unfolding clear_property
  clear_property-IsValid g n k =
      let changed =
        change_module-IsValid g n (λ m. record m { properties = erase_first k m.properties })
          (λ m was. record {
            declared = was.declared;
            distinct =
                Sublist-DistinctKeys (erase_first k m.properties) m.properties
                  (erase_first-Sublist k m.properties) was.distinct;
          }) in
      IsValid->>= (require_module p.cfg g n) _
        λ m. IsValid-found (lookup k m.properties) _ _ (IsConfig-IsValid p valid) (λ v. changed)

  pub set_config-IsValid : (g n : Text) (v : Node) → IsValid (set_config p g n v)
  unfolding set_config
  set_config-IsValid g n v =
      let changed =
        change_module-IsValid g n (λ m. record m { config = some v })
          (λ m was. record { declared = was.declared; distinct = was.distinct }) in
      search (IsValid->>=)

  pub clear_config-IsValid : (g n : Text) → IsValid (clear_config p g n)
  unfolding clear_config
  clear_config-IsValid g n =
      let changed =
        change_module-IsValid g n (λ m. record m { config = none })
          (λ m was. record { declared = was.declared; distinct = was.distinct }) in
      IsValid->>= (require_module p.cfg g n) _
        λ m. IsValid-found m.config _ _ (IsConfig-IsValid p valid) (λ v. changed)

  pub set_shared_config-IsValid : (n : Text) (v : Node) → IsValid (set_shared_config p n v)
  unfolding set_shared_config
  set_shared_config-IsValid n v =
      let written =
        commit-IsValid p (record p.cfg { configs = put n v p.cfg.configs })
          (configs-IsConfig valid (put-DistinctKeys n v p.cfg.configs valid.distinct_configs)) in
      search (IsValid->>=)

  pub clear_shared_config-IsValid : (n : Text) → IsValid (ok (clear_shared_config p n))
  unfolding clear_shared_config IsValid
  clear_shared_config-IsValid n = elim (Option-cases (lookup n p.cfg.configs)) [
    | inl missing ↦ rw (clear_shared_config, missing) valid
    | inr (v, there) ↦
        rw (clear_shared_config, there)
          (commit-IsValid p (record p.cfg { configs = erase_first n p.cfg.configs })
            (configs-IsConfig valid (
              Sublist-DistinctKeys (erase_first n p.cfg.configs) p.cfg.configs
                (erase_first-Sublist n p.cfg.configs) valid.distinct_configs)))
  ]

  pub add_thread-IsValid : (n : Text) (m : ThreadMode) (t : ℤ) → IsValid (add_thread p n m t)
  unfolding add_thread
  add_thread-IsValid n m t =
      IsValid-checked (check_name n >> guard (not (has_thread n p.cfg.threads)) duplicate_thread)
        (is_paced m t) bad_period _
        λ (paced : is_paced m t ≡ true).
          commit-IsValid p
            (record p.cfg {
              threads = p.cfg.threads ++ record { name = n; mode = m; period = t } ∷ [];
            })
            (threads-IsConfig valid (
              All-append IsThreadNode p.cfg.threads (record { name = n; mode = m; period = t } ∷ [])
                valid.threads (is_paced-IsThreadNode n m t paced, tt)))

  pub remove_thread-IsValid : (n : Text) → IsValid (remove_thread p n)
  unfolding remove_thread
  remove_thread-IsValid n =
      let removed =
        commit-IsValid p
          (record p.cfg {
            threads = erase_thread n p.cfg.threads;
            assignments = erase_assigned n p.cfg.assignments;
          })
          (assignments-IsConfig
            (threads-IsConfig valid (erase_thread-All n p.cfg.threads valid.threads))
            (Sublist-DistinctKeys (erase_assigned n p.cfg.assignments) p.cfg.assignments
              (erase_assigned-Sublist n p.cfg.assignments) valid.assigned_once)) in
      search (IsValid->>=)

  pub set_thread-IsValid : (n : Text) (m : ThreadMode) (t : ℤ) → IsValid (set_thread p n m t)
  unfolding set_thread
  set_thread-IsValid n m t =
      IsValid-checked (guard (has_thread n p.cfg.threads) no_thread) (is_paced m t) bad_period _
        λ (paced : is_paced m t ≡ true).
          commit-IsValid p (record p.cfg { threads = change_thread n m t p.cfg.threads })
            (threads-IsConfig valid (change_thread-All n m t p.cfg.threads paced valid.threads))

  pub set_assignment-IsValid : (g t : Text) → IsValid (set_assignment p g t)
  unfolding set_assignment
  set_assignment-IsValid g t =
      let assigned =
        commit-IsValid p (record p.cfg { assignments = put g t p.cfg.assignments })
          (assignments-IsConfig valid
            (put-DistinctKeys g t p.cfg.assignments valid.assigned_once)) in
      search (IsValid->>=)

  pub clear_assignment-IsValid : (g : Text) → IsValid (ok (clear_assignment p g))
  unfolding clear_assignment
  clear_assignment-IsValid g =
      commit-IsValid p (record p.cfg { assignments = erase g p.cfg.assignments })
        (assignments-IsConfig valid (
          Sublist-DistinctKeys (erase g p.cfg.assignments) p.cfg.assignments
            (erase-Sublist g p.cfg.assignments) valid.assigned_once))

  pub add_plugin-IsValid : (f : Text) → IsValid (add_plugin p f)
  unfolding add_plugin
  add_plugin-IsValid f =
      let added =
        commit-IsValid p (record p.cfg { plugins = p.cfg.plugins ++ f ∷ [] })
          (plugins-IsConfig valid) in
      let same = IsConfig-IsValid p valid in search (IsValid->>=, IsValid-if)

  pub remove_plugin-IsValid : (f : Text) → IsValid (remove_plugin p f)
  unfolding remove_plugin
  remove_plugin-IsValid f =
      let removed =
        commit-IsValid p (record p.cfg { plugins = without f p.cfg.plugins })
          (plugins-IsConfig valid) in
      search (IsValid->>=)
