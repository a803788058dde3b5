-- ===== src/Studio/Project/Threads.antt =====
-- src/studio/include/atp/studio/project.hpp: threads, assignments and plugins.
use ani_tools_platform.Prelude.{
  Bool, true, false, not, ◌&&◌, List, [], ◌∷◌, ◌++◌, Option, none, some, Text, text_eq, Result, ok,
  ◌>>◌, guard, if◌then◌else◌,
}
use ani_tools_platform.Prelude.Int.{ℤ, is_zero, is_positive}
use ani_tools_platform.Prelude.Assoc.{put, erase, name_eq}
use ani_tools_platform.Runtime.Runner.{ThreadMode, is_throttled}
use ani_tools_platform.Config.Model.{ThreadNode}
use ani_tools_platform.Studio.NodeRef.{is_empty}
use ani_tools_platform.Studio.Lookup.{
  EditError, bad_period, no_group, no_thread, no_plugin, duplicate_thread, empty_path, find_group,
  check_name,
}
use ani_tools_platform.Studio.Project.{Project, commit}

unfoldable pub has_thread : Text → List ThreadNode → Bool
has_thread name [] = false
has_thread name (t ∷ ts) = if text_eq t.name name then true else has_thread name ts

-- The period contradicts the mode.
abbrev pub is_paced : ThreadMode → ℤ → Bool
is_paced mode period = if is_throttled mode then is_positive period else is_zero period

unfoldable pub add_thread : Project → Text → ThreadMode → ℤ → Result EditError Project
unfolding has_thread commit
add_thread p name mode period =
    check_name name
    >> guard (not (has_thread name p.cfg.threads)) duplicate_thread
    >> guard (is_paced mode period) bad_period
    >> ok (
        commit p (record p.cfg {
          threads = p.cfg.threads ++ record { name = name; mode = mode; period = period } ∷ [];
        }))

-- The first thread of the name goes.
unfoldable pub erase_thread : Text → List ThreadNode → List ThreadNode
erase_thread name [] = []
erase_thread name (t ∷ ts) =
    let rest = erase_thread name ts in if text_eq t.name name then ts else t ∷ rest

unfoldable pub erase_assigned : Text → List (Text × Text) → List (Text × Text)
erase_assigned thread [] = []
erase_assigned thread ((path, t) ∷ es) =
    let rest = erase_assigned thread es in if text_eq t thread then rest else (path, t) ∷ rest

unfoldable pub remove_thread : Project → Text → Result EditError Project
unfolding has_thread erase_thread erase_assigned commit
remove_thread p name =
    guard (has_thread name p.cfg.threads) no_thread
    >> ok (
        commit p (record p.cfg {
          threads = erase_thread name p.cfg.threads;
          assignments = erase_assigned name p.cfg.assignments;
        }))

unfoldable pub change_thread : Text → ThreadMode → ℤ → List ThreadNode → List ThreadNode
change_thread name mode period [] = []
change_thread name mode period (t ∷ ts) =
    let rest = change_thread name mode period ts in
    if text_eq t.name name then record t { mode = mode; period = period } ∷ ts else t ∷ rest

unfoldable pub set_thread : Project → Text → ThreadMode → ℤ → Result EditError Project
unfolding has_thread change_thread commit
set_thread p name mode period =
    guard (has_thread name p.cfg.threads) no_thread
    >> guard (is_paced mode period) bad_period
    >> ok (commit p (record p.cfg { threads = change_thread name mode period p.cfg.threads }))

abbrev pub is_there {ℓ} : {A : Type ℓ} → Option A → Bool
is_there none = false
is_there (some a) = true

unfoldable pub set_assignment : Project → Text → Text → Result EditError Project
unfolding find_group has_thread put commit
set_assignment p group_path thread =
    guard (not (is_empty group_path) && is_there (find_group p.cfg.pipeline group_path)) no_group
    >> guard (has_thread thread p.cfg.threads) no_thread
    >> ok (commit p (record p.cfg { assignments = put group_path thread p.cfg.assignments }))

unfoldable pub clear_assignment : Project → Text → Project
unfolding erase commit
clear_assignment p group_path =
    commit p (record p.cfg { assignments = erase group_path p.cfg.assignments })

unfoldable pub lists : Text → List Text → Bool
lists path [] = false
lists path (q ∷ qs) = if text_eq q path then true else lists path qs

unfoldable pub without : Text → List Text → List Text
without path [] = []
without path (q ∷ qs) = let rest = without path qs in if text_eq q path then rest else q ∷ rest

unfoldable pub add_plugin : Project → Text → Result EditError Project
unfolding lists commit
add_plugin p path =
    guard (not (is_empty path)) empty_path
    >> (if lists path p.cfg.plugins
        then ok p
        else ok (commit p (record p.cfg { plugins = p.cfg.plugins ++ path ∷ [] })))

unfoldable pub remove_plugin : Project → Text → Result EditError Project
unfolding lists without commit
remove_plugin p path =
    guard (lists path p.cfg.plugins) no_plugin
    >> ok (commit p (record p.cfg { plugins = without path p.cfg.plugins }))
