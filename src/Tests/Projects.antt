-- ===== src/Tests/Projects.antt =====
-- Runs of Studio, and its theorems on a concrete project.
use ani_tools_platform.Prelude.{
  ◌≡◌, ◌↔◌, ◌⊎◌, refl, true, false, List, [], ◌∷◌, ◌++◌, none, some, Text, codes, text_eq, Result,
  ok, err, arith,
}
use ani_tools_platform.Prelude.Int.{pos}
use ani_tools_platform.Prelude.Assoc.{lookup, put}
use ani_tools_platform.Version.Decimal.{decimal}
use ani_tools_platform.Runtime.Runner.{throttled}
use ani_tools_platform.Config.Validate.Values.{is_name, contains}
use ani_tools_platform.Config.Validate.Document.{split_dots}
use ani_tools_platform.Config.Model.{group_node, group_child, no_children, child, no_ports, modules}
use ani_tools_platform.Config.Model.Encode.{encode}
use ani_tools_platform.Config.Model.Decode.RoundTrip.{IsConfig, rooted}
use ani_tools_platform.Tests.Configs.{schema-IsVersion}
use ani_tools_platform.Config.Model.Decode.Keys.{DistinctKeys}
use ani_tools_platform.Studio.Project.Moves.{copy_child}
use ani_tools_platform.Studio.Project.Actions.{to_copy_child}
use ani_tools_platform.Studio.Threads.{first_thread, resolve_thread}
use ani_tools_platform.Studio.Threads.Inherit.{own_or, walk_down, resolve_thread_lem}
use ani_tools_platform.Studio.NodeRef.{NodeRef, is_empty, parse, full, cut_at_last_dot}
use ani_tools_platform.Studio.NodeRef as NodeRef
use ani_tools_platform.Studio.NodeRef.Laws.{parse-full, contains_iff}
use ani_tools_platform.Studio.Lookup.{
  EditError, find_group, find_at, subgroup, segments_of, check_name, taken, unique_child_name,
}
use ani_tools_platform.Studio.Lookup.Names.{unique_child_name-free}
use ani_tools_platform.Studio.Cascade.{
  change_group, change_at, set_subgroup, LostAliases, no_count, cascade_lost_aliases,
}
use ani_tools_platform.Studio.Cascade.Fuel.{Cascades, cascade_lost_aliases-Cascades}
use ani_tools_platform.Studio.Project.{
  Project, create, commit, snapshot, open_scope, close_scope, undo, redo, require_group,
  change_pipeline,
}
use ani_tools_platform.Studio.Project.Children.{
  add_group, add_module, require_free_name, append, push_back,
}
use ani_tools_platform.Studio.Project.Threads.{add_thread, has_thread, set_assignment}
use ani_tools_platform.Studio.Project.Actions.{
  Action, perform, to_add_group, to_add_module, to_add_thread, to_set_assignment,
}
use ani_tools_platform.Studio.Project.History.{UndoneTo, undo-edit_scope}
use ani_tools_platform.Studio.Project.Valid.{IsValid}
use ani_tools_platform.Studio.Project.Valid.Actions.{undo-perform, perform-IsValid, session-undone}

abbrev got : Result EditError Project → Project
got (ok p) = p
got (err e) = create

abbrev add_rig : Action
add_rig = to_add_group [] (codes "rig")

abbrev add_camera : Action
add_camera = to_add_module (codes "rig") (codes "camera") [] none

abbrev add_fast : Action
add_fast = to_add_thread (codes "fast") throttled (pos 5000)

abbrev with_rig : Project
with_rig = got (perform create add_rig)

abbrev with_camera : Project
with_camera = got (perform with_rig add_camera)

abbrev with_fast : Project
with_fast = got (perform with_camera add_fast)

abbrev assigned : Project
assigned = got (perform with_fast (to_set_assignment (codes "rig") (codes "fast")))

performs_rig : perform create add_rig ≡ ok with_rig
unfolding perform add_group require_group find_group find_at segments_of split_dots check_name
    is_name contains require_free_name taken append push_back change_pipeline change_group change_at
    commit snapshot
performs_rig = refl

create-IsConfig : IsConfig create.cfg
create-IsConfig = record {
  schema = (schema-IsVersion, omega arith);
  children = tt;
  ports = record { inputs = tt; outputs = tt };
  threads = tt;
  assigned_once = tt;
  distinct_configs = tt;
}

performs_camera : perform with_rig add_camera ≡ ok with_camera
unfolding perform add_group require_group find_group find_at segments_of split_dots check_name
    is_name contains require_free_name taken append push_back change_pipeline change_group change_at
    commit snapshot add_module subgroup set_subgroup text_eq
performs_camera = refl

performs_fast : perform with_camera add_fast ≡ ok with_fast
unfolding perform add_thread check_name is_name contains has_thread commit snapshot text_eq
performs_fast = refl

performs_assigned : perform with_fast (to_set_assignment (codes "rig") (codes "fast")) ≡ ok assigned
unfolding perform add_group require_group find_group find_at segments_of split_dots check_name
    is_name contains require_free_name taken append push_back change_pipeline change_group change_at
    commit snapshot add_module add_thread has_thread set_assignment subgroup set_subgroup text_eq
    put
performs_assigned = refl

abbrev session : List Action
session = add_rig ∷ add_camera ∷ add_fast ∷ to_set_assignment (codes "rig") (codes "fast") ∷ []

session-undone_example : UndoneTo create 4 assigned
session-undone_example =
    session-undone create assigned session refl create-IsConfig (tt, (tt, (tt, (tt, tt))))
      (
        with_rig,
        performs_rig,
        (
          with_camera,
          performs_camera,
          (with_fast, performs_fast, (assigned, performs_assigned, refl)),
        ),
      )

perform-IsValid_example : IsValid (perform create add_rig)
perform-IsValid_example = perform-IsValid create add_rig create-IsConfig tt

-- The same group, added inside a scope.
abbrev scoped_rig : Project
scoped_rig = got (perform (open_scope create) add_rig)

performs_scoped : perform (open_scope create) add_rig ≡ ok scoped_rig
unfolding perform add_group require_group find_group find_at segments_of split_dots check_name
    is_name contains require_free_name taken append push_back change_pipeline change_group change_at
    commit snapshot open_scope
performs_scoped = refl

undo-edit_scope_example : undo (close_scope scoped_rig) ≡ (
  record (close_scope scoped_rig) {
    cfg = rooted create.cfg;
    undos = [];
    redos = encode scoped_rig.cfg ∷ [];
  },
  ok true,
)
undo-edit_scope_example =
    undo-edit_scope create scoped_rig (add_rig ∷ []) refl create-IsConfig
      (scoped_rig, performs_scoped, refl)

assigned-IsConfig : IsConfig assigned.cfg
unfolding perform add_group require_group find_group find_at segments_of split_dots check_name
    is_name contains require_free_name taken append push_back change_pipeline change_group change_at
    commit snapshot add_module add_thread has_thread set_assignment subgroup set_subgroup text_eq
    put
assigned-IsConfig = record {
  schema = (schema-IsVersion, omega arith);
  children =
      (((record { declared = tt; distinct = tt }, tt), record { inputs = tt; outputs = tt }), tt);
  ports = record { inputs = tt; outputs = tt };
  threads = (tt, tt);
  assigned_once = (refl, tt);
  distinct_configs = tt;
}

-- "rig" again, as "rig_2", on the same thread.
abbrev copy_rig : Action
copy_rig = to_copy_child [] (codes "rig") []

abbrev copied : Project
copied = got (perform assigned copy_rig)

copied_assignments :
    copied.cfg.assignments ≡ (codes "rig", codes "fast") ∷ (codes "rig_2", codes "fast") ∷ []
unfolding perform add_group require_group find_group find_at segments_of split_dots check_name
    is_name contains require_free_name taken append push_back change_pipeline change_group change_at
    commit snapshot add_module add_thread has_thread set_assignment subgroup set_subgroup text_eq
    put copy_child
copied_assignments = refl

performs_copy : perform assigned copy_rig ≡ ok copied
unfolding perform add_group require_group find_group find_at segments_of split_dots check_name
    is_name contains require_free_name taken append push_back change_pipeline change_group change_at
    commit snapshot add_module add_thread has_thread set_assignment subgroup set_subgroup text_eq
    put copy_child
performs_copy = refl

copied_once : DistinctKeys copied.cfg.assignments
unfolding lookup text_eq
copied_once = rw copied_assignments (refl, (refl, tt))

assigned_outside : assigned.batch_depth ≡ 0
unfolding perform check_name text_eq
assigned_outside = refl

undo-perform_example :
    (copied ≡ assigned)
    ⊎ ((undo copied ≡ (
      record copied {
        cfg = rooted assigned.cfg;
        undos = assigned.undos;
        redos = encode copied.cfg ∷ [];
      },
      ok true,
    ))
        × (redo (record copied {
          cfg = rooted assigned.cfg;
          undos = assigned.undos;
          redos = encode copied.cfg ∷ [];
        })
            ≡ (record copied { cfg = rooted copied.cfg }, ok true)))
undo-perform_example =
    undo-perform assigned copied copy_rig assigned_outside assigned-IsConfig tt copied_once
      performs_copy

lost_left : LostAliases
lost_left = record { inputs = codes "left" ∷ []; outputs = [] }

cascade_lost_aliases-Cascades_example :
    Cascades assigned.cfg.pipeline
      (codes "rig")
      lost_left
      no_count
      (cascade_lost_aliases assigned.cfg.pipeline (codes "rig") lost_left)
cascade_lost_aliases-Cascades_example =
    cascade_lost_aliases-Cascades assigned.cfg.pipeline (codes "rig") lost_left

unique_child_name-free_example :
    (name : Text) × (unique_child_name (modules assigned.cfg.pipeline) (codes "rig") ≡ some name)
    × (taken (modules assigned.cfg.pipeline) name ≡ false)
unique_child_name-free_example =
    unique_child_name-free (codes "rig") (modules assigned.cfg.pipeline)

abbrev camera : NodeRef
camera = record { group = codes "rig.left"; name = codes "camera" }

parse-full_example : parse (full camera) ≡ camera
unfolding contains
parse-full_example = parse-full camera refl refl

contains_iff_example : (NodeRef.contains camera (codes "rig.left.camera.out") ≡ true) ↔ (
    (codes "rig.left.camera.out" ≡ full camera)
    ⊎ ((rest : Text) × (codes "rig.left.camera.out" ≡ full camera ++ b'.' ∷ rest)))
unfolding full
contains_iff_example = contains_iff camera (codes "rig.left.camera.out") refl

-- The next name after "rig" is taken is "rig_2".
second_rig :
    unique_child_name
      (child (group_child (group_node (codes "rig") no_children no_ports)) no_children)
      (codes "rig")
    ≡ some (codes "rig_2")
unfolding unique_child_name taken text_eq decimal
second_rig = refl

resolve_thread_lem_example :
    (resolve_thread assigned.cfg (codes "rig.left.camera")).name
    ≡ walk_down assigned.cfg.assignments
        (own_or assigned.cfg.assignments (codes "rig") (first_thread assigned.cfg.threads))
        (codes "rig")
        (codes "left" ∷ codes "camera" ∷ [])
unfolding contains
resolve_thread_lem_example =
    resolve_thread_lem assigned.cfg (codes "rig") (codes "left" ∷ codes "camera" ∷ []) refl
      (refl, (refl, tt))

-- A group below "rig" runs on its thread.
inherited_thread :
    resolve_thread
      (record create.cfg { assignments = (codes "rig", codes "fast") ∷ [] })
      (codes "rig.left.camera")
    ≡ record { name = codes "fast"; inherited = true }
unfolding resolve_thread text_eq lookup
inherited_thread = refl
