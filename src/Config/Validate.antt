-- ===== src/Config/Validate.antt =====
-- src/runtime/include/atp/runtime/config_validator.hpp: what the validator says of a document.
pub mod Values
pub mod Shared
pub mod Parts
pub mod Document
pub mod Check
pub mod Threads
pub mod Contract
use ani_tools_platform.Prelude.{
  ℕ, suc, ◌+◌, Bool, true, false, not, ◌&&◌, ◌||◌, List, [], ◌∷◌, ◌++◌, Option, none, some, get_or,
  length, Text, text_eq, codes, ok, err, ◌==◌, if◌then◌else◌, ltb,
}
use ani_tools_platform.Prelude.Int.{is_positive}
use ani_tools_platform.Version.{Version, parse_version, to_string}
use ani_tools_platform.Version.Decimal.{decimal}
use ani_tools_platform.Runtime.Compose.{cut_at_dot}
use ani_tools_platform.Config.Node.{
  Node, Items, Fields, object_node, array_node, no_items, item, no_fields, field, find, entries,
  elements, is_object, is_array, is_string, is_int, is_double, is_bool, try_as_string, try_as_int,
}
use ani_tools_platform.Config.Read.{string_or}
use ani_tools_platform.Config.Model.{parse_config_ref, config_schema_version}
use Values.{
  Errors, error, dot, indexed, quoted, has, check_keys, unknown_keys, names, check_name, is_empty,
}
use Shared.{Known, check_configs, check_version}
use Document.{check_plugin, check_threads, check_assignments}
use Parts.{check_ports, check_module, check_each, module_name, name_in, check_unique}

exactly_one : Text
exactly_one = codes "exactly one of 'module' or 'group' is required"

module _ (known : Known) where
  -- `check_child` of an object; `body` is what the loop over its own children adds.
  unfoldable pub check_either : Node → Text → List Text → Errors → Errors × List Text
  unfolding find check_module module_name name_in check_unique check_ports names unknown_keys
      entries exactly_one
  check_either j path taken body = elim (find (codes "module") j) [
    | some m ↦ elim (find (codes "group") j) [
      | some g ↦ (error path exactly_one, taken)
      | none ↦
          let unique = check_unique path (module_name j m) taken in
          (check_module known j m path ++ unique.0, unique.1)
    ]
    | none ↦ elim (find (codes "group") j) [
      | none ↦ (error path exactly_one, taken)
      | some g ↦
          let unique = check_unique path (name_in g []) taken in
          (
            check_keys j path
                  (codes "group" ∷ codes "modules" ∷ codes "expose" ∷ codes "connections" ∷ [])
                ++ (check_name g (dot path (codes "group"))
                    ++ (body ++ (check_ports j path ++ unique.0))),
            unique.1,
          )
    ]
  ]

  -- `check_child` and the loop of `check_group_body` over "modules", which is looked for in one walk
  -- over the entries. A child answers the names of its siblings with its own.
  unfoldable mutual
    unfolding check_either indexed

    pub check_child : Node → Text → List Text → Errors × List Text
    check_child (object_node fs) path taken =
        check_either (object_node fs) path taken (check_modules fs path)
    check_child j path taken = (error path (codes "must be an object"), taken)

    pub check_modules : Fields → Text → Errors
    check_modules no_fields path = []
    check_modules (field k v fs) path =
        let found = check_elements v (dot path (codes "modules")) in
        let rest = check_modules fs path in if text_eq k (codes "modules") then found else rest

    pub check_elements : Node → Text → Errors
    check_elements (array_node js) path = check_items js path 0 []
    check_elements j path = error path (codes "must be an array")

    pub check_items : Items → Text → ℕ → List Text → Errors
    check_items no_items path i taken = []
    check_items (item j js) path i taken =
        let checked = check_child j (indexed path i) taken in
        checked.0 ++ check_items js path (i + 1) checked.1

  unfoldable pub check_group_body : Node → Text → Errors
  unfolding check_child check_ports
  check_group_body (object_node fs) path =
      check_modules fs path ++ check_ports (object_node fs) path
  check_group_body j path = check_ports j path

abbrev pub empty_names : Errors × List Text
empty_names = ([], [])

-- The values under "threads", "assign" and "plugins", which may be missing.
unfoldable pub check_thread_list : Option Node → Errors × List Text
unfolding check_threads elements
check_thread_list none = empty_names
check_thread_list (some threads) =
    if is_array threads
    then check_threads 0 (elements threads) []
    else (error (codes "threads") (codes "must be an array"), [])

unfoldable pub check_assign : Node → List Text → Option Node → Errors
unfolding check_assignments entries
check_assign pipeline threads none = []
check_assign pipeline threads (some assign) =
    if is_object assign
    then check_assignments pipeline threads (entries assign)
    else error (codes "assign") (codes "must be an object of group path -> thread name")

unfoldable pub check_plugins : Option Node → Errors
unfolding check_each check_plugin elements
check_plugins none = []
check_plugins (some plugins) =
    if is_array plugins
    then check_each check_plugin (codes "plugins") 0 (elements plugins)
    else error (codes "plugins") (codes "must be an array of file paths")

-- What is checked from the pipeline on.
unfoldable pub check_pipeline : Known → Node → Option Node → Errors
unfolding find check_group_body check_thread_list check_assign unknown_keys entries
check_pipeline known doc none = error (codes "pipeline") (codes "required object is missing")
check_pipeline known doc (some pipeline) =
    let threads = check_thread_list (find (codes "threads") doc) in
    if is_object pipeline
    then check_keys pipeline (codes "pipeline")
        (codes "modules" ∷ codes "expose" ∷ codes "connections" ∷ [])
      ++ (check_group_body known pipeline (codes "pipeline")
          ++ (threads.0 ++ check_assign pipeline threads.1 (find (codes "assign") doc)))
    else error (codes "pipeline") (codes "required object is missing")

document_keys : List Text
document_keys =
    codes "version"
    ∷ codes "plugins"
    ∷ codes "pipeline"
    ∷ codes "threads"
    ∷ codes "assign"
    ∷ codes "configs"
    ∷ []

unfoldable pub validate : Node → Errors
unfolding find check_version check_configs check_plugins check_pipeline unknown_keys entries
    document_keys
validate doc =
    if is_object doc
    then check_version (find (codes "version") doc)
      ++ (check_keys doc (codes "$") document_keys
          ++ ((check_configs doc).0
              ++ (check_plugins (find (codes "plugins") doc)
                  ++ check_pipeline (check_configs doc).1 doc (find (codes "pipeline") doc))))
    else error (codes "$") (codes "config root must be an object")
