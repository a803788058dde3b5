-- ===== src/Config/Validate/Document.antt =====
-- src/runtime/include/atp/runtime/config_validator.hpp: the plugins, the threads and the assignments.
use ani_tools_platform.Prelude.{
  ℕ, ◌+◌, Bool, true, false, ◌||◌, List, [], ◌∷◌, ◌++◌, Option, none, some, Text, text_eq, codes,
  ◌==◌, if◌then◌else◌,
}
use ani_tools_platform.Prelude.Int.{is_positive}
use ani_tools_platform.Config.Node.{
  Node, find, entries, elements, is_object, try_as_string, try_as_int,
}
use ani_tools_platform.Config.Read.{string_or}
use ani_tools_platform.Config.Validate.Values.{
  Errors, error, dot, indexed, quoted, has, unknown_keys, check_keys, names, check_name, is_empty,
}

unfoldable pub check_plugin : Node → Text → Errors
check_plugin p path = elim (try_as_string p) [
  | none ↦ error path (codes "must be a non-empty string")
  | some text ↦ if is_empty text then error path (codes "must be a non-empty string") else []
]

abbrev pub is_mode : Text → Bool
is_mode mode =
    text_eq mode (codes "on_demand")
    || text_eq mode (codes "throttled")
    || text_eq mode (codes "spinning")

-- A positive integer.
abbrev pub is_period : Option Node → Bool
is_period none = false
is_period (some j) = elim (try_as_int j) [ none ↦ false | some n ↦ is_positive n ]

abbrev pub is_missing : Option Node → Bool
is_missing none = true
is_missing (some j) = false

unfoldable pub check_period : Text → Text → Option Node → Errors
check_period mode path period =
    if text_eq mode (codes "throttled")
    then if is_period period
      then []
      else error path (codes "throttled thread requires a positive integer 'period_ms'")
    else if is_missing period
    then []
    else error path (codes "'period_ms' is only for throttled mode")

-- A thread that has a name: the errors behind those of its keys, and the names from there on.
unfoldable pub check_named : Node → Text → Text → List Text → Errors × List Text
unfolding find has check_period
check_named t path name taken =
    let mode = string_or (find (codes "mode") t) (codes "on_demand") in
    let pacing =
      (if is_mode mode
        then []
        else error (dot path (codes "mode")) (codes "unknown mode " ++ quoted mode))
      ++ check_period mode path (find (codes "period_ms") t) in
    if has name taken
    then (error path (codes "duplicate thread name " ++ quoted name) ++ pacing, taken)
    else (pacing, name ∷ taken)

-- A round of the loop. A thread without "name" is passed over like one with a bad name.
unfoldable pub check_thread : Node → Text → List Text → Errors × List Text
unfolding find names check_named unknown_keys entries
check_thread t path taken =
    if is_object t
    then elim (find (codes "name") t) [
      | none ↦ (thread_keys, taken)
      | some name ↦
          if names name
          then (
            thread_keys ++ (check_named t path (string_or (some name) []) taken).0,
            (check_named t path (string_or (some name) []) taken).1,
          )
          else (thread_keys ++ check_name name (dot path (codes "name")), taken)
    ]
    else (error path (codes "must be an object {name, mode[, period_ms]}"), taken)
  where
    thread_keys : Errors
    thread_keys = check_keys t path (codes "name" ∷ codes "mode" ∷ codes "period_ms" ∷ [])

unfoldable pub check_threads : ℕ → List Node → List Text → Errors × List Text
unfolding check_thread indexed
check_threads i [] taken = ([], taken)
check_threads i (t ∷ ts) taken =
    let checked = check_thread t (indexed (codes "threads") i) taken in
    let rest = check_threads (i + 1) ts checked.1 in (checked.0 ++ rest.0, rest.1)

-- The segments of a path, which its dots separate.
unfoldable pub split_dots : Text → List Text
split_dots [] = [] ∷ []
split_dots (c ∷ cs) = let rest = split_dots cs in if c == b'.' then [] ∷ rest else onto c rest
  where
    onto : ℕ → List Text → List Text
    onto c [] = (c ∷ []) ∷ []
    onto c (s ∷ ss) = (c ∷ s) ∷ ss

unfoldable names_group : Text → Node → Bool
unfolding find
names_group segment j = elim (find (codes "group") j) [
  | none ↦ false
  | some g ↦ elim (try_as_string g) [ none ↦ false | some text ↦ text_eq text segment ]
]

-- The first of the children that is a group of that name.
unfoldable pub next_group : Text → List Node → Option Node
unfolding names_group
next_group segment [] = none
next_group segment (j ∷ js) =
    let rest = next_group segment js in if names_group segment j then some j else rest

unfoldable child_nodes : Node → List Node
unfolding find elements
child_nodes current = elim (find (codes "modules") current) [
  | none ↦ []
  | some modules ↦ elements modules
]

unfoldable pub walk : Node → List Text → Bool
unfolding next_group child_nodes
walk current [] = false
walk current (s ∷ ss) = elim (next_group s (child_nodes current)) [
  | none ↦ false
  | some next ↦ elim ss [ [] ↦ true | r ∷ rs ↦ walk next ss ]
]

unfoldable pub group_path_exists : Node → Text → Bool
unfolding walk split_dots
group_path_exists pipeline path = walk pipeline (split_dots path)

unfoldable pub check_assignments : Node → List Text → List (Text × Node) → Errors
unfolding has group_path_exists
check_assignments pipeline threads [] = []
check_assignments pipeline threads ((group_path, thread) ∷ es) =
    (if is_thread then [] else error path (codes "unknown thread"))
    ++ ((if group_path_exists pipeline group_path
          then []
          else error path (codes "group path does not exist in pipeline"))
        ++ check_assignments pipeline threads es)
  where
    path : Text
    path = dot (codes "assign") group_path

    is_thread : Bool
    is_thread = elim (try_as_string thread) [ none ↦ false | some name ↦ has name threads ]
