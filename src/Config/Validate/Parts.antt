-- ===== src/Config/Validate/Parts.antt =====
-- src/runtime/include/atp/runtime/config_validator.hpp: the parts of a group and of a module.
use ani_tools_platform.Prelude.{
  ℕ, ◌+◌, Bool, true, false, ◌||◌, List, [], ◌∷◌, ◌++◌, Option, none, some, Text, codes, ok, err,
  if◌then◌else◌,
}
use ani_tools_platform.Version.{parse_version}
use ani_tools_platform.Config.Node.{
  Node, find, entries, elements, is_object, is_array, is_string, is_int, is_double, is_bool,
  try_as_string,
}
use ani_tools_platform.Config.Read.{string_or}
use ani_tools_platform.Config.Validate.Values.{
  Errors, error, dot, indexed, quoted, has, unknown_keys, check_keys, names, check_name,
  check_port_path, check_expose_map,
}
use ani_tools_platform.Config.Validate.Shared.{Known, check_config}

-- A check of a value that may be missing.
abbrev pub if_found : Option Node → (Node → Errors) → Errors
if_found none check = []
if_found (some j) check = check j

unfoldable pub check_expose : Node → Text → Errors
unfolding find check_expose_map unknown_keys entries
check_expose expose path =
    if is_object expose
    then check_keys expose path (codes "inputs" ∷ codes "outputs" ∷ [])
      ++ (if_found (find (codes "inputs") expose)
            (λ j. check_expose_map j (dot path (codes "inputs")))
          ++ if_found (find (codes "outputs") expose)
              (λ j. check_expose_map j (dot path (codes "outputs"))))
    else error path (codes "must be an object")

-- One end of a connection.
unfoldable pub check_end : Text → Node → Text → Errors
unfolding find check_port_path
check_end key c path = elim (find key c) [
  | none ↦ error path (quoted key ++ codes " is required")
  | some end ↦ check_port_path end (dot path key)
]

unfoldable pub check_connection : Node → Text → Errors
unfolding check_end unknown_keys entries
check_connection c path =
    if is_object c
    then check_keys c path (codes "from" ∷ codes "to" ∷ [])
      ++ (check_end (codes "from") c path ++ check_end (codes "to") c path)
    else error path (codes "must be an object {from, to}")

-- A loop over the elements of an array.
unfoldable pub check_each : (Node → Text → Errors) → Text → ℕ → List Node → Errors
unfolding indexed
check_each check path i [] = []
check_each check path i (j ∷ js) = check j (indexed path i) ++ check_each check path (i + 1) js

unfoldable pub check_connections : Node → Text → Errors
unfolding check_each check_connection elements
check_connections connections path =
    if is_array connections
    then check_each check_connection path 0 (elements connections)
    else error path (codes "must be an array")

-- What `check_group_body` checks behind the modules.
unfoldable pub check_ports : Node → Text → Errors
unfolding find check_expose check_connections
check_ports j path =
    if_found (find (codes "expose") j) (λ e. check_expose e (dot path (codes "expose")))
    ++ if_found (find (codes "connections") j)
        (λ c. check_connections c (dot path (codes "connections")))

abbrev pub is_scalar : Node → Bool
is_scalar j = is_int j || is_double j || is_string j || is_bool j

unfoldable pub check_scalars : Text → List (Text × Node) → Errors
check_scalars path [] = []
check_scalars path ((name, value) ∷ es) =
    (if is_scalar value
      then []
      else error (dot path name) (codes "must be a scalar (number, string or boolean)"))
    ++ check_scalars path es

unfoldable pub check_properties : Node → Text → Errors
unfolding check_scalars entries
check_properties props path =
    if is_object props
    then check_scalars path (entries props)
    else error path (codes "must be an object of name -> scalar")

unfoldable pub has_version : Node → Bool
has_version declared = elim (try_as_string declared) [
  | none ↦ false
  | some text ↦ elim (parse_version text) [ err e ↦ false | ok v ↦ true ]
]

unfoldable pub check_declared : Node → Text → Errors
unfolding has_version
check_declared declared path =
    if has_version declared then [] else error path (codes "invalid version")

-- A child that is a module: the errors, but for those of its name.
unfoldable pub check_module : Known → Node → Node → Text → Errors
unfolding find names check_declared check_properties check_config unknown_keys entries
check_module known j module_value path =
    check_keys j path
      (codes "module" ∷ codes "name" ∷ codes "version" ∷ codes "properties" ∷ codes "config" ∷ [])
    ++ (check_name module_value (dot path (codes "module"))
        ++ (if_found (find (codes "name") j) (λ n. check_name n (dot path (codes "name")))
            ++ (if_found (find (codes "version") j)
                  (λ v. check_declared v (dot path (codes "version")))
                ++ (if_found (find (codes "properties") j)
                      (λ p. check_properties p (dot path (codes "properties")))
                    ++ if_found (find (codes "config") j)
                        (λ c. check_config known c (dot path (codes "config")))))))

-- The name that a value gives to a child, if it is one; otherwise the child keeps the name it had.
unfoldable pub name_in : Node → Text → Text
unfolding names
name_in j kept = if names j then string_or (some j) kept else kept

unfoldable pub module_name : Node → Node → Text
unfolding find name_in
module_name j module_value = elim (find (codes "name") j) [
  | none ↦ name_in module_value []
  | some name ↦ name_in name (name_in module_value [])
]

-- The name of a child among those of its siblings: the errors, and the names from there on.
unfoldable pub check_unique : Text → Text → List Text → Errors × List Text
unfolding has
check_unique path [] taken = ([], taken)
check_unique path (c ∷ cs) taken =
    if has (c ∷ cs) taken
    then (error path (codes "duplicate child name " ++ quoted (c ∷ cs)), taken)
    else ([], (c ∷ cs) ∷ taken)
