-- ===== src/Config/Validate/Shared.antt =====
-- src/runtime/include/atp/runtime/config_validator.hpp: the schema's version, the shared configurations
-- and the references to them.
use ani_tools_platform.Prelude.{
  Bool, true, false, not, ◌&&◌, List, [], ◌∷◌, ◌++◌, Option, none, some, get_or, Text, text_eq,
  codes, Result, ok, err, ◌==◌, if◌then◌else◌, ltb,
}
use ani_tools_platform.Version.{Version, ParseError, parse_version, to_string}
use ani_tools_platform.Config.Node.{Node, find, entries, is_object, try_as_string}
use ani_tools_platform.Config.Model.{parse_config_ref, config_schema_version}
use ani_tools_platform.Config.Validate.Values.{
  Errors, error, dot, quoted, contains, has, check_config_file,
}

-- The entries of the "configs" block: the errors, and the names that are recorded.
unfoldable pub check_entries : List (Text × Node) → Errors × List Text
unfolding contains check_config_file
check_entries [] = ([], [])
check_entries ((name, value) ∷ es) =
    let rest = check_entries es in
    if contains b':' name
    then (
      error (codes "configs") (codes "entry name " ++ quoted name ++ codes " may not contain ':'")
          ++ rest.0,
      rest.1,
    )
    else elim (try_as_string value) [
      | some text ↦ (check_config_file (dot (codes "configs") name) text ++ rest.0, name ∷ rest.1)
      | none ↦ if is_object value then (rest.0, name ∷ rest.1) else (
        error (dot (codes "configs") name) (codes "must be an object or a 'file:' path") ++ rest.0,
        rest.1,
      )
    ]

-- The state of the validator that the checks of modules read.
pub record Known : Type 0 where
  pub config_names : List Text
  pub configs_usable : Bool

unfoldable pub check_configs : Node → Errors × Known
unfolding find check_entries entries
check_configs doc = elim (find (codes "configs") doc) [
  | none ↦ ([], record { config_names = []; configs_usable = true })
  | some configs ↦
      if is_object configs
      then (
        (check_entries (entries configs)).0,
        record { config_names = (check_entries (entries configs)).1; configs_usable = true },
      )
      else (
        error (codes "configs") (codes "must be an object of name -> object"),
        record { config_names = []; configs_usable = false },
      )
]

-- The text up to the first ':'.
source_of : Text → Text
source_of [] = []
source_of (c ∷ cs) = let rest = source_of cs in if c == b':' then [] else c ∷ rest

unfoldable pub check_config : Known → Node → Text → Errors
unfolding parse_config_ref source_of check_config_file has
check_config known j path = if is_object j then [] else elim (try_as_string j) [
  | none ↦ error path (codes "must be an object or a string naming an entry of 'configs'")
  | some text ↦ elim (parse_config_ref text) [
    | none ↦
        if text_eq (source_of text) (codes "file")
        then check_config_file path text
        else error path (codes "unknown config source " ++ quoted (source_of text))
    | some ref ↦
        if known.configs_usable && not (has ref known.config_names)
        then error path (codes "no entry named " ++ quoted ref ++ codes " in 'configs'")
        else []
  ]
]

is_supported : Version → Bool
is_supported v =
    get_or v.parts 0 0 == get_or config_schema_version.parts 0 0
    && not (ltb (get_or config_schema_version.parts 1 0) (get_or v.parts 1 0))

-- What `try_parse_version` makes of the text.
unfoldable pub check_parsed : Text → Result ParseError Version → Errors
unfolding is_supported to_string
check_parsed text (err e) = error (codes "version") (codes "invalid format " ++ quoted text)
check_parsed text (ok v) =
    if is_supported v
    then []
    else error (codes "version") (
        codes "config schema "
        ++ to_string v
        ++ codes " is not supported (application supports "
        ++ to_string config_schema_version
        ++ codes ")")

-- The value under "version", which may be missing.
unfoldable pub check_version : Option Node → Errors
unfolding check_parsed
check_version none = error (codes "version") (codes "required field is missing")
check_version (some found) = elim (try_as_string found) [
  | none ↦ error (codes "version") (codes "must be a string")
  | some text ↦ check_parsed text (parse_version text)
]
