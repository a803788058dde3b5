-- ===== src/Config/Validate/Values.antt =====
-- src/runtime/include/atp/runtime/config_validator.hpp: the checks of names, ports and aliases. A check
-- is the list of the errors that it adds, in their order.
use ani_tools_platform.Prelude.{
  ℕ, Bool, true, false, not, ◌&&◌, ◌||◌, List, [], ◌∷◌, ◌++◌, none, some, length, Text, text_eq,
  codes, ◌==◌, if◌then◌else◌,
}
use ani_tools_platform.Version.Decimal.{decimal}
use ani_tools_platform.Runtime.Compose.{cut_at_dot}
use ani_tools_platform.Config.Node.{Node, entries, is_object, try_as_string}

abbrev pub Errors : Type 0
Errors = List Text

abbrev pub error : Text → Text → Errors
error path message = (path ++ codes ": " ++ message) ∷ []

abbrev pub dot : Text → Text → Text
dot path key = path ++ b'.' ∷ key

unfoldable pub indexed : Text → ℕ → Text
unfolding decimal
indexed path i = path ++ codes "[" ++ decimal i ++ codes "]"

abbrev pub quoted : Text → Text
quoted name = codes "'" ++ name ++ codes "'"

unfoldable pub contains : ℕ → Text → Bool
contains c [] = false
contains c (d ∷ ds) = if c == d then true else contains c ds

unfoldable pub has : Text → List Text → Bool
has k [] = false
has k (n ∷ ns) = if text_eq n k then true else has k ns

abbrev pub is_empty {ℓ} : {A : Type ℓ} → List A → Bool
is_empty [] = true
is_empty (x ∷ xs) = false

unfoldable pub unknown_keys : List Text → Text → List (Text × Node) → Errors
unfolding has
unknown_keys allowed path [] = []
unknown_keys allowed path ((k, v) ∷ es) =
    (if has k allowed then [] else error path (codes "unknown key " ++ quoted k))
    ++ unknown_keys allowed path es

unfoldable pub check_keys : Node → Text → List Text → Errors
unfolding unknown_keys entries
check_keys j path allowed = unknown_keys allowed path (entries j)

-- A non-empty text without '.'.
unfoldable pub is_name : Text → Bool
unfolding contains
is_name text = not (is_empty text || contains b'.' text)

-- The answer, `true` if there is no error.
unfoldable pub names : Node → Bool
unfolding is_name
names j = elim (try_as_string j) [ none ↦ false | some text ↦ is_name text ]

abbrev pub check_name : Node → Text → Errors
check_name j path =
    if names j then [] else error path (codes "must be a non-empty string without '.'")

-- Whether the text is '<child>.<port>': one dot, and something on both sides of it.
unfoldable pub is_port_path : Text → Bool
unfolding contains cut_at_dot
is_port_path text = elim (cut_at_dot text) [
  | none ↦ false
  | some (front, back) ↦ not (is_empty front) && not (is_empty back) && not (contains b'.' back)
]

unfoldable pub check_port_path : Node → Text → Errors
unfolding is_port_path
check_port_path j path = elim (try_as_string j) [
  | none ↦ error path (codes "must be a string '<child>.<port>'")
  | some text ↦
      if is_port_path text
      then []
      else error path (codes "expected '<child>.<port>', got " ++ quoted text)
]

abbrev pub file_prefix : Text
file_prefix = codes "file:"

unfoldable pub starts_with : Text → Text → Bool
starts_with [] text = true
starts_with (c ∷ cs) [] = false
starts_with (c ∷ cs) (d ∷ ds) = c == d && starts_with cs ds

unfoldable pub check_config_file : Text → Text → Errors
unfolding starts_with
check_config_file path text =
    if not (starts_with file_prefix text)
    then error path (codes "must be an object or a 'file:' path")
    else if length text == length file_prefix
    then error path (codes "names no file after 'file:'")
    else []

unfoldable pub check_aliases : Text → List (Text × Node) → Errors
unfolding is_name check_port_path
check_aliases path [] = []
check_aliases path ((alias, port) ∷ es) =
    (if is_name alias then [] else error path (codes "bad alias " ++ quoted alias))
    ++ (check_port_path port (dot path alias) ++ check_aliases path es)

unfoldable pub check_expose_map : Node → Text → Errors
unfolding check_aliases entries
check_expose_map j path =
    if is_object j
    then check_aliases path (entries j)
    else error path (codes "must be an object of alias -> '<child>.<port>'")
