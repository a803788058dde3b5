-- ===== src/Studio/NodeRef.antt =====
-- src/studio/include/atp/studio/node_ref.hpp: the address of a node in the tree of a project.
pub mod Laws
use ani_tools_platform.Prelude.{
  Bool, true, false, ◌&&◌, ◌||◌, List, [], ◌∷◌, ◌++◌, Option, none, some, Text, text_eq, ◌==◌,
  if◌then◌else◌,
}

pub record NodeRef : Type 0 where
  pub group : Text
  pub name : Text

abbrev pub is_empty : Text → Bool
is_empty [] = true
is_empty (c ∷ cs) = false

-- The text before the last '.' and the text behind it.
unfoldable pub cut_at_last_dot : Text → Option (Text × Text)
cut_at_last_dot [] = none
cut_at_last_dot (c ∷ cs) = elim (cut_at_last_dot cs) [
  | some (front, back) ↦ some (c ∷ front, back)
  | none ↦ if c == b'.' then some ([], cs) else none
]

unfoldable pub parse : Text → NodeRef
unfolding cut_at_last_dot
parse path = elim (cut_at_last_dot path) [
  | none ↦ record { group = []; name = path }
  | some (front, back) ↦ record { group = front; name = back }
]

unfoldable pub full : NodeRef → Text
full r =
    if is_empty r.name
    then r.group
    else if is_empty r.group
    then r.name
    else r.group ++ b'.' ∷ r.name

unfoldable pub is_root : NodeRef → Bool
is_root r = is_empty r.group && is_empty r.name

-- `starts_with`, and what is left behind the prefix.
unfoldable pub strip_prefix : Text → Text → Option Text
strip_prefix [] text = some text
strip_prefix (c ∷ cs) [] = none
strip_prefix (c ∷ cs) (d ∷ ds) = let rest = strip_prefix cs ds in if c == d then rest else none

abbrev pub goes_on : Option Text → Bool
goes_on none = false
goes_on (some []) = false
goes_on (some (c ∷ cs)) = c == b'.'

unfoldable pub contains : NodeRef → Text → Bool
unfolding full strip_prefix
contains r group_path =
    if is_empty (full r)
    then true
    else if text_eq group_path (full r)
    then true
    else goes_on (strip_prefix (full r) group_path)
