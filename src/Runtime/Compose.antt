-- ===== src/Runtime/Compose.antt =====
-- src/runtime/include/atp/runtime/group.hpp: building a group: adding children, exposing their ports
-- under an alias, and connecting ports by their paths. The registries of a module that is no group
-- are its plugin's, so they are a parameter; the aliases of a group stand in its GroupInfo.
pub mod Paths
pub mod Names
pub mod Links
use ani_tools_platform.Prelude.{
  ℕ, zero, suc, ◌==◌, Bool, true, false, List, [], ◌∷◌, ◌++◌, Option, none, some, if◌then◌else◌,
  Text, text_eq, Result, ok, err, ◌>>=◌, ◌>>◌, guard,
}
use ani_tools_platform.Io.Output.{Element, Output, ConnectError, connect, disconnect}
use ani_tools_platform.Runtime.Tree.{
  Group, GroupInfo, Children, group, end, leaf, sub, info, children,
}

pub data ComposeError : Type 0 where
  null_module empty_child_name duplicate_child bad_path no_child no_port duplicate_alias :
      ComposeError
  refused : ConnectError → ComposeError

-- A child's module: one of a plugin, by its address, or a group.
pub data Module : Type 0 where
  plugin : ℕ → Module
  composite : Group → Module

-- What the registries of a plugin's module answer to find().
pub record Faces : Type 0 where
  pub input : ℕ → Text → Option ℕ
  pub output : ℕ → Text → Option ℕ

unfoldable pub find_child : Text → Children → Option Module
find_child name end = none
find_child name (leaf n a cs) =
    let rest = find_child name cs in if text_eq n name then some (plugin a) else rest
find_child name (sub n d g cs) =
    let rest = find_child name cs in if text_eq n name then some (composite g) else rest

unfoldable pub ensure_unique : Text → Children → Result ComposeError (Unit {0})
unfolding find_child
ensure_unique [] cs = err empty_child_name
ensure_unique (c ∷ name) cs = elim (find_child (c ∷ name) cs) [
  | none ↦ ok tt
  | some m ↦ err duplicate_child
]

-- children_.push_back
unfoldable pub push_back : Text → Module → Children → Children
push_back name (plugin a) end = leaf name a end
push_back name (composite g) end = sub name false g end
push_back name m (leaf n a cs) = leaf n a (push_back name m cs)
push_back name m (sub n d g cs) = sub n d g (push_back name m cs)

-- add(name, module); a null module is `none`.
unfoldable pub add : Text → Option Module → Group → Result ComposeError Group
unfolding ensure_unique push_back
add name none g = err null_module
add name (some m) (group i cs) = ensure_unique name cs >> ok (group i (push_back name m cs))

-- The text before the first '.', and what follows it.
unfoldable pub cut_at_dot : Text → Option (Text × Text)
cut_at_dot [] = none
cut_at_dot (c ∷ cs) =
    let rest = cut_at_dot cs in
    if c == b'.'
    then some ([], cs)
    else elim rest [ none ↦ none | some (front, back) ↦ some (c ∷ front, back) ]

-- path.find('.'), with both parts not empty
unfoldable pub split_text : Text → Result ComposeError (Text × Text)
unfolding cut_at_dot
split_text path = elim (cut_at_dot path) [
  | none ↦ err bad_path
  | some (front, back) ↦ elim front [
    | [] ↦ err bad_path
    | f ∷ fs ↦ elim back [ [] ↦ err bad_path | b ∷ bs ↦ ok (f ∷ fs, b ∷ bs) ]
  ]
]

abbrev child_named : Option Module → Text → Result ComposeError (Module × Text)
child_named none port = err no_child
child_named (some m) port = ok (m, port)

-- split_path(path)
unfoldable pub split_path : Text → Group → Result ComposeError (Module × Text)
unfolding split_text find_child
split_path path g =
    split_text path >>= λ (child, port). child_named (find_child child (children g)) port

unfoldable pub find_alias : Text → List (Text × ℕ) → Option ℕ
find_alias name [] = none
find_alias name ((n, p) ∷ rest) =
    let later = find_alias name rest in if text_eq n name then some p else later

abbrev port_or : Option ℕ → Result ComposeError ℕ
port_or none = err no_port
port_or (some p) = ok p

-- io_registry::alias
abbrev pub alias : Text → ℕ → List (Text × ℕ) → Result ComposeError (List (Text × ℕ))
alias name p l = elim (find_alias name l) [
  | none ↦ ok (l ++ (name, p) ∷ [])
  | some q ↦ err duplicate_alias
]

-- The outputs by address. The element type of every input is `e`.
abbrev pub Outputs : Type 0
Outputs = ℕ → Output

abbrev pub set_output : ℕ → Output → Outputs → Outputs
set_output a o w = λ b. if b == a then o else w b

abbrev pub attached : Result ConnectError Output → Result ComposeError Output
attached (ok o) = ok o
attached (err c) = err (refused c)

-- ~group()
unfoldable pub unlink : List (ℕ × ℕ) → Outputs → Outputs
unlink [] w = w
unlink ((out, in_port) ∷ rest) w = unlink rest (set_output out (disconnect in_port (w out)).0 w)

module _ (faces : Faces) where
  -- inputs().find(name), outputs().find(name)
  unfoldable pub input_of : Module → Text → Option ℕ
  unfolding find_alias
  input_of (plugin a) name = faces.input a name
  input_of (composite g) name = find_alias name (info g).inputs

  unfoldable pub output_of : Module → Text → Option ℕ
  unfolding find_alias
  output_of (plugin a) name = faces.output a name
  output_of (composite g) name = find_alias name (info g).outputs

  unfoldable pub resolve_input : Text → Group → Result ComposeError ℕ
  unfolding split_path input_of
  resolve_input path g = split_path path g >>= λ (m, port). port_or (input_of m port)

  unfoldable pub resolve_output : Text → Group → Result ComposeError ℕ
  unfolding split_path output_of
  resolve_output path g = split_path path g >>= λ (m, port). port_or (output_of m port)

  unfoldable pub expose_input : Text → Text → Group → Result ComposeError Group
  unfolding resolve_input find_alias
  expose_input name path (group i cs) = do
    p ← resolve_input path (group i cs)
    l ← alias name p i.inputs
    ok (group (record i { inputs = l }) cs)

  unfoldable pub expose_output : Text → Text → Group → Result ComposeError Group
  unfolding resolve_output find_alias
  expose_output name path (group i cs) = do
    p ← resolve_output path (group i cs)
    l ← alias name p i.outputs
    ok (group (record i { outputs = l }) cs)

  -- link(from, to)
  unfoldable pub link :
      (ℕ → Element) → Text → Text → Group × Outputs → Result ComposeError (Group × Outputs)
  unfolding resolve_output resolve_input
  link e from to (group i cs, w) = do
    out ← resolve_output from (group i cs)
    in_port ← resolve_input to (group i cs)
    o ← attached (connect (e in_port) in_port (w out))
    ok (
      group (record i { connections = i.connections ++ (out, in_port) ∷ [] }) cs,
      set_output out o w,
    )
