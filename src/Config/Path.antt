-- ===== src/Config/Path.antt =====
-- src/runtime/include/atp/runtime/config_path.hpp: paths like "rig.cameras[2].rate" into a node.
pub mod Grammar
pub mod Resolve
use ani_tools_platform.Prelude.{
  ℕ, zero, suc, ◌+◌, ◌-◌, ◌*◌, ◌/◌, ◌≡◌, Bool, true, false, not, ◌&&◌, ◌||◌, List, [], ◌∷◌, ◌++◌,
  Option, none, some, get_elem?, take, length, Text, codes, Result, ok, err, ◌>>=◌, if◌then◌else◌,
  ltb, leb, ◌==◌,
}
use ani_tools_platform.Version.{is_digit}
use ani_tools_platform.Version.Decimal.{decimal}
use ani_tools_platform.Config.Node.{
  Node, Kind, null, kind, kind_name, is_object, is_array, elements, find, size,
}

-- The largest `std::size_t`.
abbrev pub size_max : ℕ
size_max = 18_446_744_073_709_551_615

-- `stuck` is a loop of the model that ran out of fuel.
pub data PathFault : Type 0 where
  empty empty_key index_too_large no_number unclosed expected_dot trailing_dot stuck : PathFault

-- What a malformed path throws, and at which offset.
pub record PathError : Type 0 where
  pub fault : PathFault
  pub offset : ℕ

pub record PathStop : Type 0 where
  pub resolved : ℕ
  pub kind : Kind
  pub missing_key : Text
  pub out_of_range : Bool
  pub index : ℕ
  pub size : ℕ

abbrev pub no_stop : PathStop
no_stop = record {
  resolved = 0;
  kind = null;
  missing_key = [];
  out_of_range = false;
  index = 0;
  size = 0;
}

-- The variables of the loop but for the position.
pub record Walk : Type 0 where
  pub found : Option Node
  pub resolved : ℕ
  pub stop : PathStop

abbrev pub starts_index : Text → Bool
starts_index [] = false
starts_index (c ∷ cs) = c == b'['

-- The text up to the next '.' or '[', and what follows it.
unfoldable pub scan_name : Text → Text × Text
scan_name [] = ([], [])
scan_name (c ∷ cs) =
    let rest = scan_name cs in if c == b'.' || c == b'[' then ([], c ∷ cs) else (c ∷ rest.0, rest.1)

abbrev pub key_if_object : Node → Text → Text
key_if_object j name = if is_object j then name else []

-- The step to a child by name; the position is behind the name.
unfoldable pub step_key : Text → ℕ → Walk → Walk
step_key name pos s = elim s.found [
  | none ↦ s
  | some j ↦ elim (find name j) [
    | none ↦ record {
      found = none;
      resolved = s.resolved;
      stop = record {
        resolved = s.resolved;
        kind = kind j;
        missing_key = key_if_object j name;
        out_of_range = false;
        index = 0;
        size = 0;
      };
    }
    | some child ↦ record { found = some child; resolved = pos; stop = s.stop }
  ]
]

abbrev element : Node → ℕ → Option Node
element j i = if is_array j then get_elem? (elements j) i else none

-- The step to an element; the position is behind the bracket.
unfoldable pub step_index : ℕ → ℕ → Walk → Walk
unfolding elements
step_index i pos s = elim s.found [
  | none ↦ s
  | some j ↦ elim (element j i) [
    | none ↦ record {
      found = none;
      resolved = s.resolved;
      stop = record {
        resolved = s.resolved;
        kind = kind j;
        missing_key = [];
        out_of_range = true;
        index = i;
        size = size j;
      };
    }
    | some child ↦ record { found = some child; resolved = pos; stop = s.stop }
  ]
]

abbrev pub is_empty : Text → Bool
is_empty [] = true
is_empty (c ∷ cs) = false

module _ (path : Text) where
  -- The offset of the text that is still to be read.
  abbrev pub offset : Text → ℕ
  offset rest = length path - length rest

  abbrev pub bad : {A : Type 0} → PathFault → Text → Result PathError A
  bad fault rest = err (record { fault = fault; offset = offset rest })

  -- The digits of an index, read onto `index`; `digits` is the text from the first of them.
  unfoldable pub read_digits : Text → ℕ → Text → Result PathError (ℕ × Text)
  read_digits digits index [] = ok (index, [])
  read_digits digits index (c ∷ cs) =
      if is_digit c
      then if ltb ((size_max - (c - b'0')) / 10) index
        then bad index_too_large digits
        else read_digits digits (index * 10 + (c - b'0')) cs
      else ok (index, c ∷ cs)

  -- What follows the digits: `bracket` is the text from the '['.
  abbrev pub close_index : Text → ℕ × Text → Result PathError (ℕ × Text)
  close_index bracket (index, []) = bad unclosed bracket
  close_index bracket (index, c ∷ cs) = if c == b']' then ok (index, cs) else bad unclosed bracket

  -- One "[123]": the index and what follows it.
  unfoldable pub read_index : Text → Text → Result PathError (ℕ × Text)
  unfolding read_digits
  read_index bracket digits = read_digits digits 0 digits >>= λ read.
      if length read.1 == length digits then bad no_number bracket else close_index bracket read

  -- The loop over the indices of a segment.
  unfoldable pub indices : ℕ → Walk → Text → Result PathError (Walk × Text)
  unfolding read_index step_index
  indices zero s rest = bad stuck rest
  indices (suc fuel) s [] = ok (s, [])
  indices (suc fuel) s (c ∷ cs) =
      if c == b'['
      then read_index (c ∷ cs) cs
        >>= (λ read. indices fuel (step_index read.0 (offset read.1) s) read.1)
      else ok (s, c ∷ cs)

  abbrev pub enter_name : Text → Text → Walk → Walk
  enter_name name after s = if is_empty name then s else step_key name (offset after) s

  -- What follows a segment; `rest` is the next round of the loop.
  abbrev pub next_segment :
      (Walk → Text → Result PathError Walk) → Walk → Text → Result PathError Walk
  next_segment rest s [] = ok s
  next_segment rest s (c ∷ []) =
      if c == b'.' then bad trailing_dot (c ∷ []) else bad expected_dot (c ∷ [])
  next_segment rest s (c ∷ d ∷ ds) =
      let further = rest s (d ∷ ds) in if c == b'.' then further else bad expected_dot (c ∷ d ∷ ds)

  -- The loop over the segments.
  unfoldable pub segments : ℕ → Bool → Walk → Text → Result PathError Walk
  unfolding scan_name indices step_key
  segments zero first s rest = bad stuck rest
  segments (suc fuel) first s rest =
      let name = (scan_name rest).0 in
      let after = (scan_name rest).1 in
      if is_empty name && not (first && starts_index after)
      then bad empty_key rest
      else (indices (suc (length after)) (enter_name name after s) after >>= λ read.
          next_segment (segments fuel false) read.0 read.1)

abbrev pub at_root : Node → Walk
at_root root = record { found = some root; resolved = 0; stop = no_stop }

-- Every round reads at least one character, so one more round than there are characters is enough.
unfoldable pub walk_path : Node → Text → Result PathError Walk
unfolding segments
walk_path root [] = err (record { fault = empty; offset = 0 })
walk_path root (c ∷ cs) = segments (c ∷ cs) (suc (length (c ∷ cs))) true (at_root root) (c ∷ cs)

unfoldable pub find_path : Node → Text → Result PathError (Option Node)
unfolding walk_path
find_path root path = walk_path root path >>= λ s. ok s.found

pub data AtError : Type 0 where
  malformed : PathError → AtError
  stopped : PathStop → AtError

unfoldable pub at_path : Node → Text → Result AtError Node
unfolding walk_path
at_path root path = elim (walk_path root path) [
  | err e ↦ err (malformed e)
  | ok s ↦ elim s.found [ none ↦ err (stopped s.stop) | some j ↦ ok j ]
]

-- The texts of the messages.
abbrev what : PathFault → Text
what empty = codes "empty"
what empty_key = codes "empty key"
what index_too_large = codes "index too large"
what no_number = codes "'[' without a number"
what unclosed = codes "unclosed '['"
what expected_dot = codes "expected '.'"
what trailing_dot = codes "trailing '.'"
what stuck = []

pub path_message : Text → PathError → Text
unfolding decimal
path_message path e =
    codes "config: bad path '"
    ++ path
    ++ codes "' ("
    ++ what e.fault
    ++ codes " at "
    ++ decimal e.offset
    ++ codes ")"

stopped_at : Text → PathStop → Text
stopped_at path stop =
    if stop.resolved == 0
    then codes "the root"
    else codes "'" ++ take stop.resolved path ++ codes "'"

pub stop_message : Text → PathStop → Text
unfolding decimal stopped_at
stop_message path stop =
    let prefix = codes "config: '" ++ path ++ codes "' " in
    if stop.out_of_range
    then prefix
      ++ codes "has no index "
      ++ decimal stop.index
      ++ codes " in "
      ++ stopped_at path stop
      ++ codes " (size "
      ++ decimal stop.size
      ++ codes ")"
    else if not (is_empty stop.missing_key)
    then prefix ++ codes "has no key '" ++ stop.missing_key ++ codes "' in " ++ stopped_at path stop
    else prefix
      ++ codes "stops at "
      ++ stopped_at path stop
      ++ codes " ("
      ++ kind_name stop.kind
      ++ codes ")"
