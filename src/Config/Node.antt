-- ===== src/Config/Node.antt =====
-- include/atp/config/node.hpp: one node of a configuration document. A `double` is the number that its
-- 64 bits spell, since nothing here computes with it; a 64-bit integer is a signed number.
pub mod Laws
use ani_tools_platform.Prelude.{
  ℕ, zero, suc, ◌≡◌, Bool, true, false, not, List, [], ◌∷◌, ◌++◌, Option, none, some, get_elem?,
  set, length, Text, text_eq, codes, Result, ok, err, ◌>>=◌, if◌then◌else◌, ltb,
}
use ani_tools_platform.Prelude.Int.{ℤ}
use ani_tools_platform.Prelude.Assoc.{lookup, put, name_eq}

pub data Kind : Type 0 where
  null boolean integer real string array object : Kind

-- `array_type` and `object_type` are the lists `Items` and `Fields`.
mutual
  pub data Node : Type 0 where
    null_node : Node
    bool_node : Bool → Node
    int_node : ℤ → Node
    double_node : ℕ → Node
    string_node : Text → Node
    array_node : Items → Node
    object_node : Fields → Node

  pub data Items : Type 0 where
    no_items : Items
    item : Node → Items → Items

  pub data Fields : Type 0 where
    no_fields : Fields
    field : Text → Node → Fields → Fields

unfoldable pub to_list : Items → List Node
to_list no_items = []
to_list (item j js) = j ∷ to_list js

unfoldable pub to_items : List Node → Items
to_items [] = no_items
to_items (j ∷ js) = item j (to_items js)

unfoldable pub to_entries : Fields → List (Text × Node)
to_entries no_fields = []
to_entries (field k v fs) = (k, v) ∷ to_entries fs

unfoldable pub to_fields : List (Text × Node) → Fields
to_fields [] = no_fields
to_fields ((k, v) ∷ es) = field k v (to_fields es)

-- The constructors from an `array_type` and from an `object_type`.
abbrev pub array_of : List Node → Node
array_of js = array_node (to_items js)

abbrev pub object_of : List (Text × Node) → Node
object_of es = object_node (to_fields es)

-- What the functions throw: `not_a` has the kind that was expected and the one that was found.
pub data AccessError : Type 0 where
  index_out_of_range : ℕ → AccessError
  not_a_container : Kind → AccessError
  not_an_array : Kind → AccessError
  not_an_object : Kind → AccessError
  no_key : Text → AccessError
  not_a : Kind → Kind → AccessError
  key_not_a : Text → Kind → Kind → AccessError

abbrev pub kind : Node → Kind
kind null_node = null
kind (bool_node b) = boolean
kind (int_node n) = integer
kind (double_node d) = real
kind (string_node s) = string
kind (array_node js) = array
kind (object_node fs) = object

abbrev pub kind_name : Kind → Text
kind_name null = codes "null"
kind_name boolean = codes "boolean"
kind_name integer = codes "integer"
kind_name real = codes "real"
kind_name string = codes "string"
kind_name array = codes "array"
kind_name object = codes "object"

abbrev pub is_null : Node → Bool
is_null null_node = true
is_null _ = false

abbrev pub is_bool : Node → Bool
is_bool (bool_node b) = true
is_bool _ = false

abbrev pub is_int : Node → Bool
is_int (int_node n) = true
is_int _ = false

abbrev pub is_double : Node → Bool
is_double (double_node d) = true
is_double _ = false

abbrev pub is_string : Node → Bool
is_string (string_node s) = true
is_string _ = false

abbrev pub is_array : Node → Bool
is_array (array_node js) = true
is_array _ = false

abbrev pub is_object : Node → Bool
is_object (object_node fs) = true
is_object _ = false

unfoldable pub entries : Node → List (Text × Node)
unfolding to_entries
entries (object_node fs) = to_entries fs
entries _ = []

unfoldable pub elements : Node → List Node
unfolding to_list
elements (array_node js) = to_list js
elements _ = []

unfoldable pub size : Node → ℕ
unfolding to_list to_entries
size (array_node js) = length (to_list js)
size (object_node fs) = length (to_entries fs)
size _ = 0

or_out_of_range : ℕ → Option Node → Result AccessError Node
or_out_of_range i none = err (index_out_of_range i)
or_out_of_range i (some j) = ok j

second : Option (Text × Node) → Option Node
second none = none
second (some (k, v)) = some v

-- `operator[](std::size_t)` of a node that is read.
unfoldable pub at_index : Node → ℕ → Result AccessError Node
unfolding or_out_of_range second to_list to_entries
at_index (array_node js) i = or_out_of_range i (get_elem? (to_list js) i)
at_index (object_node fs) i = or_out_of_range i (second (get_elem? (to_entries fs) i))
at_index j i = err (not_a_container (kind j))

set_value : List (Text × Node) → ℕ → Node → List (Text × Node)
set_value [] i v = []
set_value ((k, w) ∷ es) zero v = (k, v) ∷ es
set_value ((k, w) ∷ es) (suc i) v = (k, w) ∷ set_value es i v

-- `node[i] = value`, through the `operator[](std::size_t)` of a node that may change.
unfoldable pub assign_index : Node → ℕ → Node → Result AccessError Node
unfolding set_value to_list to_items to_entries to_fields
assign_index (array_node js) i v =
    if ltb i (length (to_list js))
    then ok (array_of (set (to_list js) i v))
    else err (index_out_of_range i)
assign_index (object_node fs) i v =
    if ltb i (length (to_entries fs))
    then ok (object_of (set_value (to_entries fs) i v))
    else err (index_out_of_range i)
assign_index j i v = err (not_a_container (kind j))

unfoldable pub push_back : Node → Node → Result AccessError Node
unfolding to_list to_items
push_back null_node v = ok (array_of (v ∷ []))
push_back (array_node js) v = ok (array_of (to_list js ++ v ∷ []))
push_back j v = err (not_an_array (kind j))

remove_at {ℓ} : {A : Type ℓ} → List A → ℕ → List A
remove_at [] i = []
remove_at (x ∷ xs) zero = xs
remove_at (x ∷ xs) (suc i) = x ∷ remove_at xs i

-- `erase(std::size_t)`: the node that it leaves, and its answer.
unfoldable pub erase_index : Node → ℕ → Node × Bool
unfolding remove_at to_list to_items to_entries to_fields
erase_index (array_node js) i =
    if ltb i (length (to_list js))
    then (array_of (remove_at (to_list js) i), true)
    else (array_node js, false)
erase_index (object_node fs) i =
    if ltb i (length (to_entries fs))
    then (object_of (remove_at (to_entries fs) i), true)
    else (object_node fs, false)
erase_index j i = (j, false)

-- `node[key] = value`, through `operator[](std::string_view)`: the entry is written where it stands,
-- or it is new and the last one.
unfoldable pub assign : Node → Text → Node → Result AccessError Node
unfolding to_entries to_fields
assign null_node k v = ok (object_of (put k v []))
assign (object_node fs) k v = ok (object_of (put k v (to_entries fs)))
assign j k v = err (not_an_object (kind j))

-- The first entry under the key goes.
unfoldable pub erase_first : Text → List (Text × Node) → List (Text × Node)
erase_first k [] = []
erase_first k ((i, v) ∷ es) =
    let rest = erase_first k es in if text_eq i k then es else (i, v) ∷ rest

has_key : Text → List (Text × Node) → Bool
has_key k [] = false
has_key k ((i, v) ∷ es) = if text_eq i k then true else has_key k es

-- `erase(std::string_view)`.
unfoldable pub erase_key : Node → Text → Node × Bool
unfolding erase_first has_key to_entries to_fields
erase_key (object_node fs) k =
    if has_key k (to_entries fs)
    then (object_of (erase_first k (to_entries fs)), true)
    else (object_node fs, false)
erase_key j k = (j, false)

key_or_empty : Option (Text × Node) → Text
key_or_empty none = []
key_or_empty (some (k, v)) = k

unfoldable pub key_at : Node → ℕ → Text
unfolding key_or_empty entries
key_at j i = key_or_empty (get_elem? (entries j) i)

unfoldable pub find : Text → Node → Option Node
unfolding entries lookup
find k j = lookup k (entries j)

or_no_key : Text → Option Node → Result AccessError Node
or_no_key k none = err (no_key k)
or_no_key k (some j) = ok j

unfoldable pub at : Text → Node → Result AccessError Node
unfolding or_no_key find
at k j = or_no_key k (find k j)

-- `try_get` at the four types of a scalar.
abbrev pub try_as_bool : Node → Option Bool
try_as_bool (bool_node b) = some b
try_as_bool _ = none

abbrev pub try_as_int : Node → Option ℤ
try_as_int (int_node n) = some n
try_as_int _ = none

abbrev pub try_as_double : Node → Option ℕ
try_as_double (double_node d) = some d
try_as_double _ = none

abbrev pub try_as_string : Node → Option Text
try_as_string (string_node s) = some s
try_as_string _ = none

-- The value that is held, or what is thrown where another form is.
abbrev pub or_throw {ℓ} : {A : Type ℓ} → AccessError → Option A → Result AccessError A
or_throw thrown none = err thrown
or_throw thrown (some a) = ok a

abbrev pub as_bool : Node → Result AccessError Bool
as_bool j = or_throw (not_a boolean (kind j)) (try_as_bool j)

abbrev pub as_int : Node → Result AccessError ℤ
as_int j = or_throw (not_a integer (kind j)) (try_as_int j)

abbrev pub as_double : Node → Result AccessError ℕ
as_double j = or_throw (not_a real (kind j)) (try_as_double j)

abbrev pub as_string : Node → Result AccessError Text
as_string j = or_throw (not_a string (kind j)) (try_as_string j)

unfoldable pub bool_at : Text → Node → Result AccessError Bool
unfolding at
bool_at k j = at k j >>= λ found. or_throw (key_not_a k boolean (kind found)) (try_as_bool found)

unfoldable pub int_at : Text → Node → Result AccessError ℤ
unfolding at
int_at k j = at k j >>= λ found. or_throw (key_not_a k integer (kind found)) (try_as_int found)

unfoldable pub double_at : Text → Node → Result AccessError ℕ
unfolding at
double_at k j = at k j >>= λ found. or_throw (key_not_a k real (kind found)) (try_as_double found)

unfoldable pub string_at : Text → Node → Result AccessError Text
unfolding at
string_at k j = at k j >>= λ found. or_throw (key_not_a k string (kind found)) (try_as_string found)
