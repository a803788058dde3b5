-- ===== src/Io/Output.antt =====
-- include/atp/io/output.hpp, output_base.hpp and input_base.hpp: connections and delivery. The
-- inputs are shared objects, so they live in a store and an output names them by their address.
pub mod Connect
pub mod Delivery
use ani_tools_platform.Prelude.{
  ℕ, ◌+◌, Bool, true, false, not, ◌&&◌, ◌||◌, List, [], ◌∷◌, ◌++◌, Option, none, some, ◌==◌,
  if◌then◌else◌, length, Result, ok, err, ◌>>=◌, incr64,
}
use ani_tools_platform.Io.Input.{LastInput, QueuedInput, write_last, write_queued}

-- A type tag: the name by which `same_type` compares, and whether the ABI guarantees that the name
-- is unique (a leading '*' marks one that it does not, for which only the address counts).
pub record TypeTag : Type 0 where
  pub name : ℕ
  pub address : ℕ
  pub starred : Bool

unfoldable pub same_type : TypeTag → TypeTag → Bool
same_type l r =
    if l.address == r.address
    then true
    else if l.starred || r.starred
    then false
    else l.name == r.name

-- The element type of an input: `input<std::any>`, or a type of its own.
pub data Element : Type 0 where
  any : Element
  typed : TypeTag → Element

unfoldable pub accepts : Element → TypeTag → Bool
unfolding same_type
accepts any produced = true
accepts (typed t) produced = same_type produced t

pub data ConnectError : Type 0 where
  incompatible already_connected : ConnectError

-- output<T>
pub record Output : Type 0 where
  pub element : TypeTag
  pub safe : Bool
  pub targets : List ℕ
  pub writes : ℕ

unfoldable pub member : ℕ → List ℕ → Bool
member a [] = false
member a (x ∷ xs) = x == a || member a xs

unfoldable pub without : ℕ → List ℕ → List ℕ
without a [] = []
without a (x ∷ xs) = let rest = without a xs in if x == a then rest else x ∷ rest

-- attach(in)
unfoldable pub attach : ℕ → Output → Result ConnectError Output
unfolding member
attach a o =
    if member a o.targets
    then err already_connected
    else ok (record o { targets = o.targets ++ a ∷ [] })

-- do_connect(in), given the element type of the input at that address.
unfoldable pub connect : Element → ℕ → Output → Result ConnectError Output
unfolding attach accepts
connect e a o = if not (accepts e o.element) then err incompatible else attach a o

unfoldable pub disconnect : ℕ → Output → Output × Bool
unfolding member without
disconnect a o =
    if not (member a o.targets)
    then (o, false)
    else (record o { targets = without a o.targets }, true)

unfoldable pub disconnect_all : Output → Output
disconnect_all o = record o { targets = [] }

unfoldable pub connections : Output → ℕ
connections o = length o.targets

unfoldable pub write_count : Output → ℕ
write_count o = if not o.safe then 0 else o.writes

unfoldable pub reset_output : Output → Output
reset_output o = record o { writes = 0 }

-- An input of either kind: the virtual `store`.
pub data Port (A : Type 0) : Type 0 where
  last : LastInput A → Port A
  queued : QueuedInput A → Port A

-- The inputs by address, the notifier installed on each, and the notifiers fired so far.
pub record World (A : Type 0) : Type 0 where
  pub input : ℕ → Port A
  pub notifier : ℕ → Option ℕ
  pub fired : List ℕ

module _ {A : Type 0} where
  unfoldable pub accept : A → Port A → Port A
  accept a (last i) = last (write_last a i)
  accept a (queued i) = queued (write_queued a i)

  -- do_deliver, or do_deliver_move: the value reaches the input through its `operator()`.
  abbrev store_at : ℕ → A → World A → World A
  store_at a v w = record w { input = λ b. if b == a then accept v (w.input b) else w.input b }

  abbrev fire : Option ℕ → World A → World A
  fire none w = w
  fire (some n) w = record w { fired = w.fired ++ n ∷ [] }

  -- deliver(value, meta)
  unfoldable pub deliver : ℕ → A → World A → World A
  deliver a v w = fire (w.notifier a) (store_at a v w)

  -- dispatch(targets, value)
  unfoldable pub dispatch : List ℕ → A → World A → World A
  unfolding deliver
  dispatch [] v w = w
  dispatch (a ∷ targets) v w = dispatch targets v (deliver a v w)

  -- operator()(value)
  unfoldable pub write_output : A → Output → World A → Output × World A
  unfolding dispatch
  write_output v o w = (record o { writes = incr64 o.writes }, dispatch o.targets v w)
