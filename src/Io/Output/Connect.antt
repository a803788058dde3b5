-- ===== src/Io/Output/Connect.antt =====
-- The subscriber list of include/atp/io/output.hpp and the calls that change it.
use ani_tools_platform.Prelude.{
  ℕ, ◌≡◌, refl, true, false, not, ◌&&◌, ◌||◌, List, [], ◌∷◌, ◌++◌, All, All-append, arith, ◌==◌,
  Result, ok, err, Bool-cases, inl, inr,
}
use ani_tools_platform.Io.Output.{
  Element, Output, ConnectError, accepts, member, without, connect, disconnect, disconnect_all,
}

abbrev pub Distinct : List ℕ → Type 0
Distinct [] = Unit {0}
Distinct (x ∷ xs) = (member x xs ≡ false) × Distinct xs

-- `e` gives the element type of the input at each address.
pub record IsWired (e : ℕ → Element) (o : Output) : Type 0 where
  pub distinct : Distinct o.targets
  pub compatible : All (λ a. accepts (e a) o.element ≡ true) o.targets

pub member-append : (a : ℕ) (xs ys : List ℕ) → member a (xs ++ ys) ≡ (member a xs || member a ys)
unfolding member
member-append a [] ys = refl
member-append a (x ∷ xs) ys = ground (arith, member-append a xs ys)

pub Distinct-append :
    (xs : List ℕ) (a : ℕ) → member a xs ≡ false → Distinct xs → Distinct (xs ++ a ∷ [])
unfolding member
Distinct-append [] a h d = (refl, tt)
Distinct-append (x ∷ xs) a h d = ground (arith, member-append x xs (a ∷ []), Distinct-append xs a)

member-without : (a b : ℕ) (xs : List ℕ) → member b (without a xs) ≡ (not (a == b) && member b xs)
unfolding member without
member-without a b [] = ground arith
member-without a b (x ∷ xs) = ground (arith, member-without a b xs)

Distinct-without : (a : ℕ) (xs : List ℕ) → Distinct xs → Distinct (without a xs)
unfolding without
Distinct-without a [] d = tt
Distinct-without a (x ∷ xs) d = ground (arith, Distinct-without a xs d.1, member-without a x xs)

All-without {κ} : (P : ℕ → Type κ) (a : ℕ) (xs : List ℕ) → All P xs → All P (without a xs)
unfolding without
All-without P a [] h = tt
All-without P a (x ∷ xs) h = elim (Bool-cases (x == a)) [
  | inl e ↦ rw e (All-without P a xs h.1)
  | inr e ↦ rw e (h.0, All-without P a xs h.1)
]

connect-inversion :
    (e : Element) (a : ℕ) (o : Output) {p : Output}
    → connect e a o ≡ ok p
    → (accepts e o.element ≡ true)
      × (member a o.targets ≡ false)
      × (p ≡ record o { targets = o.targets ++ a ∷ [] })
unfolding connect
connect-inversion e a o h = ground arith

connect-IsWired :
    (e : ℕ → Element) (a : ℕ) (o p : Output) → IsWired e o → connect (e a) a o ≡ ok p → IsWired e p
connect-IsWired e a o p w h =
    let (good, fresh, same) = connect-inversion (e a) a o h in
    rw same (record {
      distinct = Distinct-append o.targets a fresh w.distinct;
      compatible = All-append _ o.targets (a ∷ []) w.compatible (good, tt);
    })

disconnect-IsWired :
    (e : ℕ → Element) (a : ℕ) (o : Output) → IsWired e o → IsWired e (disconnect a o).0
unfolding disconnect
disconnect-IsWired e a o w = elim (Bool-cases (member a o.targets)) [
  | inl h ↦ rw h (record {
    distinct = Distinct-without a o.targets w.distinct;
    compatible = All-without _ a o.targets w.compatible;
  })
  | inr h ↦ rw h w
]

-- The calls that change the subscribers. A connection that throws leaves the output as it was.
pub data WireOp : Type 0 where
  connects disconnects : ℕ → WireOp
  disconnects_all : WireOp

abbrev pub after : Output → Result ConnectError Output → Output
after o (ok p) = p
after o (err c) = o

module _ (e : ℕ → Element) where
  pub wire : WireOp → Output → Output
  wire (connects a) o = after o (connect (e a) a o)
  wire (disconnects a) o = (disconnect a o).0
  wire disconnects_all o = disconnect_all o

  pub wire_all : List WireOp → Output → Output
  wire_all [] o = o
  wire_all (op ∷ ops) o = wire_all ops (wire op o)

after-IsWired :
    (e : ℕ → Element) (a : ℕ) (o : Output) (r : Result ConnectError Output)
    → IsWired e o
    → connect (e a) a o ≡ r
    → IsWired e (after o r)
after-IsWired e a o (ok p) w h = connect-IsWired e a o p w h
after-IsWired e a o (err c) w h = w

wire-IsWired : (e : ℕ → Element) (op : WireOp) (o : Output) → IsWired e o → IsWired e (wire e op o)
unfolding wire disconnect_all
wire-IsWired e (connects a) o w = after-IsWired e a o (connect (e a) a o) w refl
wire-IsWired e (disconnects a) o w = disconnect-IsWired e a o w
wire-IsWired e disconnects_all o w = record { distinct = tt; compatible = tt }

-- After any sequence of connections and disconnections, accepted or refused, an output that started
-- well wired has no input twice among its subscribers, and every subscriber accepts its type.
pub wire_all-IsWired :
    (e : ℕ → Element) (ops : List WireOp) (o : Output) → IsWired e o → IsWired e (wire_all e ops o)
unfolding wire_all
wire_all-IsWired e [] o w = w
wire_all-IsWired e (op ∷ ops) o w = wire_all-IsWired e ops (wire e op o) (wire-IsWired e op o w)

-- Disconnecting an input answers whether it was a subscriber, and removes it and no other one.
pub disconnect-member :
    (a b : ℕ) (o : Output)
    → ((disconnect a o).1 ≡ member a o.targets)
      × (member b (disconnect a o).0.targets ≡ (not (a == b) && member b o.targets))
unfolding disconnect
disconnect-member a b o = ground (arith, member-without a b o.targets)
