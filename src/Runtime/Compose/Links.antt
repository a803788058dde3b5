-- ===== src/Runtime/Compose/Links.antt =====
-- The connections of a group of src/runtime/include/atp/runtime/group.hpp and the subscriptions that
-- they stand for.
use ani_tools_platform.Prelude.{
  ℕ, ◌≡◌, sym, ap, ◌∙◌, true, false, ◌||◌, List, [], ◌∷◌, ◌++◌, ◌==◌, ==_iff, Text, Result, ok, err,
  >>=-eq-ok, arith, Bool-cases, inl, inr, subst, All, All-append,
}
use ani_tools_platform.Io.Output.{
  Element, Output, ConnectError, member, connect, attach, disconnect,
}
use ani_tools_platform.Io.Output.Connect.{member-append, disconnect-member}
use ani_tools_platform.Runtime.Tree.{Group, group, info}
use ani_tools_platform.Runtime.Compose.{
  Faces, resolve_input, resolve_output, Outputs, set_output, attached, link, unlink,
}

connect-member :
    (e : Element) (a b : ℕ) (o p : Output)
    → connect e a o ≡ ok p
    → member b p.targets ≡ (member b o.targets || b == a)
unfolding connect attach member
connect-member e a b o p h = ground (arith, member-append b o.targets (a ∷ []))

abbrev pub IsSubscribed : Outputs → ℕ × ℕ → Type 0
IsSubscribed w (out, in_port) = member in_port (w out).targets ≡ true

-- Every recorded connection is a subscription.
abbrev pub IsLinked : Group × Outputs → Type 0
IsLinked (g, w) = All (IsSubscribed w) (info g).connections

-- A connection takes no subscription away.
set_output-member :
    (e : Element) (out in_port a b : ℕ) (w : Outputs) (o : Output)
    → connect e in_port (w out) ≡ ok o
    → member b (w a).targets ≡ true
    → member b (set_output out o w a).targets ≡ true
set_output-member e out in_port a b w o h k = elim (Bool-cases (a == out)) [
  | inl same ↦
      let at : a ≡ out = (==_iff a out).0 same in
      let k' : member b (w out).targets ≡ true = subst (λ x. member b (w x).targets ≡ true) at k in
      rw (same) (connect-member e in_port b (w out) o h ∙ ap (λ x. x || b == in_port) k')
  | inr other ↦ rw (other) k
]

grows :
    (e : Element) (out in_port : ℕ) (w : Outputs) (o : Output)
    → connect e in_port (w out) ≡ ok o
    → (l : List (ℕ × ℕ)) → All (IsSubscribed w) l
    → All (IsSubscribed (set_output out o w)) l
grows e out in_port w o h [] k = tt
grows e out in_port w o h ((a, b) ∷ l) k =
    (set_output-member e out in_port a b w o h k.0, grows e out in_port w o h l k.1)

attached-inversion : (r : Result ConnectError Output) (o : Output) → attached r ≡ ok o → r ≡ ok o
attached-inversion (ok o) p h = cc
attached-inversion (err c) p h = cc

own_subscription :
    (e : Element) (out in_port : ℕ) (w : Outputs) (o : Output)
    → connect e in_port (w out) ≡ ok o
    → IsSubscribed (set_output out o w) (out, in_port)
own_subscription e out in_port w o h =
    ground
      (arith, ==_iff out out, ==_iff in_port in_port, connect-member e in_port in_port (w out) o h)

module _ (faces : Faces) (e : ℕ → Element) where
  -- A link that succeeds leads from the port of the first path to the port of the second, subscribes
  -- the one to the other, and is recorded after the connections that were there; all of them are
  -- still subscriptions.
  pub link-IsLinked :
      (from to : Text) (g g' : Group) (w w' : Outputs)
      → IsLinked (g, w)
      → link faces e from to (g, w) ≡ ok (g', w')
      → (out : ℕ) × (in_port : ℕ) × (resolve_output faces from g ≡ ok out)
        × (resolve_input faces to g ≡ ok in_port)
        × ((info g').connections ≡ (info g).connections ++ (out, in_port) ∷ [])
        × IsLinked (g', w')
  unfolding link
  link-IsLinked from to (group i cs) g' w w' k h =
      let (out, a, h') = >>=-eq-ok (resolve_output faces from (group i cs)) _ h in
      let (in_port, b, h'') = >>=-eq-ok (resolve_input faces to (group i cs)) _ h' in
      let (o, c, done) = >>=-eq-ok (attached (connect (e in_port) in_port (w out))) _ h'' in
      let c' = attached-inversion (connect (e in_port) in_port (w out)) o c in
      let l : List (ℕ × ℕ) = i.connections ++ (out, in_port) ∷ [] in
      let same : ◌≡◌ {A = Group × Outputs}
          (group (record i { connections = l }) cs, set_output out o w) (g', w') =
        cc in
      (
        out,
        in_port,
        a,
        b,
        ap (λ x. (info x.0).connections) (sym same),
        subst IsLinked same (
            All-append (IsSubscribed (set_output out o w)) i.connections ((out, in_port) ∷ [])
              (grows (e in_port) out in_port w o c' i.connections k)
              (own_subscription (e in_port) out in_port w o c', tt)),
      )

disconnect-keeps_out :
    (out in_port a b : ℕ) (w : Outputs)
    → member b (w a).targets ≡ false
    → member b (set_output out (disconnect in_port (w out)).0 w a).targets ≡ false
disconnect-keeps_out out in_port a b w h = elim (Bool-cases (a == out)) [
  | inl same ↦
      let at : a ≡ out = (==_iff a out).0 same in
      let h' : member b (w out).targets ≡ false =
        subst (λ x. member b (w x).targets ≡ false) at h in
      rw (same) (ground (arith, disconnect-member in_port b (w out)))
  | inr other ↦ rw (other) h
]

unlink-keeps_out :
    (l : List (ℕ × ℕ)) (a b : ℕ) (w : Outputs)
    → member b (w a).targets ≡ false
    → member b (unlink l w a).targets ≡ false
unfolding unlink
unlink-keeps_out [] a b w h = h
unlink-keeps_out ((out, in_port) ∷ l) a b w h =
    unlink-keeps_out l a b (set_output out (disconnect in_port (w out)).0 w)
      (disconnect-keeps_out out in_port a b w h)

-- A group that is destroyed leaves no subscription of a connection that it recorded, also of one that
-- is recorded twice or was taken away before.
pub unlink-removes :
    (l : List (ℕ × ℕ)) (w : Outputs) → All (λ c. member c.1 (unlink l w c.0).targets ≡ false) l
unfolding unlink
unlink-removes [] w = tt
unlink-removes ((out, in_port) ∷ l) w =
    let w' = set_output out (disconnect in_port (w out)).0 w in
    (
      unlink-keeps_out l out in_port w' (
          ground (
            arith,
            ==_iff out out,
            ==_iff in_port in_port,
            disconnect-member in_port in_port (w out),
          )),
      unlink-removes l w',
    )
