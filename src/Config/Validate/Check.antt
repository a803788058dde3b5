-- ===== src/Config/Validate/Check.antt =====
-- src/runtime/include/atp/runtime/config_validator.hpp against decode of config_model.hpp: the parts of
-- a group and of a module.
use ani_tools_platform.Prelude.{
  ℕ, ◌+◌, ◌≡◌, refl, sym, ap, true, false, List, [], ◌∷◌, append-eq-nil, Option, none, some, Text,
  codes, Result, ok, err, ◌>>=◌, if◌then◌else◌, arith, Bool-cases, Option-cases, inl, inr, ◌⊎◌,
  subst,
}
use ani_tools_platform.Version.{Version, ParseError, parse_version}
use ani_tools_platform.Config.Node.{
  Node, string_node, find, at, entries, elements, is_object, is_array, try_as_string, string_at,
  as_string,
}
use ani_tools_platform.Config.Model.Decode.{
  DecodeError, bad_version, lift, parsed, decode_version, entries_of, elements_of, decode_module,
  decode_texts, decode_expose, find_in, decode_connections, decode_ports,
}
use ani_tools_platform.Config.Validate.Values.{
  Errors, error, dot, indexed, names, check_name, check_port_path, check_aliases, check_expose_map,
}
use ani_tools_platform.Config.Validate.Shared.{Known}
use ani_tools_platform.Config.Validate.Parts.{
  if_found, check_expose, check_end, check_connection, check_each, check_connections, check_ports,
  check_declared, has_version, check_module,
}

-- A call that does not throw.
abbrev pub Succeeds {ℓ} : {E : Type 0} {A : Type ℓ} → Result E A → Type ℓ
Succeeds {A = A} call = (value : A) × (call ≡ ok value)

pub >>=-Succeeds {ℓ κ} :
    {E : Type 0} {A : Type ℓ} {B : Type κ} (call : Result E A) (next : A → Result E B)
    → Succeeds call
    → ((a : A) → Succeeds (next a))
    → Succeeds (call >>= next)
>>=-Succeeds (ok a) next h after = after a
>>=-Succeeds (err e) next h after = absurd (cc h.1)

pub string-cases : (j : Node) → (try_as_string j ≡ none) ⊎ ((s : Text) × (j ≡ string_node s))
string-cases (string_node s) = inr (s, refl)
string-cases _ = inl refl

check_port_path-string :
    (j : Node) (path : Text) → check_port_path j path ≡ [] → (s : Text) × (j ≡ string_node s)
unfolding check_port_path
check_port_path-string j path h = elim (string-cases j) [
  | inl none_there ↦ absurd (ground arith)
  | inr there ↦ there
]

pub as_string-Succeeds :
    (j : Node) → ((s : Text) × (j ≡ string_node s)) → Succeeds (lift (as_string j))
as_string-Succeeds j (s, e) = (s, ap (λ k. lift (as_string k)) e)

decode_texts-check :
    (path : Text) (es : List (Text × Node))
    → check_aliases path es ≡ []
    → Succeeds (decode_texts es)
unfolding check_aliases decode_texts
decode_texts-check path [] h = ([], refl)
decode_texts-check path ((alias, port) ∷ es) h =
    let (bad_alias, ports) = append-eq-nil _ _ h in
    let (port_ok, rest) = append-eq-nil _ _ ports in
    let further = decode_texts-check path es rest in
    >>=-Succeeds (lift (as_string port)) _
      (as_string-Succeeds port (check_port_path-string port (dot path alias) port_ok))
      (λ text. >>=-Succeeds (decode_texts es) _ further (λ texts. (_, refl)))

decode_expose-check :
    (path : Text) (o : Option Node)
    → if_found o (λ j. check_expose_map j path) ≡ []
    → Succeeds (decode_expose o)
unfolding decode_expose check_expose_map entries_of decode_texts
decode_expose-check path none h = ([], refl)
decode_expose-check path (some j) h = elim (Bool-cases (is_object j)) [
  | inl object ↦ decode_texts-check path (entries j) (ground arith)
  | inr other ↦ absurd (ground arith)
]

decode_exposed-check :
    (path : Text) (o : Option Node)
    → if_found o (λ j. check_expose j path) ≡ []
    → Succeeds (decode_expose (find_in (codes "inputs") o))
      × Succeeds (decode_expose (find_in (codes "outputs") o))
unfolding check_expose find_in decode_expose entries_of decode_texts
decode_exposed-check path none h = (([], refl), ([], refl))
decode_exposed-check path (some e) h = elim (Bool-cases (is_object e)) [
  | inl object ↦
      let (keys_ok, maps) = append-eq-nil _ _ (rw object at h) in
      let (inputs, outputs) = append-eq-nil _ _ maps in
      (
        decode_expose-check (dot path (codes "inputs")) (find (codes "inputs") e) inputs,
        decode_expose-check (dot path (codes "outputs")) (find (codes "outputs") e) outputs,
      )
  | inr other ↦ absurd (ground arith)
]

string_at-check :
    (key : Text) (c : Node) (path : Text)
    → check_end key c path ≡ []
    → Succeeds (lift (string_at key c))
unfolding check_end string_at at
string_at-check key c path h = elim (Option-cases (find key c)) [
  | inl missing ↦ absurd (ground arith)
  | inr (j, there) ↦
      let (s, e) = check_port_path-string j (dot path key) (rw (check_end, there) at h) in
      (s, rw (there, e) refl)
]

pub check_each-nil :
    (check : Node → Text → Errors) (path : Text) (i : ℕ) (j : Node) (js : List Node)
    → check_each check path i (j ∷ js) ≡ []
    → (check j (indexed path i) ≡ []) × (check_each check path (i + 1) js ≡ [])
unfolding check_each
check_each-nil check path i j js h = append-eq-nil _ _ h

decode_connections-check :
    (path : Text) (i : ℕ) (cs : List Node)
    → check_each check_connection path i cs ≡ []
    → Succeeds (decode_connections cs)
unfolding decode_connections check_connection
decode_connections-check path i [] h = ([], refl)
decode_connections-check path i (c ∷ cs) h =
    let (c_ok, rest) = check_each-nil check_connection path i c cs h in
    let further = decode_connections-check path (i + 1) cs rest in
    elim (Bool-cases (is_object c)) [
      | inl object ↦
          let (keys_ok, ends) = append-eq-nil _ _ (rw object at c_ok) in
          let (from_ok, to_ok) = append-eq-nil _ _ ends in
          >>=-Succeeds (lift (string_at (codes "from") c)) _
            (string_at-check (codes "from") c _ from_ok)
            (λ from.
              >>=-Succeeds (lift (string_at (codes "to") c)) _
                (string_at-check (codes "to") c _ to_ok)
                (λ to. >>=-Succeeds (decode_connections cs) _ further (λ all. (_, refl))))
      | inr other ↦ absurd (ground arith)
    ]

connections-check :
    (path : Text) (o : Option Node)
    → if_found o (λ j. check_connections j path) ≡ []
    → Succeeds (decode_connections (elements_of o))
unfolding check_connections elements_of decode_connections
connections-check path none h = ([], refl)
connections-check path (some j) h = elim (Bool-cases (is_array j)) [
  | inl array ↦ decode_connections-check path 0 (elements j) (ground arith)
  | inr other ↦ absurd (ground arith)
]

pub decode_ports-check :
    (j : Node) (path : Text) → check_ports j path ≡ [] → Succeeds (decode_ports j)
unfolding check_ports decode_ports
decode_ports-check j path h =
    let (expose_ok, connections_ok) = append-eq-nil _ _ h in
    let (inputs, outputs) = decode_exposed-check _ (find (codes "expose") j) expose_ok in
    >>=-Succeeds _ _ inputs (λ ins. >>=-Succeeds _ _ outputs (λ outs.
      >>=-Succeeds _ _ (connections-check _ (find (codes "connections") j) connections_ok)
        (λ cs. (_, refl))))

pub check_name-string :
    (j : Node) (path : Text) → check_name j path ≡ [] → (s : Text) × (j ≡ string_node s)
unfolding names
check_name-string j path h = elim (string-cases j) [
  | inl none_there ↦ absurd (ground arith)
  | inr there ↦ there
]

pub string_at-found :
    (key : Text) (j m : Node) (path : Text)
    → find key j ≡ some m
    → check_name m path ≡ []
    → Succeeds (lift (string_at key j))
unfolding string_at at
string_at-found key j m path there h =
    let (s, e) = check_name-string m path h in (s, rw (there, e) refl)

parsed-check :
    (thrown : DecodeError) (s path : Text)
    → check_declared (string_node s) path ≡ []
    → Succeeds (parsed thrown s)
unfolding check_declared has_version
parsed-check thrown s path h = go (parse_version s) h
  where
    go :
        (r : Result ParseError Version)
        → (if elim r [ err e ↦ false | ok v ↦ true ]
            then []
            else error path (codes "invalid version"))
          ≡ []
        → Succeeds
            (elim r as (λ x. Result DecodeError Version) [ err e ↦ err thrown | ok v ↦ ok v ])
    go (err e) bad = absurd (cc bad)
    go (ok v) good = (v, refl)

decode_version-check :
    (o : Option Node) (path : Text)
    → if_found o (λ v. check_declared v path) ≡ []
    → Succeeds (decode_version o)
unfolding check_declared has_version
decode_version-check none path h = (none, refl)
decode_version-check (some j) path h = elim (string-cases j) [
  | inl missing ↦ absurd (ground arith)
  | inr (s, e) ↦
      subst (λ k. Succeeds (decode_version (some k))) (sym e)
        (>>=-Succeeds _ _
          (parsed-check bad_version s path (subst (λ k. check_declared k path ≡ []) e h))
          (λ v. (_, refl)))
]

pub decode_module-check :
    (known : Known) (j m : Node) (path : Text)
    → find (codes "module") j ≡ some m
    → check_module known j m path ≡ []
    → Succeeds (decode_module j)
unfolding check_module decode_module
decode_module-check known j m path there h =
    let (keys_ok, h1) = append-eq-nil _ _ h in
    let (module_ok, h2) = append-eq-nil _ _ h1 in
    let (name_ok, h3) =
      append-eq-nil (if_found (find (codes "name") j) (λ n. check_name n (dot path (codes "name"))))
        _ h2 in
    let (version_ok, h4) =
      append-eq-nil
        (if_found (find (codes "version") j) (λ v. check_declared v (dot path (codes "version")))) _
        h3 in
    >>=-Succeeds _ _ (string_at-found (codes "module") j m _ there module_ok) (λ factory.
      >>=-Succeeds _ _
        (decode_version-check (find (codes "version") j) (dot path (codes "version")) version_ok)
        (λ v. (_, refl)))
