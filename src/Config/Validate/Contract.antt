-- ===== src/Config/Validate/Contract.antt =====
-- src/runtime/include/atp/runtime/config_validator.hpp against decode of config_model.hpp: whole
-- documents.
use ani_tools_platform.Prelude.{
  ℕ, ◌+◌, ◌≡◌, refl, sym, ◌∙◌, List, [], append-eq-nil, Option, none, some, Text, text_eq, codes,
  Result, ok, err, ◌>>=◌, arith, Bool-cases, Option-cases, inl, inr, subst, All, ◌↔◌, >>=-eq-ok,
}
use ani_tools_platform.Version.{Version, ParseError, parse_version}
use ani_tools_platform.Config.Node.{
  Node, Items, Fields, object_node, array_node, no_items, item, no_fields, field, find, at, entries,
  elements, is_object, is_array, string_at,
}
use ani_tools_platform.Config.Model.{ChildNodes, Config}
use ani_tools_platform.Config.Model.Decode.{
  DecodeError, bad_schema_version, lift, parsed, entries_of, elements_of, with_ports, decode_either,
  decode_child, decode_modules, decode_elements, decode_items, decode_group, decode_plugins,
  decode_threads, decode_texts, decode,
}
use ani_tools_platform.Config.Model.Decode.Groups.{decode_either-module}
use ani_tools_platform.Config.Validate.{
  check_either, check_child, check_modules, check_elements, check_items, check_group_body,
  check_thread_list, check_assign, check_plugins, check_pipeline, validate,
}
use ani_tools_platform.Config.Validate.Values.{Errors, dot, check_name}
use ani_tools_platform.Config.Validate.Shared.{Known, check_configs, check_parsed, check_version}
use ani_tools_platform.Config.Validate.Parts.{check_ports, check_module}
use ani_tools_platform.Config.Validate.Threads.{
  IsNamed, decode_plugins-check, decode_texts-assigned, decode_threads-check, decode_threads-named,
}
use ani_tools_platform.Config.Validate.Check.{
  Succeeds, >>=-Succeeds, string-cases, string_at-found, decode_ports-check, decode_module-check,
}

with_ports-Succeeds :
    (name : Text) (j : Node) (path : Text) {children : Result DecodeError ChildNodes}
    → Succeeds children
    → check_ports j path ≡ []
    → Succeeds (with_ports name j children)
unfolding with_ports
with_ports-Succeeds name j path there h =
    >>=-Succeeds _ _ there (λ cs. >>=-Succeeds _ _ (decode_ports-check j path h) (λ p. (_, refl)))

-- What a found key and a missing one make of the checks of a child.
module _ (known : Known) (j : Node) (path : Text) (taken : List Text) (body : Errors) where
  check_either-module :
      (m : Node)
      → find (codes "module") j ≡ some m
      → (check_either known j path taken body).0 ≡ []
      → check_module known j m path ≡ []
  unfolding check_either
  check_either-module m there h = elim (Option-cases (find (codes "group") j)) [
    | inl no_group ↦ (append-eq-nil _ _ (rw (check_either, there, no_group) at h)).0
    | inr (g, group_there) ↦ absurd (cc (rw (check_either, there, group_there) at h))
  ]

  check_either-group :
      find (codes "module") j ≡ none
      → (check_either known j path taken body).0 ≡ []
      → (g : Node) × (find (codes "group") j ≡ some g)
        × (check_name g (dot path (codes "group")) ≡ [])
        × (body ≡ [])
        × (check_ports j path ≡ [])
  unfolding check_either
  check_either-group missing h = elim (Option-cases (find (codes "group") j)) [
    | inl no_group ↦ absurd (cc (rw (check_either, missing, no_group) at h))
    | inr (g, there) ↦
        let (keys_ok, h1) = append-eq-nil _ _ (rw (check_either, missing, there) at h) in
        let (name_ok, h2) = append-eq-nil _ _ h1 in
        let (body_ok, h3) = append-eq-nil body _ h2 in
        (g, there, name_ok, body_ok, (append-eq-nil (check_ports j path) _ h3).0)
  ]

  decode_either-check :
      {children : Result DecodeError ChildNodes}
      → (check_either known j path taken body).0 ≡ []
      → (body ≡ [] → Succeeds children)
      → Succeeds (decode_either j children)
  unfolding decode_either
  decode_either-check h inside = elim (Option-cases (find (codes "module") j)) [
    | inl missing ↦
        let (g, there, name_ok, body_ok, ports_ok) = check_either-group missing h in
        rw missing (
          >>=-Succeeds _ _ (string_at-found (codes "group") j g _ there name_ok) (λ name.
            >>=-Succeeds _ _ (with_ports-Succeeds name j path (inside body_ok) ports_ok)
              (λ g. (_, refl))))
    | inr (m, there) ↦ subst Succeeds (sym (decode_either-module j m _ there)) (
        >>=-Succeeds _ _ (decode_module-check known j m path there (check_either-module m there h))
          (λ k. (_, refl)))
  ]

module _ (known : Known) where
  mutual
    unfolding check_child decode_child

    decode_child-check :
        (j : Node) (path : Text) (taken : List Text)
        → (check_child known j path taken).0 ≡ []
        → Succeeds (decode_child j)
    decode_child-check (object_node fs) path taken h =
        decode_either-check known (object_node fs) path taken (check_modules known fs path) h
          (decode_modules-check fs path)
    decode_child-check _ path taken h = absurd (cc h)

    decode_modules-check :
        (fs : Fields) (path : Text)
        → check_modules known fs path ≡ []
        → Succeeds (decode_modules fs)
    decode_modules-check no_fields path h = (_, refl)
    decode_modules-check (field k v fs) path h = elim (Bool-cases (text_eq k (codes "modules"))) [
      | inl here ↦ rw here (decode_elements-check v _ (rw (check_child, here) at h))
      | inr elsewhere ↦
          rw elsewhere (decode_modules-check fs path (rw (check_child, elsewhere) at h))
    ]

    decode_elements-check :
        (j : Node) (path : Text) → check_elements known j path ≡ [] → Succeeds (decode_elements j)
    decode_elements-check (array_node js) path h = decode_items-check js path 0 [] h
    decode_elements-check _ path h = (_, refl)

    decode_items-check :
        (js : Items) (path : Text) (i : ℕ) (taken : List Text)
        → check_items known js path i taken ≡ []
        → Succeeds (decode_items js)
    decode_items-check no_items path i taken h = (_, refl)
    decode_items-check (item j js) path i taken h =
        let (here, rest) = append-eq-nil _ _ h in
        let further = decode_items-check js path (i + 1) _ rest in
        >>=-Succeeds _ _ (decode_child-check j _ taken here)
          (λ c. >>=-Succeeds _ _ further (λ cs. (_, refl)))

text-check :
    (thrown : DecodeError) (s : Text) (r : Result ParseError Version)
    → check_parsed s r ≡ []
    → Succeeds (elim r as (λ x. Result DecodeError Version) [ err e ↦ err thrown | ok v ↦ ok v ])
unfolding check_parsed
text-check thrown s (err e) h = absurd (cc h)
text-check thrown s (ok v) h = (v, refl)

version-check :
    (doc : Node)
    → check_version (find (codes "version") doc) ≡ []
    → Succeeds (lift (string_at (codes "version") doc) >>= parsed bad_schema_version)
unfolding check_version string_at at
version-check doc h = elim (Option-cases (find (codes "version") doc)) [
  | inl missing ↦ absurd (cc (rw (check_version, missing) at h))
  | inr (j, there) ↦ elim (string-cases j) [
    | inl other ↦ absurd (cc (rw (check_version, there, other) at h))
    | inr (s, e) ↦
        rw (there, e)
          (text-check bad_schema_version s (parse_version s) (rw (check_version, there, e) at h))
  ]
]

plugins-check : (o : Option Node) → check_plugins o ≡ [] → Succeeds (decode_plugins (elements_of o))
unfolding check_plugins elements_of decode_plugins
plugins-check none h = ([], refl)
plugins-check (some j) h = elim (Bool-cases (is_array j)) [
  | inl array ↦ decode_plugins-check (codes "plugins") 0 (elements j) (ground arith)
  | inr other ↦ absurd (ground arith)
]

threads-check :
    (o : Option Node)
    → (check_thread_list o).0 ≡ []
    → All IsNamed (elements_of o)
    → Succeeds (decode_threads (elements_of o))
unfolding check_thread_list elements_of decode_threads
threads-check none h named = ([], refl)
threads-check (some j) h named = elim (Bool-cases (is_array j)) [
  | inl array ↦ decode_threads-check 0 (elements j) [] named (rw array at h)
  | inr other ↦ absurd (cc (rw other at h))
]

assign-check :
    (pipeline : Node) (threads : List Text) (o : Option Node)
    → check_assign pipeline threads o ≡ []
    → Succeeds (decode_texts (entries_of o))
unfolding check_assign entries_of decode_texts
assign-check pipeline threads none h = ([], refl)
assign-check pipeline threads (some j) h = elim (Bool-cases (is_object j)) [
  | inl object ↦ decode_texts-assigned pipeline threads (entries j) (ground arith)
  | inr other ↦ absurd (ground arith)
]

pub decode_group-check :
    (known : Known) (name : Text) (j : Node) (path : Text)
    → check_group_body known j path ≡ []
    → Succeeds (decode_group name j)
unfolding check_group_body decode_group
decode_group-check known name (object_node fs) path h =
    let (children_ok, ports_ok) = append-eq-nil _ _ h in
    with_ports-Succeeds name (object_node fs) path (decode_modules-check known fs path children_ok)
      ports_ok
decode_group-check known name _ path h = (_, refl)

pipeline-check :
    (known : Known) (doc : Node)
    → check_pipeline known doc (find (codes "pipeline") doc) ≡ []
    → All IsNamed (elements_of (find (codes "threads") doc))
    → Succeeds (lift (at (codes "pipeline") doc) >>= decode_group (codes "root"))
      × Succeeds (decode_threads (elements_of (find (codes "threads") doc)))
      × Succeeds (decode_texts (entries_of (find (codes "assign") doc)))
unfolding check_pipeline at
pipeline-check known doc h named = elim (Option-cases (find (codes "pipeline") doc)) [
  | inl missing ↦ absurd (cc (rw (check_pipeline, missing) at h))
  | inr (p, there) ↦ elim (Bool-cases (is_object p)) [
    | inl object ↦
        let (keys_ok, h1) = append-eq-nil _ _ (rw (check_pipeline, there, object) at h) in
        let (body_ok, h2) = append-eq-nil _ _ h1 in
        let (threads_ok, assign_ok) = append-eq-nil _ _ h2 in
        (
          rw there (decode_group-check known (codes "root") p (codes "pipeline") body_ok),
          threads-check (find (codes "threads") doc) threads_ok named,
          assign-check p _ (find (codes "assign") doc) assign_ok,
        )
    | inr other ↦ absurd (cc (rw (check_pipeline, there, other) at h))
  ]
]

-- The parts of `decode`, in its order.
unfoldable behind_schema : Node → Version → Result DecodeError Config
unfolding decode
behind_schema doc schema = do
  plugins ← decode_plugins (elements_of (find (codes "plugins") doc))
  pipeline ← lift (at (codes "pipeline") doc) >>= decode_group (codes "root")
  threads ← decode_threads (elements_of (find (codes "threads") doc))
  assignments ← decode_texts (entries_of (find (codes "assign") doc))
  ok (record {
    schema = schema;
    plugins = plugins;
    pipeline = pipeline;
    threads = threads;
    assignments = assignments;
    configs = entries_of (find (codes "configs") doc);
  })

decode-schema :
    (doc : Node)
    → Succeeds (lift (string_at (codes "version") doc) >>= parsed bad_schema_version)
    → (schema : Version) × (decode doc ≡ behind_schema doc schema)
unfolding decode behind_schema
decode-schema doc (schema, e) =
    let (text, read, scanned) = >>=-eq-ok (lift (string_at (codes "version") doc)) _ e in
    (schema, rw (read, scanned) refl)

-- A document that the validator finds nothing wrong with is decoded without an exception exactly if
-- each of its threads says its name: the validator lets a thread without "name" pass, and decode throws.
pub decode-validated :
    (doc : Node)
    → validate doc ≡ []
    → Succeeds (decode doc) ↔ All IsNamed (elements_of (find (codes "threads") doc))
unfolding validate behind_schema
decode-validated doc h = elim (Bool-cases (is_object doc)) [
  | inr other ↦ absurd (cc (rw (validate, other) at h))
  | inl object ↦
      let (version_ok, h1) = append-eq-nil _ _ (rw (validate, object) at h) in
      let (keys_ok, h2) = append-eq-nil _ _ h1 in
      let (configs_ok, h3) = append-eq-nil (check_configs doc).0 _ h2 in
      let (plugins_ok, pipeline_ok) =
        append-eq-nil (check_plugins (find (codes "plugins") doc)) _ h3 in
      let (schema, decoded) = decode-schema doc (version-check doc version_ok) in
      let plugins = plugins-check (find (codes "plugins") doc) plugins_ok in
      (
        λ (cfg, e).
            let (ps, read_plugins, e1) =
              >>=-eq-ok (decode_plugins (elements_of (find (codes "plugins") doc))) _
                (sym decoded ∙ e) in
            let (g, read_group, e2) =
              >>=-eq-ok (lift (at (codes "pipeline") doc) >>= decode_group (codes "root")) _ e1 in
            let (ts, read_threads, e3) =
              >>=-eq-ok (decode_threads (elements_of (find (codes "threads") doc))) _ e2 in
            decode_threads-named (elements_of (find (codes "threads") doc)) (ts, read_threads),
        λ named.
            let (group, threads, assigned) =
              pipeline-check (check_configs doc).1 doc pipeline_ok named in
            subst Succeeds (sym decoded) (
              >>=-Succeeds _ _ plugins (λ ps. >>=-Succeeds _ _ group (λ g.
                >>=-Succeeds _ _ threads (λ ts. >>=-Succeeds _ _ assigned (λ pairs. (_, refl)))))),
      )
]
