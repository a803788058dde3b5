-- ===== src/Config/Validate/Threads.antt =====
-- src/runtime/include/atp/runtime/config_validator.hpp against decode of config_model.hpp: the plugins,
-- the threads and the assignments.
use ani_tools_platform.Prelude.{
  ℕ, ◌+◌, ◌≡◌, refl, Bool, true, false, List, [], ◌∷◌, append-eq-nil, Option, none, some, Text,
  text_eq, codes, Result, ok, if◌then◌else◌, arith, Bool-cases, Option-cases, inl, inr, All,
  >>=-eq-ok,
}
use ani_tools_platform.Prelude.Int.{ℤ}
use ani_tools_platform.Config.Node.{Node, int_node, find, at, string_at, int_at, is_object}
use ani_tools_platform.Config.Read.{string_or}
use ani_tools_platform.Config.Model.Decode.{
  lift, decode_plugins, decode_thread, decode_threads, decode_texts,
}
use ani_tools_platform.Config.Validate.Values.{error, dot, indexed, check_name, names, has}
use ani_tools_platform.Config.Validate.Parts.{check_each}
use ani_tools_platform.Config.Validate.Document.{
  check_plugin, is_period, is_missing, check_period, check_named, check_thread, check_threads,
  check_assignments,
}
use ani_tools_platform.Config.Validate.Check.{
  Succeeds, >>=-Succeeds, string-cases, string_at-found, check_each-nil, as_string-Succeeds,
}

pub decode_plugins-check :
    (path : Text) (i : ℕ) (ps : List Node)
    → check_each check_plugin path i ps ≡ []
    → Succeeds (decode_plugins ps)
unfolding decode_plugins check_plugin
decode_plugins-check path i [] h = ([], refl)
decode_plugins-check path i (p ∷ ps) h =
    let (p_ok, rest) = check_each-nil check_plugin path i p ps h in
    let further = decode_plugins-check path (i + 1) ps rest in
    elim (string-cases p) [
      | inl missing ↦ absurd (ground arith)
      | inr there ↦
          >>=-Succeeds _ _ (as_string-Succeeds p there)
            (λ text. >>=-Succeeds _ _ further (λ texts. (_, refl)))
    ]

pub decode_texts-assigned :
    (pipeline : Node) (threads : List Text) (es : List (Text × Node))
    → check_assignments pipeline threads es ≡ []
    → Succeeds (decode_texts es)
unfolding decode_texts check_assignments
decode_texts-assigned pipeline threads [] h = ([], refl)
decode_texts-assigned pipeline threads ((group_path, thread) ∷ es) h = elim (string-cases thread) [
  | inl missing ↦ absurd (ground arith)
  | inr there ↦
      let (thread_ok, h1) = append-eq-nil _ _ h in
      let (path_ok, rest) = append-eq-nil _ (check_assignments pipeline threads es) h1 in
      let further = decode_texts-assigned pipeline threads es rest in
      >>=-Succeeds _ _ (as_string-Succeeds thread there)
        (λ text. >>=-Succeeds _ _ further (λ texts. (_, refl)))
]

-- A thread that says its name.
abbrev pub IsNamed : Node → Type 0
IsNamed t = is_missing (find (codes "name") t) ≡ false

is_period-int : (o : Option Node) → is_period o ≡ true → (n : ℤ) × (o ≡ some (int_node n))
is_period-int none h = absurd (cc h)
is_period-int (some (int_node n)) h = (n, refl)
is_period-int (some _) h = absurd (cc h)

int_at-check :
    (t : Node) (path mode : Text)
    → text_eq mode (codes "throttled") ≡ true
    → check_period mode path (find (codes "period_ms") t) ≡ []
    → Succeeds (lift (int_at (codes "period_ms") t))
unfolding check_period int_at at
int_at-check t path mode throttled h = elim (Bool-cases (is_period (find (codes "period_ms") t))) [
  | inl positive ↦
      let (n, there) = is_period-int (find (codes "period_ms") t) positive in (n, rw there refl)
  | inr other ↦ absurd (cc (rw (check_period, throttled, other) at h))
]

abbrev mode_of : Node → Text
mode_of t = string_or (find (codes "mode") t) (codes "on_demand")

check_named-period :
    (t : Node) (path name : Text) (taken : List Text)
    → (check_named t path name taken).0 ≡ []
    → check_period (mode_of t) path (find (codes "period_ms") t) ≡ []
unfolding check_named
check_named-period t path name taken h = elim (Bool-cases (has name taken)) [
  | inl twice ↦ absurd (cc (rw (check_named, twice) at h))
  | inr once ↦ (append-eq-nil _ _ (rw (check_named, once) at h)).1
]

check_thread-inversion :
    (t : Node) (path : Text) (taken : List Text)
    → IsNamed t
    → (check_thread t path taken).0 ≡ []
    → (n : Node) × (find (codes "name") t ≡ some n)
      × (check_name n (dot path (codes "name")) ≡ [])
      × (check_period (mode_of t) path (find (codes "period_ms") t) ≡ [])
unfolding check_thread
check_thread-inversion t path taken named h = elim (Option-cases (find (codes "name") t)) [
  | inl missing ↦ absurd (cc (rw missing at named))
  | inr (n, there) ↦ elim (Bool-cases (is_object t)) [
    | inl object ↦ elim (Bool-cases (names n)) [
      | inl good ↦
          let (keys_ok, pacing) = append-eq-nil _ _ (rw (check_thread, object, there, good) at h) in
          (n, there, rw good refl, check_named-period t path (string_or (some n) []) taken pacing)
      | inr bad ↦
          let (keys_ok, name_ok) =
            append-eq-nil _
              (error (dot path (codes "name")) (codes "must be a non-empty string without '.'"))
              (rw (check_thread, object, there, bad) at h) in
          absurd (cc name_ok)
    ]
    | inr other ↦ absurd (cc (rw (check_thread, other) at h))
  ]
]

if-Succeeds {ℓ} :
    {E : Type 0} {A : Type ℓ} (b : Bool) {first second : Result E A}
    → Succeeds first
    → Succeeds second
    → Succeeds (if b then first else second)
if-Succeeds true f s = f
if-Succeeds false f s = s

decode_thread-check :
    (t : Node) (path : Text) (taken : List Text)
    → IsNamed t
    → (check_thread t path taken).0 ≡ []
    → Succeeds (decode_thread t)
unfolding decode_thread
decode_thread-check t path taken named h =
    let (n, there, name_ok, period_ok) = check_thread-inversion t path taken named h in
    >>=-Succeeds _ _ (string_at-found (codes "name") t n _ there name_ok) (λ name.
      elim (Bool-cases (text_eq (mode_of t) (codes "throttled"))) [
        | inl throttled ↦ rw throttled (
            >>=-Succeeds _ _ (int_at-check t path (mode_of t) throttled period_ok) (λ p. (_, refl)))
        | inr other ↦
            rw other (if-Succeeds (text_eq (mode_of t) (codes "spinning")) (_, refl) (_, refl))
      ])

pub decode_threads-check :
    (i : ℕ) (ts : List Node) (taken : List Text)
    → All IsNamed ts
    → (check_threads i ts taken).0 ≡ []
    → Succeeds (decode_threads ts)
unfolding decode_threads check_threads
decode_threads-check i [] taken named h = ([], refl)
decode_threads-check i (t ∷ ts) taken named h =
    let (t_ok, rest) = append-eq-nil _ _ h in
    let further =
      decode_threads-check (i + 1) ts (check_thread t (indexed (codes "threads") i) taken).1 named.1
        rest in
    >>=-Succeeds _ _ (decode_thread-check t (indexed (codes "threads") i) taken named.0 t_ok)
      (λ thread. >>=-Succeeds _ _ further (λ threads. (_, refl)))

string_at-found_key :
    (key : Text) (t : Node) (s : Text)
    → lift (string_at key t) ≡ ok s
    → is_missing (find key t) ≡ false
unfolding string_at at
string_at-found_key key t s h = elim (Option-cases (find key t)) [
  | inl missing ↦ absurd (cc (rw missing at h))
  | inr (n, there) ↦ rw there refl
]

-- What decoding the threads needs is all that it needs.
pub decode_threads-named : (ts : List Node) → Succeeds (decode_threads ts) → All IsNamed ts
unfolding decode_threads decode_thread
decode_threads-named [] h = tt
decode_threads-named (t ∷ ts) (threads, h) =
    let (thread, first, rest) = >>=-eq-ok (decode_thread t) _ h in
    let (name, read, paced) = >>=-eq-ok (lift (string_at (codes "name") t)) _ first in
    let (others, after, done) = >>=-eq-ok (decode_threads ts) _ rest in
    (string_at-found_key (codes "name") t name read, decode_threads-named ts (others, after))
