-- ===== src/Studio/Project/History.antt =====
-- src/studio/include/atp/studio/project.hpp: `undo` and `redo` after the editing operations.
use ani_tools_platform.Prelude.{
  ℕ, zero, suc, ◌≤◌, ◌<◌, ◌≡◌, ◌⊎◌, inl, inr, refl, sym, ap, ◌∙◌, true, List, [], ◌∷◌, length,
  Result, ok, ◌>>=◌, arith, subst,
}
use ani_tools_platform.Config.Node.{Node}
use ani_tools_platform.Config.Model.{Config}
use ani_tools_platform.Config.Model.Encode.{encode}
use ani_tools_platform.Config.Model.Decode.{DecodeError}
use ani_tools_platform.Config.Model.Decode.RoundTrip.{
  IsConfig, rooted, decode-encode, encode-rooted,
}
use ani_tools_platform.Studio.Project.{Project, snapshot, undo, redo, open_scope, close_scope}
use ani_tools_platform.Studio.Project.Actions.{Action, perform}
use ani_tools_platform.Studio.Project.Recorded.{IsRecorded, Records, itself}
use ani_tools_platform.Studio.Project.Recorded.Scope.{perform-Records}

-- The project that an undo makes when the snapshot in front is of `c`.
abbrev pub back_to : Config → List Node → Project → Project
back_to c rest q = record q { cfg = rooted c; undos = rest; redos = encode q.cfg ∷ q.redos }

undo-front :
    (q : Project) (c : Config) (rest : List Node)
    → IsConfig c
    → q.undos ≡ encode c ∷ rest
    → undo q ≡ (back_to c rest q, ok true)
unfolding undo
undo-front q c rest valid front = rw (front, undo, decode-encode c valid) refl

redo-front :
    (q : Project) (c : Config) (rest : List Node)
    → IsConfig c
    → q.redos ≡ encode c ∷ rest
    → redo q ≡ (record q { cfg = rooted c; undos = encode q.cfg ∷ q.undos; redos = rest }, ok true)
unfolding redo
redo-front q c rest valid front = rw (front, redo, decode-encode c valid) refl

snapshot-outside :
    (p : Project)
    → p.batch_depth ≡ 0
    → snapshot p ≡ record p { undos = encode p.cfg ∷ p.undos; redos = [] }
unfolding snapshot
snapshot-outside p outside = rw outside refl

pub performed : (p q : Project) (a : Action) → perform p a ≡ ok q → (q ≡ p) ⊎ IsRecorded p q
unfolding Records
performed p q a h = subst (Records itself p) h (perform-Records p a)

module _ (p q : Project) (outside : p.batch_depth ≡ 0) (recorded : IsRecorded p q) where
  recorded_undos : q.undos ≡ encode p.cfg ∷ p.undos
  recorded_undos = recorded.undos ∙ ap (λ r. r.undos) (snapshot-outside p outside)

  recorded_redos : q.redos ≡ []
  recorded_redos = recorded.redos ∙ ap (λ r. r.redos) (snapshot-outside p outside)

  -- The project after the edit is undone.
  abbrev pub undone : Project
  undone = record q { cfg = rooted p.cfg; undos = p.undos; redos = encode q.cfg ∷ [] }

  pub undo-IsRecorded : IsConfig p.cfg → undo q ≡ (undone, ok true)
  undo-IsRecorded valid =
      undo-front q p.cfg p.undos valid recorded_undos
      ∙ ap (λ l. (record undone { redos = encode q.cfg ∷ l }, ok true)) recorded_redos

  pub redo-IsRecorded : IsConfig q.cfg → redo undone ≡ (record q { cfg = rooted q.cfg }, ok true)
  redo-IsRecorded valid =
      redo-front undone q.cfg [] valid refl
      ∙ ap (λ u. (record undone { cfg = rooted q.cfg; undos = u; redos = [] }, ok true))
          (ap (λ n. n ∷ p.undos) (encode-rooted p.cfg) ∙ sym recorded_undos)
      ∙ ap (λ l. (record q { cfg = rooted q.cfg; redos = l }, ok true)) (sym recorded_redos)

-- A run of edits, each of a project whose configuration a document can hold.
abbrev pub Runs : Project → List Action → Project → Type 0
Runs p [] q = p ≡ q
Runs p (a ∷ rest) q = IsConfig p.cfg × ((r : Project) × (perform p a ≡ ok r) × Runs r rest q)

unfoldable pub undo_times : ℕ → Project → Result DecodeError Project
unfolding undo
undo_times zero p = ok p
undo_times (suc k) p = undo_times k p >>= λ r. (undo r).1 >>= λ changed. ok (undo r).0

-- Whether some number of undos, at most `most`, leads from `q` to what `p` was.
abbrev pub UndoneTo : Project → ℕ → Project → Type 0
UndoneTo p most q =
    (k : ℕ) × (k ≤ most)
    × ((s : Project) × (undo_times k q ≡ ok s)
        × (encode s.cfg ≡ encode p.cfg)
        × (s.undos ≡ p.undos))

undone_once :
    (p r q : Project) (most : ℕ)
    → IsConfig p.cfg
    → r.undos ≡ encode p.cfg ∷ p.undos
    → UndoneTo r most q
    → UndoneTo p (suc most) q
unfolding undo_times
undone_once p r q most valid front (k, bound, (s, run, same, kept)) = (
  suc k,
  omega arith,
  (
    back_to p.cfg p.undos s,
    rw (run, undo-front s p.cfg p.undos valid (kept ∙ front)) refl,
    encode-rooted p.cfg,
    refl,
  ),
)

undone_later : (p q : Project) (most : ℕ) → UndoneTo p most q → UndoneTo p (suc most) q
undone_later p q most (k, bound, (s, run, same, kept)) = (k, omega arith, (s, run, same, kept))

pub undo_times-perform :
    (p q : Project) (actions : List Action)
    → p.batch_depth ≡ 0
    → Runs p actions q
    → UndoneTo p (length actions) q
unfolding undo_times
undo_times-perform p q [] outside same =
    (0, omega arith, (q, refl, ap (λ r. encode r.cfg) (sym same), ap (λ r. r.undos) (sym same)))
undo_times-perform p q (a ∷ rest) outside (valid, (r, done, run)) = elim (performed p r a done) [
  | inl same ↦
      undone_later p q (length rest)
        (undo_times-perform p q rest outside (subst (λ x. Runs x rest q) same run))
  | inr recorded ↦
      undone_once p r q (length rest) valid (recorded_undos p r outside recorded)
        (undo_times-perform r q rest (recorded.depth ∙ outside) run)
]

-- A run of edits, as the body of an `edit_scope`.
abbrev pub Performs : Project → List Action → Project → Type 0
Performs p [] q = p ≡ q
Performs p (a ∷ rest) q = (r : Project) × (perform p a ≡ ok r) × Performs r rest q

snapshot-inside : (p : Project) → 0 < p.batch_depth → snapshot p ≡ p
unfolding snapshot
snapshot-inside p inside = ground arith

performed-inside :
    (p q : Project) (a : Action)
    → 0 < p.batch_depth
    → perform p a ≡ ok q
    → (q.undos ≡ p.undos) × (q.redos ≡ p.redos) × (q.batch_depth ≡ p.batch_depth)
performed-inside p q a inside h = elim (performed p q a h) [
  | inl same ↦ (ap (λ r. r.undos) same, ap (λ r. r.redos) same, ap (λ r. r.batch_depth) same)
  | inr recorded ↦ (
    recorded.undos ∙ ap (λ r. r.undos) (snapshot-inside p inside),
    recorded.redos ∙ ap (λ r. r.redos) (snapshot-inside p inside),
    recorded.depth,
  )
]

Performs-inside :
    (p q : Project) (actions : List Action)
    → 0 < p.batch_depth
    → Performs p actions q
    → (q.undos ≡ p.undos) × (q.redos ≡ p.redos) × (q.batch_depth ≡ p.batch_depth)
Performs-inside p q [] inside same =
    (ap (λ r. r.undos) (sym same), ap (λ r. r.redos) (sym same), ap (λ r. r.batch_depth) (sym same))
Performs-inside p q (a ∷ rest) inside (r, done, run) =
    let (undos, redos, depth) = performed-inside p r a inside done in
    let (later_undos, later_redos, later_depth) = Performs-inside r q rest (omega arith) run in
    (later_undos ∙ undos, later_redos ∙ redos, later_depth ∙ depth)

-- Whatever is edited inside an `edit_scope` of a project that a document can hold, a single `undo` after
-- the scope has ended answers true and gives the configuration and the undo list from before it, and all
-- of the scope is left to be redone at once. The outermost group is called "root" again.
pub undo-edit_scope :
    (p q : Project) (actions : List Action)
    → p.batch_depth ≡ 0
    → IsConfig p.cfg
    → Performs (open_scope p) actions q
    → undo (close_scope q) ≡ (
      record (close_scope q) { cfg = rooted p.cfg; undos = p.undos; redos = encode q.cfg ∷ [] },
      ok true,
    )
unfolding open_scope
undo-edit_scope p q actions outside valid run =
    let (undos, redos, depth) = Performs-inside (open_scope p) q actions (omega arith) run in
    undo-front (close_scope q) p.cfg p.undos valid
      (undos ∙ ap (λ r. r.undos) (snapshot-outside p outside))
    ∙ ap
        (λ l. (
          record (close_scope q) { cfg = rooted p.cfg; undos = p.undos; redos = encode q.cfg ∷ l },
          ok true,
        ))
        (redos ∙ ap (λ r. r.redos) (snapshot-outside p outside))
