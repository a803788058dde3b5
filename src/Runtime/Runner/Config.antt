-- ===== src/Runtime/Runner/Config.antt =====
-- src/runtime/include/atp/runtime/pipeline_runner.hpp: what the declarations of threads and layouts
-- can build.
use ani_tools_platform.Prelude.{
  ℕ, suc, ◌+◌, ◌≤◌, ◌<◌, ◌≡◌, refl, inl, inr, Bool, true, false, List, [], ◌∷◌, ◌++◌, none, some,
  arith, if◌then◌else◌, Text, text_eq, text_eq_iff, All, All-append, length, length-append, Result,
  ok, err, ◌==◌, Bool-cases,
}
use ani_tools_platform.Prelude.Int.{is_zero, is_positive}
use ani_tools_platform.Prelude.Assoc.{put, nat_eq}
use ani_tools_platform.Runtime.Runner.{
  ThreadOptions, ThreadConfig, Runner, RunnerError, index_from, is_throttled, add_thread, assign,
}

-- A thread has a positive period exactly if it is throttled, and zero otherwise.
abbrev pub IsPaced : ThreadConfig → Type 0
IsPaced t =
    (if is_throttled t.options.mode then is_positive t.options.period else is_zero t.options.period)
    ≡ true

named : Text → List ThreadConfig → Bool
named name [] = false
named name (t ∷ rest) = if text_eq t.name name then true else named name rest

abbrev pub DistinctNames : List ThreadConfig → Type 0
DistinctNames [] = Unit {0}
DistinctNames (t ∷ rest) = All (λ u. text_eq u.name t.name ≡ false) rest × DistinctNames rest

pub record IsConfigured (r : Runner) : Type 0 where
  pub paced : All IsPaced r.threads
  pub distinct : DistinctNames r.threads
  pub declared : All (λ entry. entry.1 < length r.threads) r.assigned

index_from-none :
    (i : ℕ) (name : Text) (ts : List ThreadConfig)
    → index_from i name ts ≡ none
    → All (λ t. text_eq t.name name ≡ false) ts
unfolding index_from
index_from-none i name [] h = tt
index_from-none i name (t ∷ rest) h = ground (arith, index_from-none (suc i) name rest)

index_from-lt :
    (i : ℕ) (name : Text) (ts : List ThreadConfig) (k : ℕ)
    → index_from i name ts ≡ some k
    → k < i + length ts
unfolding index_from
index_from-lt i name [] k h = cc
index_from-lt i name (t ∷ rest) k h = ground (arith, index_from-lt (suc i) name rest k)

DistinctNames-append :
    (ts : List ThreadConfig) (t : ThreadConfig)
    → All (λ u. text_eq u.name t.name ≡ false) ts
    → DistinctNames ts
    → DistinctNames (ts ++ t ∷ [])
DistinctNames-append [] t h d = (tt, tt)
DistinctNames-append (u ∷ ts) t h d = (
  All-append _ ts (t ∷ []) d.0 (text_eq_comm u.name t.name h.0, tt),
  DistinctNames-append ts t h.1 d.1,
)
  where
    text_eq_comm : (a b : Text) → text_eq a b ≡ false → text_eq b a ≡ false
    text_eq_comm a b e = ground (arith, text_eq_iff a b, text_eq_iff b a)

All-put :
    (P : ℕ → Type 0) (g i : ℕ) (m : List (ℕ × ℕ))
    → P i
    → All (λ entry. P entry.1) m
    → All (λ entry. P entry.1) (put g i m)
unfolding put
All-put P g i [] h all = (h, tt)
All-put P g i ((j, w) ∷ m) h all = elim (Bool-cases (j == g)) [
  | inl e ↦ rw e (h, all.1)
  | inr e ↦ rw e (all.0, All-put P g i m h all.1)
]

add_thread-inversion :
    (name : Text) (o : ThreadOptions) (r : Runner) {r' : Runner}
    → add_thread name o r ≡ ok r'
    → IsPaced (record { name = name; options = o })
      × (index_from 0 name r.threads ≡ none)
      × (r' ≡ record r { threads = r.threads ++ record { name = name; options = o } ∷ [] })
unfolding add_thread
add_thread-inversion name o r e = ground arith

All-weaken :
    (n m : ℕ) (l : List (ℕ × ℕ))
    → n ≤ m
    → All (λ entry. entry.1 < n) l
    → All (λ entry. entry.1 < m) l
All-weaken n m [] h all = tt
All-weaken n m (e ∷ l) h all = (omega arith, All-weaken n m l h all.1)

add_thread-IsConfigured :
    (name : Text) (o : ThreadOptions) (r r' : Runner)
    → IsConfigured r
    → add_thread name o r ≡ ok r'
    → IsConfigured r'
add_thread-IsConfigured name o r r' c e =
    let (paced, fresh, same) = add_thread-inversion name o r e in
    rw same (record {
      paced = All-append _ r.threads (_ ∷ []) c.paced (paced, tt);
      distinct =
          DistinctNames-append r.threads _ (index_from-none 0 name r.threads fresh) c.distinct;
      declared =
          All-weaken _ _ r.assigned
            (omega (arith, length-append r.threads (record { name = name; options = o } ∷ [])))
            c.declared;
    })

assign-inversion :
    (g : ℕ) (name : Text) (r : Runner) {r' : Runner}
    → assign g name r ≡ ok r'
    → (i : ℕ) × (index_from 0 name r.threads ≡ some i)
      × (r' ≡ record r { assigned = put g i r.assigned })
unfolding assign
assign-inversion g name r e = ground arith

assign-IsConfigured :
    (g : ℕ) (name : Text) (r r' : Runner)
    → IsConfigured r
    → assign g name r ≡ ok r'
    → IsConfigured r'
assign-IsConfigured g name r r' c e =
    let (i, found, same) = assign-inversion g name r e in
    rw same (record {
      paced = c.paced;
      distinct = c.distinct;
      declared =
          All-put (λ k. k < length r.threads) g i r.assigned
            (omega (arith, index_from-lt 0 name r.threads i found)) c.declared;
    })

-- The calls that set a runner up. One that throws leaves it as it was.
pub data Setup : Type 0 where
  declares : Text → ThreadOptions → Setup
  assigns : ℕ → Text → Setup

abbrev pub kept : Runner → Result RunnerError Runner → Runner
kept r (ok r') = r'
kept r (err e) = r

pub set_up : List Setup → Runner → Runner
set_up [] r = r
set_up (declares name o ∷ rest) r = set_up rest (kept r (add_thread name o r))
set_up (assigns g name ∷ rest) r = set_up rest (kept r (assign g name r))

kept-IsConfigured :
    (r : Runner) (x : Result RunnerError Runner)
    → IsConfigured r
    → ((r' : Runner) → x ≡ ok r' → IsConfigured r')
    → IsConfigured (kept r x)
kept-IsConfigured r (ok r') c h = h r' refl
kept-IsConfigured r (err e) c h = c

-- Whatever is declared and assigned, and whichever calls are refused, the thread names stay
-- distinct, every thread has the period that its mode asks for, and every group that is assigned is
-- assigned to a declared thread.
pub set_up-IsConfigured :
    (calls : List Setup) (r : Runner) → IsConfigured r → IsConfigured (set_up calls r)
unfolding set_up
set_up-IsConfigured [] r c = c
set_up-IsConfigured (declares name o ∷ rest) r c =
    set_up-IsConfigured rest _
      (kept-IsConfigured r _ c (λ r' e. add_thread-IsConfigured name o r r' c e))
set_up-IsConfigured (assigns g name ∷ rest) r c =
    set_up-IsConfigured rest _
      (kept-IsConfigured r _ c (λ r' e. assign-IsConfigured g name r r' c e))
