-- ===== src/Runtime/CommandQueue/Fates.antt =====
-- Where a call of src/runtime/include/atp/runtime/command_queue.hpp may be between two steps.
use ani_tools_platform.Prelude.{
  ℕ, ◌+◌, ◌≡◌, inl, inr, refl, sym, ◌==◌, ==_iff, Bool, true, false, List, [], ◌∷◌, ◌++◌, Option,
  none, some, Result, ok, err, arith, Bool-cases, subst,
}
use ani_tools_platform.Io.Output.{member}
use ani_tools_platform.Io.Output.Connect.{Distinct, member-append, Distinct-append}
use ani_tools_platform.Runtime.Cascade.Balance.{count, hit, count-append}
use ani_tools_platform.Runtime.CommandQueue.{
  fresh_entry, Reply, value, thrown, refused, abandoned, Stage, outside, waiting, returned, Queue,
  set_stage, enter, take_front, worked, mark, give_up, close, leave, Event, enters, leaves, takes,
  finishes, closes, finish, step,
}

-- What the caller gets of a function that was run.
abbrev pub outcome : Result ℕ ℕ → Reply
outcome (ok v) = value v
outcome (err x) = thrown x

module _ (work : ℕ → Result ℕ ℕ) (c : ℕ) where
  -- Where call `c` may be: its stage, how often its function was run, whether it is pending, and
  -- whether it is the one that the owner runs.
  pub data Fate : Stage → ℕ → Bool → Bool → Type 0 where
    not_made : Fate outside 0 false false
    queued : Fate (waiting fresh_entry) 0 true false
    taken : Fate (waiting fresh_entry) 0 false true
    done : Fate (waiting (worked (work c) fresh_entry)) 1 false false
    dropped : Fate (waiting (record fresh_entry { done = true })) 0 false false
    answered : Fate (returned (outcome (work c))) 1 false false
    turned_away : Fate (returned refused) 0 false false
    let_down : Fate (returned abandoned) 0 false false

abbrev pub is_running : ℕ → Option ℕ → Bool
is_running c none = false
is_running c (some x) = x == c

-- The state of the queue, seen from call `c`.
abbrev pub FateIn : (ℕ → Result ℕ ℕ) → ℕ → Queue → Type 0
FateIn work c q =
    Fate work c (q.calls c) (count c q.executed) (member c q.pending) (is_running c q.running)

abbrev pub IsSettled : (ℕ → Result ℕ ℕ) → Queue → Type 0
IsSettled work q = Distinct q.pending × ((c : ℕ) → FateIn work c q)

left : (o : Result ℕ ℕ) → leave (waiting (worked o fresh_entry)) ≡ returned (outcome o)
left (ok v) = refl
left (err x) = refl

module _ (work : ℕ → Result ℕ ℕ) (c : ℕ) where
  leave-Fate : {x : Stage} {k : ℕ} {p r : Bool} → Fate work c x k p r → Fate work c (leave x) k p r
  leave-Fate not_made = not_made
  leave-Fate queued = queued
  leave-Fate taken = taken
  leave-Fate done = rw (left (work c)) answered
  leave-Fate dropped = let_down
  leave-Fate answered = answered
  leave-Fate turned_away = turned_away
  leave-Fate let_down = let_down

  take-Fate : {x : Stage} {k : ℕ} → Fate work c x k true false → Fate work c x k false true
  take-Fate queued = taken

  finish-Fate :
      {x : Stage} {k : ℕ} {p : Bool}
      → Fate work c x k p true
      → Fate work c (mark (work c) x) (k + 1) p false
  finish-Fate taken = done

  close-Fate :
      {x : Stage} {k : ℕ} {r : Bool} → Fate work c x k true r → Fate work c (give_up x) k false r
  close-Fate queued = dropped

  enter-Fate :
      {k : ℕ} {p r : Bool} → Fate work c outside k p r → Fate work c (waiting fresh_entry) k true r
  enter-Fate not_made = queued

  refuse-Fate :
      {k : ℕ} {p r : Bool} → Fate work c outside k p r → Fate work c (returned refused) k p r
  refuse-Fate not_made = turned_away

  outside-absent : {k : ℕ} {p r : Bool} → Fate work c outside k p r → p ≡ false
  outside-absent not_made = refl

self_eq : (a : ℕ) → (a == a) ≡ true
self_eq a = (==_iff a a).1 refl

eq_false_sym : (a b : ℕ) → (a == b) ≡ false → (b == a) ≡ false
eq_false_sym a b h = ground arith

member-append_own : (x : ℕ) (l : List ℕ) → member x (l ++ x ∷ []) ≡ true
unfolding member
member-append_own x l = ground (arith, member-append x l (x ∷ []), self_eq x)

member-append_other :
    (c x : ℕ) (l : List ℕ) → (c == x) ≡ false → member c (l ++ x ∷ []) ≡ member c l
unfolding member
member-append_other c x l h = ground (arith, member-append c l (x ∷ []), eq_false_sym c x h)

count-append_own : (x : ℕ) (l : List ℕ) → count x (l ++ x ∷ []) ≡ count x l + 1
unfolding count hit
count-append_own x l = ground (arith, count-append x l (x ∷ []), self_eq x)

count-append_other : (c x : ℕ) (l : List ℕ) → (c == x) ≡ false → count c (l ++ x ∷ []) ≡ count c l
unfolding count hit
count-append_other c x l h = ground (arith, count-append c l (x ∷ []), eq_false_sym c x h)

module _ (work : ℕ → Result ℕ ℕ) (q : Queue) (s : IsSettled work q) where
  -- It is enough to look at the call that an event is about and at every other one.
  split :
      (x : ℕ) (q' : Queue)
      → FateIn work x q'
      → ((c : ℕ) → (c == x) ≡ false → FateIn work c q')
      → (c : ℕ) → FateIn work c q'
  split x q' own others c = elim (Bool-cases (c == x)) [
    | inl same ↦ subst (λ y. FateIn work y q') (sym ((==_iff c x).0 same)) own
    | inr other ↦ others c other
  ]

  enter-IsSettled : (x : ℕ) (y : Stage) → q.calls x ≡ y → IsSettled work (enter x y q)
  enter-IsSettled x outside h =
      let f : Fate work x outside (count x q.executed) (member x q.pending)
          (is_running x q.running) =
        subst
          (λ y. Fate work x y (count x q.executed) (member x q.pending) (is_running x q.running)) h
          (s.1 x) in
      elim (Bool-cases q.closed) [
        | inl shut ↦ rw (shut) (
          s.0,
          split x (set_stage x (returned refused) q) (rw (self_eq x) (refuse-Fate work x f))
              (λ c other. rw (other) (s.1 c)),
        )
        | inr open_still ↦ rw (open_still) (
          Distinct-append q.pending x (outside-absent work x f) s.0,
          split x (record (set_stage x (waiting fresh_entry) q) { pending = q.pending ++ x ∷ [] })
              (rw (self_eq x, member-append_own x q.pending) (enter-Fate work x f))
              (λ c other. rw (other, member-append_other c x q.pending other) (s.1 c)),
        )
      ]
  enter-IsSettled x (waiting e) h = s
  enter-IsSettled x (returned r) h = s

  leave-IsSettled : (x : ℕ) → IsSettled work (set_stage x (leave (q.calls x)) q)
  leave-IsSettled x = (
    s.0,
    split x (set_stage x (leave (q.calls x)) q) (rw (self_eq x) (leave-Fate work x (s.1 x)))
        (λ c other. rw (other) (s.1 c)),
  )

  take-IsSettled :
      (y : Option ℕ) (l : List ℕ)
      → q.running ≡ y
      → q.pending ≡ l
      → IsSettled work (take_front y l q)
  unfolding member
  take-IsSettled (some c) l h k = s
  take-IsSettled none [] h k = s
  take-IsSettled none (x ∷ rest) h k =
      let d : Distinct (x ∷ rest) = subst Distinct k s.0 in
      let f : (c : ℕ) → Fate work c (q.calls c) (count c q.executed) (member c (x ∷ rest)) false =
        λ c. rw (h, k) at (s.1 c) in
      (
        d.1,
        split x (record q { pending = rest; running = some x })
            (rw (self_eq x, d.0) (take-Fate work x (rw (self_eq x) at (f x))))
            (λ c other. rw (eq_false_sym c x other) (rw (eq_false_sym c x other) at (f c))),
      )

  finish-IsSettled : (y : Option ℕ) → q.running ≡ y → IsSettled work (finish work y q)
  finish-IsSettled none h = s
  finish-IsSettled (some x) h =
      let f : (c : ℕ) → Fate work c (q.calls c) (count c q.executed) (member c q.pending) (x == c) =
        λ c. rw (h) at (s.1 c) in
      (
        s.0,
        split x (finish work (some x) q)
            (rw (self_eq x, count-append_own x q.executed)
              (finish-Fate work x (rw (self_eq x) at (f x))))
            (λ c other.
              rw (other, count-append_other c x q.executed other)
                (rw (eq_false_sym c x other) at (f c))),
      )

  close-IsSettled : IsSettled work (close q)
  unfolding close member
  close-IsSettled = (
    tt,
    λ c. elim (Bool-cases (member c q.pending)) [
      | inl there ↦ rw (there) (close-Fate work c (rw (there) at (s.1 c)))
      | inr gone ↦ rw (gone) (rw (gone) at (s.1 c))
    ],
  )

  pub step-IsSettled : (e : Event) → IsSettled work (step work e q)
  unfolding step
  step-IsSettled (enters x) = enter-IsSettled x (q.calls x) refl
  step-IsSettled (leaves x) = leave-IsSettled x
  step-IsSettled takes = take-IsSettled q.running q.pending refl refl
  step-IsSettled finishes = finish-IsSettled q.running refl
  step-IsSettled closes = close-IsSettled
