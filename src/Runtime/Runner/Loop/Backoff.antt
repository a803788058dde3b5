-- ===== src/Runtime/Runner/Loop/Backoff.antt =====
-- src/runtime/include/atp/runtime/pipeline_runner.hpp: the delays and the notifications of an
-- on-demand thread.
use ani_tools_platform.Prelude.{
  ℕ, zero, suc, ◌≡◌, refl, sym, ap, ◌∙◌, ◌*◌, ◌<◌, ◌^◌, ◌==◌, min, Bool, true, false, ◌||◌, List,
  [], ◌∷◌, ◌++◌, arith, ◌⊎◌, append_assoc, if◌then◌else◌, Bool-cases, inl, inr,
}
use ani_tools_platform.Runtime.Tree.{WorkStatus, idle, busy}
use ani_tools_platform.Runtime.Runner.{on_demand, ThreadOptions}
use ani_tools_platform.Runtime.Runner.Loop.{
  Pacing, Pause, yields, sleeps, wakes, ticks, back_off, pace, turn,
}

-- The delay behind k idle turns in a row: none behind 0, and 2 ^ (k - 1), at most 10, behind k.
unfoldable pub backoff : ℕ → ℕ
backoff zero = 0
backoff (suc k) = min (2 ^ k) 10

-- Whether a notification came in a turn, and what its pass answered.
abbrev pub Turn : Type 0
Turn = Bool × WorkStatus

unfoldable pub turns : ThreadOptions → List Turn → Pacing → Pacing
turns o [] l = l
turns o ((notified, pass) ∷ later) l = turns o later (turn o notified pass l)

-- The idle turns since the last busy one, and since the last one that a notification woke: the first
-- idle turn does not look at the signal. `flag` is whether a notification is pending.
unfoldable pub streak : List Turn → ℕ → Bool → ℕ
streak [] k flag = k
streak ((notified, busy) ∷ later) k flag = streak later 0 (flag || notified)
streak ((notified, idle) ∷ later) zero flag = streak later 1 (flag || notified)
streak ((notified, idle) ∷ later) (suc k) flag =
    if flag || notified then streak later 0 false else streak later (suc (suc k)) false

-- The pause after the k-th idle turn of a streak, k from 0 on: a yield first, then waits of 1, 2, 4, 8
-- and from there on 10 ms, which a pending notification ends.
unfoldable pub pause_after : ℕ → Bool → Pause
unfolding backoff
pause_after zero pending = yields
pause_after (suc k) pending = if pending then wakes (backoff (suc k)) else sleeps (backoff (suc k))

-- The pauses of a run of turns, latest first: none after a busy turn, and the one that the streak asks
-- for after an idle one.
unfoldable pub expected_pauses : List Turn → ℕ → Bool → List Pause → List Pause
unfolding pause_after
expected_pauses [] k flag made = made
expected_pauses ((notified, busy) ∷ later) k flag made =
    expected_pauses later 0 (flag || notified) made
expected_pauses ((notified, idle) ∷ later) zero flag made =
    expected_pauses later 1 (flag || notified) (pause_after 0 (flag || notified) ∷ made)
expected_pauses ((notified, idle) ∷ later) (suc k) flag made =
    expected_pauses later (if flag || notified then 0 else suc (suc k)) false
      (pause_after (suc k) (flag || notified) ∷ made)

pow_positive : (k : ℕ) → 0 < 2 ^ k
pow_positive zero = omega arith
pow_positive (suc k) = omega (arith, pow_positive k)

backoff-positive : (k : ℕ) → (backoff (suc k) == 0) ≡ false
unfolding backoff
backoff-positive k = ground (arith, pow_positive k)

backoff-double : (k : ℕ) → min (backoff (suc k) * 2) 10 ≡ backoff (suc (suc k))
unfolding backoff
backoff-double k = omega arith

-- The pauses that look at the signal.
unfoldable pub timed_waits : List Pause → List Pause
timed_waits [] = []
timed_waits (yields ∷ later) = timed_waits later
timed_waits (sleeps d ∷ later) = sleeps d ∷ timed_waits later
timed_waits (wakes d ∷ later) = wakes d ∷ timed_waits later
timed_waits (ticks p ∷ later) = ticks p ∷ timed_waits later

-- With a notification pending and `base` the waits so far: either it is still pending and there
-- were no more waits, or the first of them was ended by it.
abbrev pub IsAnswered : List Pause → Pacing → Type 0
IsAnswered base l =
    ((l.signaled ≡ true) × (timed_waits l.pauses ≡ base))
    ⊎ ((d : ℕ) × (later : List Pause) × (timed_waits l.pauses ≡ later ++ wakes d ∷ base))

module _ (o : ThreadOptions) (mode : o.mode ≡ on_demand) (n : Bool) (l : Pacing) where
  turn-busy :
      ((turn o n busy l).delay ≡ 0)
      × ((turn o n busy l).signaled ≡ (l.signaled || n))
      × ((turn o n busy l).pauses ≡ l.pauses)
  unfolding pace
  turn-busy = ground arith

  turn-first :
      (l.delay == 0) ≡ true
      → ((turn o n idle l).delay ≡ 1)
        × ((turn o n idle l).signaled ≡ (l.signaled || n))
        × ((turn o n idle l).pauses ≡ yields ∷ l.pauses)
  unfolding pace back_off
  turn-first z = ground arith

  turn-woken :
      (l.delay == 0) ≡ false
      → (l.signaled || n) ≡ true
      → ((turn o n idle l).delay ≡ 0)
        × ((turn o n idle l).signaled ≡ false)
        × ((turn o n idle l).pauses ≡ wakes l.delay ∷ l.pauses)
  unfolding pace back_off
  turn-woken z f = ground arith

  turn-asleep :
      (l.delay == 0) ≡ false
      → (l.signaled || n) ≡ false
      → ((turn o n idle l).delay ≡ min (l.delay * 2) 10)
        × ((turn o n idle l).signaled ≡ false)
        × ((turn o n idle l).pauses ≡ sleeps l.delay ∷ l.pauses)
  unfolding pace back_off
  turn-asleep z f = ground arith

module _ (o : ThreadOptions) (mode : o.mode ≡ on_demand) where
  turns-expected :
      (ts : List Turn) (k : ℕ) (flag : Bool) (made : List Pause) (l : Pacing)
      → l.delay ≡ backoff k
      → l.signaled ≡ flag
      → l.pauses ≡ made
      → ((turns o ts l).pauses ≡ expected_pauses ts k flag made)
        × ((turns o ts l).delay ≡ backoff (streak ts k flag))
  unfolding turns streak expected_pauses backoff pause_after
  turns-expected [] k flag made l h s e = (e, h)
  turns-expected ((n, busy) ∷ ts) k flag made l h s e =
      let (d, f, p) = turn-busy o mode n l in
      turns-expected ts 0 (flag || n) made (turn o n busy l) d (f ∙ ap (λ b. b || n) s) (p ∙ e)
  turns-expected ((n, idle) ∷ ts) zero flag made l h s e =
      let (d, f, p) = turn-first o mode n l (ap (λ d. d == 0) h) in
      turns-expected ts 1 (flag || n) (yields ∷ made) (turn o n idle l) d (f ∙ ap (λ b. b || n) s)
        (p ∙ ap (λ m. yields ∷ m) e)
  turns-expected ((n, idle) ∷ ts) (suc k) flag made l h s e = elim (Bool-cases (flag || n)) [
    | inl up ↦
        let (d, f, p) =
          turn-woken o mode n l (ap (λ d. d == 0) h ∙ backoff-positive k)
            (ap (λ b. b || n) s ∙ up) in
        rw up (
          turns-expected ts 0 false (wakes (backoff (suc k)) ∷ made) (turn o n idle l) d f
            (p ∙ ap (λ d. wakes d ∷ l.pauses) h ∙ ap (λ m. wakes (backoff (suc k)) ∷ m) e))
    | inr down ↦
        let (d, f, p) =
          turn-asleep o mode n l (ap (λ d. d == 0) h ∙ backoff-positive k)
            (ap (λ b. b || n) s ∙ down) in
        rw down (
          turns-expected ts (suc (suc k)) false (sleeps (backoff (suc k)) ∷ made) (turn o n idle l)
            (d ∙ ap (λ d. min (d * 2) 10) h ∙ backoff-double k) f
            (p ∙ ap (λ d. sleeps d ∷ l.pauses) h ∙ ap (λ m. sleeps (backoff (suc k)) ∷ m) e))
  ]

  -- All the pauses of an on-demand thread, whatever its passes answer and whenever it is notified, from a
  -- delay that k idle turns in a row have made. It does not pause after a busy turn. After the first idle
  -- turn since the last busy one, or since the last wait that a notification ended, it yields. After the
  -- idle turn with j others before it in that row, j not 0, it waits 2 ^ (j - 1) ms, at most 10: in full if
  -- no notification is pending, and otherwise the notification ends the wait. The delay it is left with is
  -- the one of the row at the end.
  pub turns-streak :
      (ts : List Turn) (k : ℕ) (l : Pacing)
      → l.delay ≡ backoff k
      → ((turns o ts l).pauses ≡ expected_pauses ts k l.signaled l.pauses)
        × ((turns o ts l).delay ≡ backoff (streak ts k l.signaled))
  turns-streak ts k l h = turns-expected ts k l.signaled l.pauses l h refl refl

  turn-timed_waits :
      (n : Bool) (pass : WorkStatus) (l : Pacing)
      → (made : List Pause) × (timed_waits (turn o n pass l).pauses ≡ made ++ timed_waits l.pauses)
  unfolding timed_waits
  turn-timed_waits n busy l = ([], ap timed_waits (turn-busy o mode n l).2)
  turn-timed_waits n idle l = elim (Bool-cases (l.delay == 0)) [
    | inl z ↦ ([], ap timed_waits (turn-first o mode n l z).2)
    | inr z ↦ elim (Bool-cases (l.signaled || n)) [
      | inl up ↦ (wakes l.delay ∷ [], ap timed_waits (turn-woken o mode n l z up).2)
      | inr down ↦ (sleeps l.delay ∷ [], ap timed_waits (turn-asleep o mode n l z down).2)
    ]
  ]

  turns-timed_waits :
      (ts : List Turn) (l : Pacing)
      → (made : List Pause) × (timed_waits (turns o ts l).pauses ≡ made ++ timed_waits l.pauses)
  unfolding turns
  turns-timed_waits [] l = ([], refl)
  turns-timed_waits ((n, pass) ∷ ts) l =
      let (later, e) = turns-timed_waits ts (turn o n pass l) in
      let (made, f) = turn-timed_waits n pass l in
      (
        later ++ made,
        e ∙ ap (λ w. later ++ w) f ∙ sym (append_assoc later made (timed_waits l.pauses)),
      )

  turns-IsAnswered :
      (ts : List Turn) (l : Pacing) (base : List Pause)
      → l.signaled ≡ true
      → timed_waits l.pauses ≡ base
      → IsAnswered base (turns o ts l)
  unfolding turns timed_waits
  turns-IsAnswered [] l base s e = inl (s, e)
  turns-IsAnswered ((n, busy) ∷ ts) l base s e =
      let (_, f, p) = turn-busy o mode n l in
      turns-IsAnswered ts (turn o n busy l) base (f ∙ ap (λ b. b || n) s) (ap timed_waits p ∙ e)
  turns-IsAnswered ((n, idle) ∷ ts) l base s e = elim (Bool-cases (l.delay == 0)) [
    | inl z ↦
        let (_, f, p) = turn-first o mode n l z in
        turns-IsAnswered ts (turn o n idle l) base (f ∙ ap (λ b. b || n) s) (ap timed_waits p ∙ e)
    | inr z ↦
        let (_, _, p) = turn-woken o mode n l z (ap (λ b. b || n) s) in
        let (later, q) = turns-timed_waits ts (turn o n idle l) in
        inr (
          l.delay,
          later,
          q ∙ ap (λ w. later ++ w) (ap timed_waits p ∙ ap (λ w. wakes l.delay ∷ w) e),
        )
  ]

  -- A notification is not lost: while one is pending an on-demand thread does not sleep a delay out,
  -- and the first wait that it comes to ends by it.
  pub turns-notified :
      (ts : List Turn) (l : Pacing)
      → l.signaled ≡ true
      → IsAnswered (timed_waits l.pauses) (turns o ts l)
  turns-notified ts l s = turns-IsAnswered ts l (timed_waits l.pauses) s refl
