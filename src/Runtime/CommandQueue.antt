-- ===== src/Runtime/CommandQueue.antt =====
-- src/runtime/include/atp/runtime/command_queue.hpp: calls handed over to the owner's thread. A step
-- is one stretch under the lock: a call that is queued, the owner taking the front entry, the owner
-- marking it done after running it, close(), and a caller that finds its entry done. What a call's
-- function does is a parameter.
pub mod Fates
pub mod Replies
use ani_tools_platform.Prelude.{
  ℕ, ◌+◌, ◌==◌, Bool, true, false, List, [], ◌∷◌, ◌++◌, Option, none, some, if◌then◌else◌, Result,
  ok, err,
}
use ani_tools_platform.Io.Output.{member}

-- entry, with the caller's `result` beside it; the numbers stand for a value and an exception.
pub record Entry : Type 0 where
  pub done : Bool
  pub failure : Option ℕ
  pub result : Option ℕ

abbrev pub fresh_entry : Entry
fresh_entry = record { done = false; failure = none; result = none }

-- What call() gives its caller: a value, what the function threw, or one of its own two exceptions.
pub data Reply : Type 0 where
  value thrown : ℕ → Reply
  refused abandoned : Reply

-- Where a call is: not made yet, inside call(), or returned from it.
pub data Stage : Type 0 where
  outside : Stage
  waiting : Entry → Stage
  returned : Reply → Stage

-- `running` is the entry that the owner took and has not marked done, `executed` the calls whose
-- function was run, in order.
pub record Queue : Type 0 where
  pub pending : List ℕ
  pub closed : Bool
  pub running : Option ℕ
  pub calls : ℕ → Stage
  pub executed : List ℕ

abbrev pub new_queue : Queue
new_queue = record {
  pending = [];
  closed = false;
  running = none;
  calls = λ c. outside;
  executed = [];
}

abbrev pub set_stage : ℕ → Stage → Queue → Queue
set_stage c x q = record q { calls = λ b. if b == c then x else q.calls b }

-- call(fn) up to its wait
abbrev pub enter : ℕ → Stage → Queue → Queue
enter c outside q =
    if q.closed
    then set_stage c (returned refused) q
    else record (set_stage c (waiting fresh_entry) q) { pending = q.pending ++ c ∷ [] }
enter c (waiting e) q = q
enter c (returned r) q = q

abbrev pub take_front : Option ℕ → List ℕ → Queue → Queue
take_front (some c) l q = q
take_front none [] q = q
take_front none (c ∷ rest) q = record q { pending = rest; running = some c }

-- e->work(), its exception caught, and the entry marked done
abbrev pub worked : Result ℕ ℕ → Entry → Entry
worked (ok v) e = record e { done = true; result = some v }
worked (err x) e = record e { done = true; failure = some x }

abbrev pub mark : Result ℕ ℕ → Stage → Stage
mark work outside = outside
mark work (waiting e) = waiting (worked work e)
mark work (returned r) = returned r

abbrev pub give_up : Stage → Stage
give_up outside = outside
give_up (waiting e) = waiting (record e { done = true })
give_up (returned r) = returned r

-- close()
unfoldable pub close : Queue → Queue
unfolding member
close q = record q {
  closed = true;
  pending = [];
  calls = λ b. if member b q.pending then give_up (q.calls b) else q.calls b;
}

-- call(fn) after its wait
abbrev pub reply : Entry → Reply
reply e = elim e.failure [
  | some x ↦ thrown x
  | none ↦ elim e.result [ none ↦ abandoned | some v ↦ value v ]
]

abbrev pub leave : Stage → Stage
leave outside = outside
leave (waiting e) = if e.done then returned (reply e) else waiting e
leave (returned r) = returned r

pub data Event : Type 0 where
  enters leaves : ℕ → Event
  takes finishes closes : Event

module _ (work : ℕ → Result ℕ ℕ) where
  abbrev pub finish : Option ℕ → Queue → Queue
  finish none q = q
  finish (some c) q = record (set_stage c (mark (work c) (q.calls c)) q) {
    running = none;
    executed = q.executed ++ c ∷ [];
  }

  unfoldable pub step : Event → Queue → Queue
  unfolding close
  step (enters c) q = enter c (q.calls c) q
  step (leaves c) q = set_stage c (leave (q.calls c)) q
  step takes q = take_front q.running q.pending q
  step finishes q = finish q.running q
  step closes q = close q

  unfoldable pub run : List Event → Queue → Queue
  unfolding step
  run [] q = q
  run (e ∷ rest) q = run rest (step e q)
