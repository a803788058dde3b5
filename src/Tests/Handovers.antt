-- ===== src/Tests/Handovers.antt =====
-- Runs of src/runtime/include/atp/runtime/command_queue.hpp.
use ani_tools_platform.Prelude.{
  ℕ, ◌≡◌, ◌⊎◌, refl, true, ◌==◌, if◌then◌else◌, List, [], ◌∷◌, some, Result, ok, err,
}
use ani_tools_platform.Io.Output.{member}
use ani_tools_platform.Runtime.Cascade.Balance.{count}
use ani_tools_platform.Runtime.CommandQueue.{
  Entry, fresh_entry, thrown, refused, abandoned, waiting, returned, new_queue, Event, enters,
  leaves, takes, finishes, closes, step, run,
}
use ani_tools_platform.Runtime.CommandQueue.Fates.{outcome}
use ani_tools_platform.Runtime.CommandQueue.Replies.{run-replies, run-releases, close-releases}

-- Call 2 throws 7, and every other one returns its number.
abbrev work : ℕ → Result ℕ ℕ
work c = if c == 2 then err 7 else ok c

abbrev day : List Event
day =
    enters 1
    ∷ enters 2
    ∷ enters 3
    ∷ takes
    ∷ finishes
    ∷ leaves 1
    ∷ takes
    ∷ closes
    ∷ finishes
    ∷ leaves 2
    ∷ leaves 3
    ∷ enters 4
    ∷ []

throws : (run work day new_queue).calls 2 ≡ returned (thrown 7)
unfolding run step
throws = refl

abandons : (run work day new_queue).calls 3 ≡ returned abandoned
unfolding run step
abandons = refl

refuses : (run work day new_queue).calls 4 ≡ returned refused
unfolding run step
refuses = refl

run-replies_example :
    ((thrown 7 ≡ outcome (work 2)) × (count 2 (run work day new_queue).executed ≡ 1))
    ⊎ (((thrown 7 ≡ refused) ⊎ (thrown 7 ≡ abandoned))
        × (count 2 (run work day new_queue).executed ≡ 0))
run-replies_example = run-replies work day 2 (thrown 7) throws

abbrev morning : List Event
morning = enters 1 ∷ enters 2 ∷ takes ∷ []

abbrev given_up : Entry
given_up = record fresh_entry { done = true }

waits : (run work morning new_queue).calls 2 ≡ waiting fresh_entry
unfolding run step
waits = refl

run-releases_example :
    (fresh_entry.done ≡ true)
    ⊎ ((member 2 (run work morning new_queue).pending ≡ true)
        ⊎ ((run work morning new_queue).running ≡ some 2))
run-releases_example = run-releases work morning 2 fresh_entry waits

released :
    (step work finishes (step work closes (run work morning new_queue))).calls 2 ≡ waiting given_up
unfolding run step
released = refl

close-releases_example : given_up.done ≡ true
close-releases_example = close-releases work morning 2 given_up released
