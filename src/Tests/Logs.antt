-- ===== src/Tests/Logs.antt =====
-- Runs of src/runtime/include/atp/runtime/log_ring.hpp.
use ani_tools_platform.Prelude.{
  ℕ, zero, suc, ◌≡◌, ◌≢◌, ◌≤◌, ◌+◌, ◌-◌, refl, false, List, [], ◌∷◌, ◌++◌, take, length, codes,
  arith,
}
use ani_tools_platform.Runtime.LogRing.{
  Request, stored, new_ring, Act, asks, goes, drains, step, run, capacity, look, go, exchange,
  publish, find_line, free_slot,
}
use ani_tools_platform.Runtime.LogRing.Order.{run-sinks_in_order}
use ani_tools_platform.Runtime.LogRing.Drain.{drains_for, IsQuiet, drains_for-delivers}

abbrev first_line : Request
first_line = record { level = 1; text = codes "up"; at = 5 }

abbrev second_line : Request
second_line = record { level = 2; text = codes "down"; at = 6 }

-- Two writers find the same slot free; the first claims it, the second publishes first.
abbrev racing : List Act
racing =
    asks 1 first_line
    ∷ asks 2 second_line
    ∷ goes 1 false
    ∷ goes 2 false
    ∷ goes 1 false
    ∷ goes 2 false
    ∷ goes 2 false
    ∷ goes 2 false
    ∷ goes 2 false
    ∷ drains
    ∷ goes 1 false
    ∷ []

holds_back : (run racing new_ring).sunk ≡ []
unfolding run step go look exchange publish find_line free_slot
holds_back = refl

in_order :
    (run (racing ++ drains ∷ drains ∷ drains ∷ drains ∷ []) new_ring).sunk
    ≡ stored first_line ∷ stored second_line ∷ []
unfolding run step go look exchange publish find_line free_slot
in_order = refl

run-sinks_in_order_example :
    ((run racing new_ring).sunk ≡ take (run racing new_ring).head (run racing new_ring).tickets)
    × ((run racing new_ring).head ≤ length (run racing new_ring).tickets)
    × (length (run racing new_ring).tickets ≤ (run racing new_ring).head + capacity)
run-sinks_in_order_example = run-sinks_in_order racing (omega arith)

racing-IsQuiet : IsQuiet (run racing new_ring)
unfolding run step go look exchange publish find_line free_slot
racing-IsQuiet w = ground arith

not_reading : (run racing new_ring).reading ≡ false
unfolding run step go look exchange publish find_line free_slot
not_reading = refl

drains_for-delivers_example :
    (run
      (drains_for ((run racing new_ring).tail - (run racing new_ring).head))
      (run racing new_ring)).sunk
    ≡ (run racing new_ring).tickets
drains_for-delivers_example = drains_for-delivers racing (omega arith) racing-IsQuiet not_reading

-- Writer 1 writes `k` lines, and starts another one.
abbrev flood : ℕ → List Act
flood zero = asks 1 first_line ∷ []
flood (suc k) = asks 1 first_line ∷ goes 1 false ∷ goes 1 false ∷ goes 1 false ∷ flood k

drops_one : (step (goes 1 false) (run (flood 64) new_ring)).dropped ≡ 1
unfolding run step go look exchange publish find_line free_slot
drops_one = refl

drops_none : (run (flood 64) new_ring).dropped ≡ 0
unfolding run step go look exchange publish find_line free_slot
drops_none = refl

flood_drops :
    (step (goes 1 false) (run (flood 64) new_ring)).dropped ≢ (run (flood 64) new_ring).dropped
flood_drops e = omega (arith, drops_one, drops_none)
