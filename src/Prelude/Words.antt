-- ===== src/Prelude/Words.antt =====
-- The `std::uint64_t` counters of the program, with their wrap-around.
use Prim.Native.Nat.{ℕ, ◌+◌, ◌%◌, ◌^◌}

-- ++counter;
abbrev pub incr64 : ℕ → ℕ
incr64 n = (n + 1) % 2 ^ 64
