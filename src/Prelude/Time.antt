-- ===== src/Prelude/Time.antt =====
-- Instants and durations, counted in microseconds.
-- Python's clocks give floats in seconds. A difference of two instants is compared here by a sum,
-- `now < last + d` for `now - last < d`, so no instant before the clock's origin is needed.
use Prim.Native.Nat.{ℕ, ◌*◌}

-- `n` seconds
abbrev pub seconds : ℕ → ℕ
seconds n = n * 1000000
