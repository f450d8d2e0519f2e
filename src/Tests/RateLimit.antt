-- ===== src/Tests/RateLimit.antt =====
-- The limiter at concrete attempts.
use wifi_shepard.Prelude.{List, [], ◌∷◌, arith, seconds, ◌≡◌, ◌↔◌, ◌<◌, length}
use wifi_shepard.RateLimit.{can_kick, record_kick, kicked}
use wifi_shepard.RateLimit.Gate
use wifi_shepard.RateLimit.Gate.{Clear, window_kicks}
use wifi_shepard.RateLimit.History.{Tracks, record_kick-Tracks}
use wifi_shepard.Verdict.{allowed}
use wifi_shepard.RateLimit.Run.{Attempt, fresh, fallback, run, new, InOrder, Spaced, Capped}
use wifi_shepard.RateLimit.Safety

-- Two points, a refused burst, and a fallback.
abbrev attempts : List Attempt
attempts =
    fresh "ap1" 10000000 10500000
    ∷ fresh "ap1" 11000000 11000001
    ∷ fallback 50000000 50200000
    ∷ fresh "ap2" 90000000 90000007
    ∷ []

attempts-InOrder : InOrder 0 attempts
attempts-InOrder = omega arith

run_safe_example :
    Spaced (seconds 30) [] (run (new 30 2 600, []) attempts).1
    × Capped (seconds 600) 2 (run (new 30 2 600, []) attempts).1
run_safe_example = Safety.run_safe 30 2 600 attempts (omega arith) attempts-InOrder

-- A limiter after a kick at "ap1" in its first second.
one_kick-Tracks :
    Tracks (record_kick (new 30 2 600) "ap1" 1000000) (kicked "ap1" 1000000 ∷ []) 1000000
one_kick-Tracks =
    record_kick-Tracks (new 30 2 600) [] 0 "ap1" 1000000 (omega arith) (omega arith)
      (Safety.new-Safe 30 2 600).tracks

can_kick_iff_example :
    ((can_kick (record_kick (new 30 2 600) "ap1" 1000000) "ap1" 40000000).0 ≡ allowed) ↔ (
      Clear
        (seconds (record_kick (new 30 2 600) "ap1" 1000000).min_seconds_between_kicks)
        40000000
        (kicked "ap1" 1000000 ∷ [])
      × (length (
            window_kicks
              (record_kick (new 30 2 600) "ap1" 1000000)
              (kicked "ap1" 1000000 ∷ [])
              "ap1"
              40000000)
          < (record_kick (new 30 2 600) "ap1" 1000000).max_kicks_per_ap_per_window))
unfolding record_kick
can_kick_iff_example =
    Gate.can_kick_iff (record_kick (new 30 2 600) "ap1" 1000000) (kicked "ap1" 1000000 ∷ []) 1000000
      "ap1" 40000000 (omega arith) (omega arith) one_kick-Tracks
