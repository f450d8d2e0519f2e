-- ===== src/RateLimit/Run.antt =====
-- Sequences of attempts at the gates of the limiter, as the actor makes them, and what it means that
-- the kicks let through are spaced and capped.
use wifi_shepard.Dict
use wifi_shepard.Dict.{get_or-empty}
use wifi_shepard.Prelude.{ℕ, ◌+◌, ◌≤◌, String, ◌&&◌, none, List, [], ◌∷◌, ◌++◌, leb, length, filter}
use wifi_shepard.RateLimit.{
  KickRateLimiter, Sent, kicked, wired, can_kick, can_wire_call, record_kick, record_wire_call,
}
use wifi_shepard.RateLimit.Gate.{Clear}
use wifi_shepard.RateLimit.History.{instant, kick_times}
use wifi_shepard.Verdict.{Verdict, allowed, denied}

-- A kick as the actor makes it: the gate's reading of the clock, and the reading after the wire call.
pub data Attempt : Type 0 where
  fresh : String → ℕ → ℕ → Attempt
  fallback : ℕ → ℕ → Attempt

unfoldable pub after_fresh :
    String → ℕ → List Sent → Verdict × KickRateLimiter → KickRateLimiter × List Sent
after_fresh ap_id wire h (allowed, l) = (record_kick l ap_id wire, h ++ kicked ap_id wire ∷ [])
after_fresh ap_id wire h (denied _ _, l) = (l, h)

unfoldable pub after_fallback :
    KickRateLimiter → ℕ → List Sent → Verdict → KickRateLimiter × List Sent
after_fallback l wire h allowed = (record_wire_call l wire, h ++ wired wire ∷ [])
after_fallback l wire h (denied _ _) = (l, h)

-- The gate, and the record where it allows; beside it the history of what it allowed.
unfoldable pub step : KickRateLimiter × List Sent → Attempt → KickRateLimiter × List Sent
unfolding after_fresh after_fallback
step (l, h) (fresh ap_id gate wire) = after_fresh ap_id wire h (can_kick l ap_id gate)
step (l, h) (fallback gate wire) = after_fallback l wire h (can_wire_call l gate)

unfoldable pub run : KickRateLimiter × List Sent → List Attempt → KickRateLimiter × List Sent
run s [] = s
run s (a ∷ rest) = run (step s a) rest

-- The clock never goes back: not from the gate to the record, nor from one attempt to the next.
abbrev pub InOrder : ℕ → List Attempt → Type 0
InOrder clock [] = Unit
InOrder clock (fresh _ gate wire ∷ rest) = (clock ≤ gate) × (gate ≤ wire) × InOrder wire rest
InOrder clock (fallback gate wire ∷ rest) = (clock ≤ gate) × (gate ≤ wire) × InOrder wire rest

-- Each instant of the history lies at least `gap` after all before it.
abbrev pub Spaced : ℕ → List Sent → List Sent → Type 0
Spaced gap before [] = Unit
Spaced gap before (s ∷ h) = Clear gap (instant s) before × Spaced gap (before ++ s ∷ []) h

-- The kicks from `start` on that lie within one window of it.
unfoldable pub between : ℕ → ℕ → List ℕ → List ℕ
between window start = filter (λ u. leb start u && leb u (start + window))

-- No window of the given length, wherever it starts, holds more than `cap` kicks at one point.
abbrev pub Capped : ℕ → ℕ → List Sent → Type 0
Capped window cap h =
    (ap_id : String) (start : ℕ) → length (between window start (kick_times ap_id h)) ≤ cap

-- A limiter as the pipeline builds it.
abbrev pub new : ℕ → ℕ → ℕ → KickRateLimiter
new gap cap window = record {
  min_seconds_between_kicks = gap;
  max_kicks_per_ap_per_window = cap;
  per_ap_window_seconds = window;
  last_kick_at = none;
  per_ap_kicks = Dict.empty;
}
