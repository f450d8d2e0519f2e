-- ===== src/Backoff.antt =====
-- wifi_shepard/backoff.py: the quarantine counter of each client, and the gate of cooldowns and caps.
pub mod Counts
pub mod Gates
pub mod Reopens
use wifi_shepard.Prelude.{
  ℕ, suc, ◌+◌, ◌-◌, String, Bool, true, false, none, some, List, [], ◌∷◌, ltb, leb, if◌then◌else◌,
  length, seconds,
}
use Prim.Native.Nat.{min, max}
use wifi_shepard.Window.{within}
use wifi_shepard.Verdict.{Verdict, allowed, denied, and_then}
use wifi_shepard.Dict
use wifi_shepard.Dict.{Dict}

pub record MacState : Type 0 where
  pub kick_count : ℕ
  pub quarantine_notified : Bool

pub record BackoffManager : Type 0 where
  pub states : Dict MacState
  pub quarantine_after_kicks : ℕ

abbrev pub fresh : MacState
fresh = record { kick_count = 0; quarantine_notified = false }

unfoldable pub state_of : BackoffManager → String → MacState
state_of b mac = Dict.get_or b.states mac fresh

-- `_entry`: a MAC that is asked about gets an entry.
unfoldable pub entry : BackoffManager → String → MacState × BackoffManager
unfolding state_of
entry b mac = (state_of b mac, record b { states = Dict.put b.states mac (state_of b mac) })

-- `State`
pub data State : Type 0 where
  normal quarantine : State

unfoldable pub kick_count : BackoffManager → String → ℕ × BackoffManager
unfolding entry
kick_count b mac = let (s, b') = entry b mac in (s.kick_count, b')

unfoldable pub state : BackoffManager → String → State × BackoffManager
unfolding entry
state b mac =
    let (s, b') = entry b mac in
    (if leb b.quarantine_after_kicks s.kick_count then State.quarantine else State.normal, b')

unfoldable pub should_quarantine : BackoffManager → String → Bool × BackoffManager
unfolding entry
should_quarantine b mac =
    let (s, b') = entry b mac in (leb b.quarantine_after_kicks s.kick_count, b')

unfoldable pub quarantine_notified : BackoffManager → String → Bool × BackoffManager
unfolding entry
quarantine_notified b mac = let (s, b') = entry b mac in (s.quarantine_notified, b')

unfoldable pub record_kick : BackoffManager → String → BackoffManager
unfolding entry
record_kick b mac =
    let (s, b') = entry b mac in
    record b' { states = Dict.put b'.states mac (record s { kick_count = suc s.kick_count }) }

unfoldable pub mark_quarantine_notified : BackoffManager → String → BackoffManager
unfolding entry
mark_quarantine_notified b mac =
    let (s, b') = entry b mac in
    record b' { states = Dict.put b'.states mac (record s { quarantine_notified = true }) }

abbrev pub hour_seconds : ℕ
hour_seconds = 3600

abbrev pub day_seconds : ℕ
day_seconds = 86400

-- `min` and `max` of a list that is not empty
unfoldable pub minimum : ℕ → List ℕ → ℕ
minimum x [] = x
minimum x (y ∷ ys) = minimum (min x y) ys

unfoldable pub maximum : ℕ → List ℕ → ℕ
maximum x [] = x
maximum x (y ∷ ys) = maximum (max x y) ys

abbrev check_cap : String → ℕ → ℕ → ℕ → List ℕ → Verdict
check_cap reason window cap now [] = allowed
check_cap reason window cap now (t ∷ ts) =
    if leb cap (length (t ∷ ts)) then denied reason (minimum t ts + window - now) else allowed

-- The daily and the hourly gate: off at 0.
unfoldable pub cap_gate : String → ℕ → ℕ → ℕ → List ℕ → Verdict
cap_gate reason window cap now recent =
    if ltb 0 cap then check_cap reason window cap now (within window now recent) else allowed

-- `cooldowns[min(run - 1, len(cooldowns) - 1)]` for a run of `suc n` kicks
unfoldable pub rung : ℕ → List ℕ → ℕ → ℕ
rung n [] c = c
rung ℕ.zero (d ∷ ds) c = c
rung (suc n) (d ∷ ds) c = rung n ds d

abbrev check_run : ℕ → List ℕ → ℕ → List ℕ → Verdict
check_run c cs now [] = allowed
check_run c cs now (t ∷ ts) =
    let required = seconds (rung (length ts) cs c) in
    if ltb now (maximum t ts + required)
    then denied "per_mac_cooldown" (maximum t ts + required - now)
    else allowed

-- The trailing run is what lies within the longest cooldown.
unfoldable pub cooldown_gate : List ℕ → ℕ → List ℕ → Verdict
cooldown_gate [] now recent = allowed
cooldown_gate (c ∷ cs) now recent = check_run c cs now (within (seconds (maximum c cs)) now recent)

unfoldable pub evaluate_backoff : List ℕ → ℕ → List ℕ → ℕ → ℕ → Verdict
evaluate_backoff recent now cooldowns max_per_hour max_per_day =
    and_then (cap_gate "per_mac_daily_cap" (seconds day_seconds) max_per_day now recent) (
      and_then (cap_gate "per_mac_hourly_cap" (seconds hour_seconds) max_per_hour now recent)
        (cooldown_gate cooldowns now recent))
