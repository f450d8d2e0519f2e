-- ===== src/Scorer.antt =====
-- wifi_shepard/scorer.py: the sliding window of samples of each client, and the bad-state test.
pub mod Judgement
pub mod Flags
pub mod Quiet
pub mod Windows
use wifi_shepard.Prelude.{
  ℕ, String, Bool, true, false, not, ◌||◌, Option, none, some, List, [], ◌∷◌, ltb, if◌then◌else◌, ℤ,
  pos, ◌*ℤ◌, ltb_ℤ, leb_ℤ, is_some, length, contains, push_bounded, Result, ok, raise,
}
use wifi_shepard.Config.{Config, QuietHoursConfig}
use wifi_shepard.Controller.{ClientSnapshot}
use wifi_shepard.Dict
use wifi_shepard.Dict.{Dict}
use wifi_shepard.Mac.{normalize_mac}
use wifi_shepard.Resolution.{Thresholds, resolve_thresholds, quiet_hours_active, apply_quiet_hours}

-- `signal_max is not None and sample.signal >= signal_max`, and so for the rate
abbrev pub at_least : ℤ → Option ℤ → Bool
at_least v none = false
at_least v (some max) = leb_ℤ max v

-- The retry test passes a sample with no attempts, and one whose retries are within the limit:
-- `tx_retries * 100.0 / attempts <= retry_max`, multiplied out by the positive `attempts`.
unfoldable pub retry_ok : ClientSnapshot → Option ℤ → Bool
retry_ok s none = false
retry_ok s (some max) =
    leb_ℤ s.wifi_tx_attempts (pos 0) || leb_ℤ (s.tx_retries *ℤ pos 100) (max *ℤ s.wifi_tx_attempts)

-- One round of the loop returns `False`.
unfoldable pub clears : ClientSnapshot → Thresholds → List String → Bool
clears s t radios =
    not (contains s.radio radios)
    || ltb_ℤ s.ap_cu_total (pos t.ap_cu_total_min)
    || at_least s.signal t.signal_dbm_max
    || at_least s.tx_rate_kbps t.tx_rate_kbps_max
    || retry_ok s t.retry_pct_max

unfoldable pub any_clears : List ClientSnapshot → Thresholds → List String → Bool
any_clears [] t radios = false
any_clears (s ∷ rest) t radios = clears s t radios || any_clears rest t radios

unfoldable pub no_criterion : Thresholds → Bool
no_criterion t =
    not (is_some t.signal_dbm_max || is_some t.tx_rate_kbps_max || is_some t.retry_pct_max)

unfoldable pub is_bad_state : List ClientSnapshot → Thresholds → List String → Bool
unfolding any_clears no_criterion
is_bad_state [] t radios = false
is_bad_state (s ∷ rest) t radios =
    if no_criterion t then false else not (any_clears (s ∷ rest) t radios)

pub record Scorer : Type 0 where
  pub config : Config
  pub windows : Dict (List ClientSnapshot)

abbrev pub new : Config → Scorer
new config = record { config = config; windows = Dict.empty }

-- `_window`: the deque of a MAC, a fresh one at first sight. Its `maxlen` is the `window_samples` of
-- the configuration, since a reload that changes that number makes a new scorer.
abbrev pub window : Scorer → String → List ClientSnapshot
window s mac = Dict.get_or s.windows mac []

-- The thresholds in force, with the mark `quiet_hours` where they were tightened.
unfoldable pub effective :
    (String → ℕ → Result ℕ) → ℕ → Option QuietHoursConfig → Thresholds → Result Thresholds
effective local_time wall_now none t = ok t
effective local_time wall_now (some q) t = elim (quiet_hours_active local_time wall_now q) [
  | ok active ↦ ok (if active then record (apply_quiet_hours t q) { quiet_hours = true } else t)
  | raise e ↦ raise e
]

-- After the window's append: the decision.
unfoldable pub decide : Config → Thresholds → List ClientSnapshot → Option Thresholds
decide config t w =
    if ltb (length w) config.scanner.window_samples
    then none
    else if is_bad_state w t config.detection.radios
    then some t
    else none

unfoldable pub append_sample : Scorer → ClientSnapshot → Scorer
append_sample s client = record s {
  windows =
      Dict.put s.windows client.mac
        (push_bounded s.config.scanner.window_samples (window s client.mac) client);
}

unfoldable pub judge :
    Scorer → ClientSnapshot → Result Thresholds → Result (Option Thresholds) × Scorer
judge s client (raise e) = (raise e, s)
judge s client (ok t) =
    let s' = append_sample s client in (ok (decide s.config t (window s' client.mac)), s')

-- An exception of the quiet-hours test leaves the windows as they were.
unfoldable pub ingest :
    (String → ℕ → Result ℕ) → ℕ → Scorer → ClientSnapshot → Result (Option Thresholds) × Scorer
unfolding judge
ingest local_time wall_now s client =
    if contains (normalize_mac client.mac) s.config.allowlist
    then (ok none, s)
    else judge s client (
        effective local_time wall_now s.config.quiet_hours (resolve_thresholds client.mac s.config))
