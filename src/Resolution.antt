-- ===== src/Resolution.antt =====
-- wifi_shepard/resolution.py: a client's effective settings, its override before the global value,
-- and the quiet hours. `ZoneInfo` and `datetime.fromtimestamp` are a parameter, `local_time`: for
-- a zone's name and an instant, the microseconds since that day's local midnight.
use wifi_shepard.Prelude.{
  ℕ, ◌+◌, ◌*◌, String, Bool, false, Option, none, some, List, [], ◌∷◌, ◌&&◌, ◌||◌, ◌==◌,
  if◌then◌else◌, ltb, leb, ℤ, min_ℤ, max_ℤ, Result, ok, raise, value_error, ◌>>=◌, any, seconds,
  codes, is_code, at_end, decimal,
}
use wifi_shepard.Config.{Config, QuietHoursConfig, OverrideEntry}

-- The dict of `resolve_thresholds`, with the mark that `Scorer.ingest` adds to it.
pub record Thresholds : Type 0 where
  pub tx_rate_kbps_max : Option ℤ
  pub retry_pct_max : Option ℤ
  pub signal_dbm_max : Option ℤ
  pub ap_cu_total_min : ℕ
  pub quiet_hours : Bool

-- `value if value is not None else default`
abbrev pub or_default {ℓ} : {A : Type ℓ} → Option A → A → A
or_default none d = d
or_default (some v) d = v

abbrev pub or_inherit {ℓ} : {A : Type ℓ} → Option A → Option A → Option A
or_inherit none d = d
or_inherit (some v) d = some v

-- The loop `for override in config.overrides` that skips other MACs and stops at the first match.
unfoldable pub find_override : String → List OverrideEntry → Option OverrideEntry
find_override mac [] = none
find_override mac (o ∷ rest) = if o.mac == mac then some o else find_override mac rest

abbrev apply_override : Option OverrideEntry → Thresholds → Thresholds
apply_override none t = t
apply_override (some o) t = record t {
  tx_rate_kbps_max = or_inherit o.tx_rate_kbps_max t.tx_rate_kbps_max;
  retry_pct_max = or_inherit o.retry_pct_max t.retry_pct_max;
  signal_dbm_max = or_inherit o.signal_dbm_max t.signal_dbm_max;
  ap_cu_total_min = or_default o.ap_cu_total_min t.ap_cu_total_min;
}

unfoldable pub resolve_thresholds : String → Config → Thresholds
resolve_thresholds mac config = apply_override (find_override mac config.overrides) (record {
  tx_rate_kbps_max = config.detection.tx_rate_kbps_max;
  retry_pct_max = config.detection.retry_pct_max;
  signal_dbm_max = config.detection.signal_dbm_max;
  ap_cu_total_min = config.detection.ap_cu_total_min;
  quiet_hours = false;
})

unfoldable pub mac_has_override : String → Config → Bool
mac_has_override mac config = any (λ o. o.mac == mac) config.overrides

-- This loop goes on to the next matching entry where the first names no mechanism.
unfoldable pub mechanism_from : String → List OverrideEntry → String → String
mechanism_from mac [] global = global
mechanism_from mac (o ∷ rest) global =
    let later = mechanism_from mac rest global in
    if o.mac == mac then or_default o.kick_mechanism later else later

unfoldable pub resolve_kick_mechanism : String → Config → String
unfolding mechanism_from
resolve_kick_mechanism mac config =
    mechanism_from mac config.overrides config.scanner.kick_mechanism

abbrev override_caps : Option OverrideEntry → ℕ → ℕ → ℕ × ℕ
override_caps none hour day = (hour, day)
override_caps (some o) hour day =
    (or_default o.max_kicks_per_hour hour, or_default o.max_kicks_per_day day)

-- `(max_kicks_per_hour, max_kicks_per_day)`
unfoldable pub resolve_caps : String → Config → ℕ × ℕ
resolve_caps mac config =
    override_caps (find_override mac config.overrides) config.backoff.max_kicks_per_hour
      config.backoff.max_kicks_per_day

-- Here too the loop goes on where a matching entry sets no value.
dns_max_from : String → List OverrideEntry → ℕ → ℕ
dns_max_from mac [] global = global
dns_max_from mac (o ∷ rest) global =
    let later = dns_max_from mac rest global in
    if o.mac == mac then or_default o.dns_same_domain_queries_max later else later

-- Called only where `config.detection.dns_thrash` is set; `global` is its value.
unfoldable pub resolve_dns_same_domain_max : String → Config → ℕ → ℕ
unfolding dns_max_from
resolve_dns_same_domain_max mac config global = dns_max_from mac config.overrides global

-- `int(c)` of one digit
unfoldable pub digit : ℕ → Result ℕ
digit c = elim (decimal c) [ none ↦ raise value_error | some v ↦ ok v ]

-- `datetime.time(hour, minute)`, as the microseconds since midnight
unfoldable pub time_of : ℕ → ℕ → Result ℕ
time_of hour minute =
    if ltb hour 24 && ltb minute 60
    then ok (seconds (hour * 3600 + minute * 60))
    else raise value_error

unfoldable pub hhmm_of : List ℕ → Result ℕ
unfolding digit time_of
hhmm_of (h ∷ h' ∷ colon ∷ m ∷ m' ∷ rest) = do
  a ← digit h
  b ← digit h'
  c ← digit m
  d ← digit m'
  if is_code colon b':' && at_end rest then time_of (a * 10 + b) (c * 10 + d) else raise value_error
hhmm_of _ = raise value_error

-- `_parse_hhmm` on the form that the loader admits, HH:MM in the digits of any script, which a newline
-- may follow; any other text is refused.
unfoldable pub parse_hhmm : String → Result ℕ
unfolding hhmm_of
parse_hhmm value = hhmm_of (codes value)

-- The window [start, end), which may wrap midnight.
unfoldable pub in_window : ℕ → ℕ → ℕ → Bool
in_window start end now =
    if leb start end then leb start now && ltb now end else leb start now || ltb now end

unfoldable pub quiet_hours_active : (String → ℕ → Result ℕ) → ℕ → QuietHoursConfig → Result Bool
unfolding parse_hhmm in_window
quiet_hours_active local_time now_epoch q = do
  now_local ← local_time q.timezone now_epoch
  start ← parse_hhmm q.start_time
  end ← parse_hhmm q.end_time
  ok (in_window start end now_local)

-- One field of `apply_quiet_hours`: both must be set for the stricter one to be taken.
abbrev pub tighten : (ℤ → ℤ → ℤ) → Option ℤ → Option ℤ → Option ℤ
tighten stricter none value = value
tighten stricter (some q) none = none
tighten stricter (some q) (some v) = some (stricter v q)

unfoldable pub apply_quiet_hours : Thresholds → QuietHoursConfig → Thresholds
apply_quiet_hours t q = record t {
  tx_rate_kbps_max = tighten min_ℤ q.tx_rate_kbps_max t.tx_rate_kbps_max;
  retry_pct_max = tighten max_ℤ q.retry_pct_max t.retry_pct_max;
  signal_dbm_max = tighten min_ℤ q.signal_dbm_max t.signal_dbm_max;
}
