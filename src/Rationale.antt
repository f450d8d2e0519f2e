-- ===== src/Rationale.antt =====
-- wifi_shepard/actor.py, `build_kick_rationale`: why a kick fired, frozen at the decision.
-- The dict is a record; the keys that depend on the trigger are the constructors of `Evidence`. The
-- observed retry percentage is kept as the exact ratio: its rounding for display is left out.
pub mod Truth
use wifi_shepard.Prelude.{
  ℕ, String, Bool, true, false, Option, none, some, List, [], ◌∷◌, ◌++◌, if◌then◌else◌, ltb, ℤ, pos,
  ◌*ℤ◌, ltb_ℤ,
}
use wifi_shepard.Config.{Config}
use wifi_shepard.Controller.{ClientSnapshot}
use wifi_shepard.Inactivity.{Flatline}
use wifi_shepard.Resolution.{Thresholds, mac_has_override}

-- What a DNS flag adds to its decision, where the loudest standing is known.
pub record DnsEvidence : Type 0 where
  pub domain : String
  pub query_count : ℕ
  pub threshold : ℕ

-- The decision dicts of the three detectors.
pub data Decision : Type 0 where
  rf : Thresholds → Decision
  inactivity : Flatline → Decision
  dns_thrash : Option DnsEvidence → Decision

-- `ctx.get("trigger", "rf")`
unfoldable pub trigger_of : Decision → String
trigger_of (rf _) = "rf"
trigger_of (inactivity _) = "inactivity"
trigger_of (dns_thrash _) = "dns_thrash"

-- numerator and denominator of `tx_retries * 100.0 / attempts`
pub record Ratio : Type 0 where
  pub num : ℤ
  pub den : ℤ

pub record Observed : Type 0 where
  pub signal : ℤ
  pub tx_rate_kbps : ℤ
  pub retry_pct : Option Ratio
  pub radio : String
  pub ap_cu_total : ℤ

pub record RecordedThresholds : Type 0 where
  pub signal_dbm_max : Option ℤ
  pub tx_rate_kbps_max : Option ℤ
  pub retry_pct_max : Option ℤ
  pub ap_cu_total_min : Option ℕ

pub data Evidence : Type 0 where
  rf_evidence : Observed → RecordedThresholds → List String → Evidence
  inactivity_evidence : ℕ → ℕ → Evidence
  dns_evidence : Option DnsEvidence → Evidence

pub record Rationale : Type 0 where
  pub version : ℕ
  pub trigger : String
  pub window_samples : ℕ
  pub quiet_hours : Bool
  pub override : Bool
  pub evidence : Evidence

unfoldable pub retry_pct_raw : ClientSnapshot → Option Ratio
retry_pct_raw client =
    if ltb_ℤ (pos 0) client.wifi_tx_attempts
    then some (record { num = client.tx_retries *ℤ pos 100; den = client.wifi_tx_attempts })
    else none

unfoldable pub below : ℤ → Option ℤ → Bool
below v none = false
below v (some max) = ltb_ℤ v max

-- `retry_pct_raw > retry_max`, multiplied out by the positive denominator
unfoldable pub above : Option Ratio → Option ℤ → Bool
above (some r) (some max) = ltb_ℤ (max *ℤ r.den) r.num
above _ _ = false

abbrev pub when : Bool → String → List String
when true name = name ∷ []
when false name = []

unfoldable pub breached : ClientSnapshot → Thresholds → List String
unfolding retry_pct_raw below above
breached client t =
    when (below client.signal t.signal_dbm_max) "signal"
    ++ (when (below client.tx_rate_kbps t.tx_rate_kbps_max) "tx_rate_kbps"
        ++ when (above (retry_pct_raw client) t.retry_pct_max) "retry_pct")

unfoldable pub observed : ClientSnapshot → Observed
unfolding retry_pct_raw
observed client = record {
  signal = client.signal;
  tx_rate_kbps = client.tx_rate_kbps;
  retry_pct = retry_pct_raw client;
  radio = client.radio;
  ap_cu_total = client.ap_cu_total;
}

-- Only active criteria; the saturation floor only where it is positive.
unfoldable pub recorded : Thresholds → RecordedThresholds
recorded t = record {
  signal_dbm_max = t.signal_dbm_max;
  tx_rate_kbps_max = t.tx_rate_kbps_max;
  retry_pct_max = t.retry_pct_max;
  ap_cu_total_min = if ltb 0 t.ap_cu_total_min then some t.ap_cu_total_min else none;
}

unfoldable pub evidence : ClientSnapshot → Decision → Evidence
unfolding observed recorded breached
evidence client (rf t) = rf_evidence (observed client) (recorded t) (breached client t)
evidence client (inactivity f) = inactivity_evidence f.window_bytes f.min_bytes_per_window
evidence client (dns_thrash e) = dns_evidence e

-- `ctx.get("window_samples", config.scanner.window_samples)`
sampled : Decision → Config → ℕ
sampled (inactivity f) config = f.window_samples
sampled _ config = config.scanner.window_samples

-- `bool(ctx.get("quiet_hours", False))`
tightened : Decision → Bool
tightened (rf t) = t.quiet_hours
tightened _ = false

unfoldable pub build_kick_rationale : ClientSnapshot → Decision → Config → Rationale
unfolding trigger_of sampled tightened evidence
build_kick_rationale client ctx config = record {
  version = 1;
  trigger = trigger_of ctx;
  window_samples = sampled ctx config;
  quiet_hours = tightened ctx;
  override = mac_has_override client.mac config;
  evidence = evidence client ctx;
}
