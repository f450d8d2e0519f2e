-- ===== src/Config.antt =====
-- wifi_shepard/config.py, lines 183 to 402: the configuration's dataclasses. A field `int | None` is an
-- `Option`; an integer that the loader does not check for its sign is a ℤ.
use wifi_shepard.Prelude.{ℕ, String, Bool, Option, List, ℤ}

pub record InactivityConfig : Type 0 where
  pub enabled : Bool
  pub min_bytes_per_window : ℕ
  pub window_samples : ℕ
  pub macs : List String

pub record DnsThrashConfig : Type 0 where
  pub same_domain_queries_max : ℕ
  pub window_minutes : ℕ
  pub sustain_windows : ℕ

pub record DetectionConfig : Type 0 where
  pub tx_rate_kbps_max : Option ℤ
  pub retry_pct_max : Option ℤ
  pub signal_dbm_max : Option ℤ
  pub ap_cu_total_min : ℕ
  pub radios : List String
  pub inactivity : InactivityConfig
  pub dns_thrash : Option DnsThrashConfig

pub record ScannerConfig : Type 0 where
  pub poll_interval_seconds : ℕ
  pub window_samples : ℕ
  pub dry_run : Bool
  pub kick_mechanism : String

pub record BackoffConfig : Type 0 where
  pub quarantine_after_kicks : ℕ
  pub cooldowns_seconds : List ℕ
  pub max_kicks_per_hour : ℕ
  pub max_kicks_per_day : ℕ

-- `start` and `end` of the source, with `_time` added.
pub record QuietHoursConfig : Type 0 where
  pub start_time : String
  pub end_time : String
  pub timezone : String
  pub tx_rate_kbps_max : Option ℤ
  pub retry_pct_max : Option ℤ
  pub signal_dbm_max : Option ℤ

pub record SafetyRailsConfig : Type 0 where
  pub min_seconds_between_kicks : ℕ
  pub max_kicks_per_ap_per_window : ℕ
  pub per_ap_window_seconds : ℕ

pub record OverrideEntry : Type 0 where
  pub mac : String
  pub tx_rate_kbps_max : Option ℤ
  pub retry_pct_max : Option ℤ
  pub signal_dbm_max : Option ℤ
  pub ap_cu_total_min : Option ℕ
  pub kick_mechanism : Option String
  pub max_kicks_per_hour : Option ℕ
  pub max_kicks_per_day : Option ℕ
  pub dns_same_domain_queries_max : Option ℕ

pub record RebootOverride : Type 0 where
  pub mac : String
  pub name : Option String
  pub ha_entity : Option String

pub record RebootCooldownConfig : Type 0 where
  pub per_device_seconds : ℕ
  pub max_per_device_per_day : ℕ

pub record RebootProactiveConfig : Type 0 where
  pub enabled : Bool
  pub schedule : String

pub record RebootProbeConfig : Type 0 where
  pub method : String
  pub interval_seconds : ℕ
  pub window_samples : ℕ
  pub loss_pct_min : ℕ

pub record RebootReactiveConfig : Type 0 where
  pub enabled : Bool
  pub probe : RebootProbeConfig
  pub require_signal_adequate : Bool
  pub after_failed_kicks : ℕ

pub record RebootConfig : Type 0 where
  pub enabled : Bool
  pub resolver : String
  pub dry_run : Bool
  pub eligible : List String
  pub overrides : List RebootOverride
  pub cooldown : RebootCooldownConfig
  pub proactive : RebootProactiveConfig
  pub reactive : RebootReactiveConfig

pub record ControllerSpec : Type 0 where
  pub type : String
  pub name : String
  pub host : String
  pub username : String
  pub password : String
  pub site : String
  pub verify_ssl : Bool
  pub port : Option ℕ

pub record DnsInstanceSpec : Type 0 where
  pub url : String
  pub password : Option String

pub record DnsSourceSpec : Type 0 where
  pub type : String
  pub password : Option String
  pub instances : List DnsInstanceSpec

pub record HomeAssistantConfig : Type 0 where
  pub url : String
  pub token : String
  pub notify_service : String

pub record Config : Type 0 where
  pub detection : DetectionConfig
  pub scanner : ScannerConfig
  pub backoff : BackoffConfig
  pub safety_rails : SafetyRailsConfig
  pub quiet_hours : Option QuietHoursConfig
  pub reboot : RebootConfig
  pub overrides : List OverrideEntry
  pub allowlist : List String
  pub controllers : List ControllerSpec
  pub home_assistant : Option HomeAssistantConfig
  pub dns_sources : List DnsSourceSpec
