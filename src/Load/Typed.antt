-- ===== src/Load/Typed.antt =====
-- What wifi_shepard/config.py answers, as the configuration that the other components read. The loader
-- does not look at the types of the radios, of an override's MAC and of its thresholds, nor at the
-- sign of three counts; a configuration with one of them ill typed is no `Config`.
use wifi_shepard.Config.{Config, OverrideEntry}
use wifi_shepard.Load.Build.{LoadedConfig, RawOverride}
use wifi_shepard.Load.Yaml.{Value, null, int, text}
use wifi_shepard.Prelude.{
  ℕ, String, Option, none, some, ℤ, pos, Result, ◌>>=◌, ok, raise, type_error, each,
}

unfoldable pub typed_count : ℤ → Result ℕ
typed_count (pos n) = ok n
typed_count _ = raise type_error

unfoldable pub typed_text : Value → Result String
typed_text (text s) = ok s
typed_text _ = raise type_error

unfoldable pub typed_threshold : Value → Result (Option ℤ)
typed_threshold null = ok none
typed_threshold (int i) = ok (some i)
typed_threshold _ = raise type_error

unfoldable pub typed_override : RawOverride → Result OverrideEntry
unfolding typed_text typed_threshold
typed_override o = do
  mac ← typed_text o.mac
  rate ← typed_threshold o.tx_rate_kbps_max
  retry ← typed_threshold o.retry_pct_max
  signal ← typed_threshold o.signal_dbm_max
  ok (record {
    mac = mac;
    tx_rate_kbps_max = rate;
    retry_pct_max = retry;
    signal_dbm_max = signal;
    ap_cu_total_min = o.ap_cu_total_min;
    kick_mechanism = o.kick_mechanism;
    max_kicks_per_hour = o.max_kicks_per_hour;
    max_kicks_per_day = o.max_kicks_per_day;
    dns_same_domain_queries_max = o.dns_same_domain_queries_max;
  })

unfoldable pub as_config : LoadedConfig → Result Config
unfolding typed_count typed_override typed_text
as_config c = do
  radios ← each typed_text c.radios
  poll ← typed_count c.poll_interval_seconds
  window ← typed_count c.window_samples
  quarantine ← typed_count c.quarantine_after_kicks
  overrides ← each typed_override c.overrides
  ok (record {
    detection = record {
      tx_rate_kbps_max = c.tx_rate_kbps_max;
      retry_pct_max = c.retry_pct_max;
      signal_dbm_max = c.signal_dbm_max;
      ap_cu_total_min = c.ap_cu_total_min;
      radios = radios;
      inactivity = c.inactivity;
      dns_thrash = c.dns_thrash;
    };
    scanner = record {
      poll_interval_seconds = poll;
      window_samples = window;
      dry_run = c.dry_run;
      kick_mechanism = c.kick_mechanism;
    };
    backoff = record {
      quarantine_after_kicks = quarantine;
      cooldowns_seconds = c.cooldowns_seconds;
      max_kicks_per_hour = c.max_kicks_per_hour;
      max_kicks_per_day = c.max_kicks_per_day;
    };
    safety_rails = c.safety_rails;
    quiet_hours = c.quiet_hours;
    reboot = c.reboot;
    overrides = overrides;
    allowlist = c.allowlist;
    controllers = c.controllers;
    home_assistant = c.home_assistant;
    dns_sources = c.dns_sources;
  })
