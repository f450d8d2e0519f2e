-- ===== src/Load/Mapping.antt =====
-- wifi_shepard/config.py: `build_config_from_mapping`, from the root of the parsed file.
use wifi_shepard.Load.Build.{Arguments, LoadedConfig, Warning, build_config}
use wifi_shepard.Load.Checks.{require_sequence, optional_int_field, to_int}
use wifi_shepard.Load.RebootBlock.{require_mapping_items}
use wifi_shepard.Load.Sources.{str}
use wifi_shepard.Load.Yaml.{Value, Fields, null, bool, int, text, mapping, end, get, get_or, truthy}
use wifi_shepard.Prelude.{
  String, Bool, true, List, [], ◌∷◌, if◌then◌else◌, pos, negsuc, Result, ◌>>=◌, ok, raise,
  value_error, attribute_error,
}

-- A block that is read by `get`: a value that is no mapping has none.
has_get : Value → Result Fields
has_get (mapping fs) = ok fs
has_get _ = raise attribute_error

-- `(data.get(key) or {})`, with the first `get` of what comes out
unfoldable pub block : Fields → String → Result Fields
unfolding has_get
block root key = if truthy (get root key) then has_get (get root key) else ok end

-- `scanner.dry_run`: a set value has to be a truth value.
unfoldable pub dry_run_of : Value → Result Bool
dry_run_of null = ok true
dry_run_of (bool b) = ok b
dry_run_of _ = raise value_error

unfoldable pub radios_of : List Value → List Value
radios_of [] = text "ng" ∷ []
radios_of (r ∷ rs) = r ∷ rs

module _ (show : Value → String) (zone_ok : String → Bool) where
  unfoldable pub arguments_of : Fields → Result Arguments
  arguments_of root = do
    scanner ← block root "scanner"
    dry_run ← dry_run_of (get_or scanner "dry_run" (bool true))
    detection ← block root "detection"
    radios ← require_sequence (get detection "radios")
    allowlist ← require_sequence (get root "allowlist")
    override_items ← require_sequence (get root "overrides")
    overrides ← require_mapping_items override_items
    controller_items ← require_sequence (get root "controllers")
    controllers ← require_mapping_items controller_items
    poll ← to_int (get_or scanner "poll_interval_seconds" (int (pos 60)))
    window ← to_int (get_or scanner "window_samples" (int (pos 5)))
    tx_rate ← optional_int_field detection "tx_rate_kbps_max" (pos 12000)
    retry ← optional_int_field detection "retry_pct_max" (pos 30)
    signal ← optional_int_field detection "signal_dbm_max" (negsuc 69)
    backoff ← block root "backoff"
    quarantine ← to_int (get_or backoff "quarantine_after_kicks" (int (pos 5)))
    cooldowns ← require_sequence (get backoff "cooldowns_seconds")
    ok (record {
      tx_rate_kbps_max = tx_rate;
      retry_pct_max = retry;
      signal_dbm_max = signal;
      ap_cu_total_min = get_or detection "ap_cu_total_min" (int (pos 0));
      radios = radios_of radios;
      inactivity = get detection "inactivity";
      dns_thrash = get detection "dns_thrash";
      dry_run = dry_run;
      window_samples = window;
      poll_interval_seconds = poll;
      quarantine_after_kicks = quarantine;
      cooldowns_seconds = cooldowns;
      max_kicks_per_hour = get_or backoff "max_kicks_per_hour" (int (pos 0));
      max_kicks_per_day = get_or backoff "max_kicks_per_day" (int (pos 0));
      kick_mechanism = str show (get_or scanner "kick_mechanism" (text "deauth"));
      safety_rails = get root "safety_rails";
      quiet_hours = get root "quiet_hours";
      reboot = get root "reboot";
      overrides = overrides;
      allowlist = allowlist;
      controllers = controllers;
      home_assistant = get root "home_assistant";
      dns_sources = get root "dns_sources";
    })

  unfoldable pub build_config_from_mapping : Value → Result (LoadedConfig × List Warning)
  unfolding arguments_of
  build_config_from_mapping (mapping root) = do a ← arguments_of root; build_config show zone_ok a
  build_config_from_mapping _ = raise value_error
