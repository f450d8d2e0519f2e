-- ===== src/Tests/Load.antt =====
-- The loader at a concrete file.
use wifi_shepard.Actor.{dispatch_mechanism}
use wifi_shepard.Config.{Config}
use wifi_shepard.Load.Advice.{warned, warned_iff_ineligible}
use wifi_shepard.Load.Build.{
  LoadedConfig, Warning, reboot_eligible_in_allowlist, build_config, advisories, eligible_warnings,
  override_warnings, inactivity_warnings, build_overrides,
}
use wifi_shepard.Load.Checks.{
  is_mac, mac_shape, is_hex, is_valid_mac, require_non_negative_int, optional_int_field,
  require_bool, require_mac, require_sequence, in_closed_set, require_one_of, to_int,
}
use wifi_shepard.Load.Hours.{
  is_schedule, is_schedule_code, require_schedule, build_reboot_proactive, build_quiet_hours,
  quiet_hours_of, known_zone, set_thresholds,
}
use wifi_shepard.Load.Loaded.{build_config_from_mapping-IsChecked}
use wifi_shepard.Load.Mapping.{
  build_config_from_mapping, arguments_of, block, dry_run_of, radios_of,
}
use wifi_shepard.Load.RebootBlock.{
  build_reboot, reboot_of, build_reboot_cooldown, build_reboot_reactive, require_mapping_items,
  require_raw_mac,
}
use wifi_shepard.Load.Rails.{build_safety_rails, build_inactivity, build_dns_thrash, count_field}
use wifi_shepard.Load.Redact.Blind.{describe-blind, replace}
use wifi_shepard.Load.Redact.{describe}
use wifi_shepard.Load.Runs.{loaded-Runs, Returns}
use wifi_shepard.Load.Sources.{build_home_assistant, build_dns_sources}
use wifi_shepard.Load.Typed.{as_config, typed_text, typed_count}
use wifi_shepard.Load.Valid.{IsChecked}
use wifi_shepard.Load.Yaml.{
  Value, bool, text, mapping, seq, nil, item, end, field, list_of, find, get_or, truthy,
}
use wifi_shepard.Mac.{normalize_mac}
use wifi_shepard.Prelude.{
  Result, decimal, ℕ, String, Bool, true, false, not, none, some, List, [], ◌∷◌, pos, negsuc, ◌≡◌,
  refl, ok, each,
}
use wifi_shepard.Reboot.Eligibility.{is_reboot_eligible}
use wifi_shepard.Scorer.{effective}
use wifi_shepard.Resolution.{resolve_kick_mechanism, resolve_thresholds}

abbrev printer : Value → String
printer v = "?"

abbrev midnight : String → ℕ → Result ℕ
midnight zone now = ok 0

abbrev every_zone : String → Bool
every_zone zone = true

-- One address, eligible for reboots and on the allowlist at once.
abbrev parsed : Value
parsed = mapping (
    field "scanner" (mapping (field "kick_mechanism" (text "btm") end)) (
      field "allowlist" (seq (item (text "AA:BB:CC:DD:EE:01") nil)) (
        field "quiet_hours"
          (mapping (
            field "start" (text "22:00")
              (field "end" (text "06:30") (field "timezone" (text "UTC") end))))
          (field "reboot"
            (mapping (
              field "enabled" (bool true)
                (field "eligible" (seq (item (text "aa:bb:cc:dd:ee:01") nil)) end)))
            end))))

abbrev loaded : LoadedConfig
loaded = record {
  tx_rate_kbps_max = some (pos 12000);
  retry_pct_max = some (pos 30);
  signal_dbm_max = some (negsuc 69);
  ap_cu_total_min = 0;
  radios = text "ng" ∷ [];
  inactivity = record {
    enabled = false;
    min_bytes_per_window = 1024;
    window_samples = 30;
    macs = [];
  };
  dns_thrash = none;
  poll_interval_seconds = pos 60;
  window_samples = pos 5;
  dry_run = true;
  kick_mechanism = "btm";
  quarantine_after_kicks = pos 5;
  cooldowns_seconds = [];
  max_kicks_per_hour = 0;
  max_kicks_per_day = 0;
  safety_rails = record {
    min_seconds_between_kicks = 0;
    max_kicks_per_ap_per_window = 0;
    per_ap_window_seconds = 600;
  };
  quiet_hours = some (record {
    start_time = "22:00";
    end_time = "06:30";
    timezone = "UTC";
    tx_rate_kbps_max = none;
    retry_pct_max = none;
    signal_dbm_max = none;
  });
  reboot = record {
    enabled = true;
    resolver = "home_assistant";
    dry_run = true;
    eligible = "aa:bb:cc:dd:ee:01" ∷ [];
    overrides = [];
    cooldown = record { per_device_seconds = 3600; max_per_device_per_day = 4 };
    proactive = record { enabled = false; schedule = "03:30" };
    reactive = record {
      enabled = false;
      probe = record {
        method = "ping";
        interval_seconds = 60;
        window_samples = 5;
        loss_pct_min = 30;
      };
      require_signal_adequate = true;
      after_failed_kicks = 2;
    };
  };
  overrides = [];
  allowlist = "aa:bb:cc:dd:ee:01" ∷ [];
  controllers = [];
  home_assistant = none;
  dns_sources = [];
}

abbrev advised : List Warning
advised = reboot_eligible_in_allowlist "aa:bb:cc:dd:ee:01" ∷ []

load_run : build_config_from_mapping printer every_zone parsed ≡ ok (loaded, advised)
unfolding build_config_from_mapping build_config block truthy get_or dry_run_of require_sequence
    require_mapping_items each to_int optional_int_field require_one_of build_dns_thrash
    require_non_negative_int build_inactivity build_overrides build_home_assistant
    build_safety_rails build_quiet_hours advisories eligible_warnings inactivity_warnings
    override_warnings is_schedule in_closed_set is_hex is_mac is_valid_mac mac_shape require_bool
    require_mac is_schedule_code known_zone require_schedule set_thresholds arguments_of radios_of
    count_field build_reboot build_reboot_cooldown build_reboot_reactive build_reboot_proactive
    reboot_of require_raw_mac build_dns_sources quiet_hours_of find list_of normalize_mac decimal
load_run = refl

abbrev config : Config
config = record {
  detection = record {
    tx_rate_kbps_max = some (pos 12000);
    retry_pct_max = some (pos 30);
    signal_dbm_max = some (negsuc 69);
    ap_cu_total_min = 0;
    radios = "ng" ∷ [];
    inactivity = loaded.inactivity;
    dns_thrash = none;
  };
  scanner = record {
    poll_interval_seconds = 60;
    window_samples = 5;
    dry_run = true;
    kick_mechanism = "btm";
  };
  backoff = record {
    quarantine_after_kicks = 5;
    cooldowns_seconds = [];
    max_kicks_per_hour = 0;
    max_kicks_per_day = 0;
  };
  safety_rails = loaded.safety_rails;
  quiet_hours = loaded.quiet_hours;
  reboot = loaded.reboot;
  overrides = [];
  allowlist = loaded.allowlist;
  controllers = [];
  home_assistant = none;
  dns_sources = [];
}

config_run : as_config loaded ≡ ok config
unfolding as_config each typed_text typed_count
config_run = refl

build_config_from_mapping-IsChecked_example : IsChecked every_zone loaded
build_config_from_mapping-IsChecked_example =
    build_config_from_mapping-IsChecked printer every_zone parsed loaded advised load_run

loaded-Runs_example :
    Returns (dispatch_mechanism (resolve_kick_mechanism "aa" config))
    × Returns (effective midnight 5 config.quiet_hours (resolve_thresholds "aa" config))
loaded-Runs_example =
    loaded-Runs printer every_zone parsed loaded advised config "aa" midnight 5
      (resolve_thresholds "aa" config) (λ zone now e. (0, refl)) load_run config_run

warned_iff_ineligible_example :
    warned "aa:bb:cc:dd:ee:01" advised ≡ not (is_reboot_eligible "aa:bb:cc:dd:ee:01" config)
warned_iff_ineligible_example =
    warned_iff_ineligible printer every_zone parsed loaded advised config "aa:bb:cc:dd:ee:01"
      load_run config_run refl refl

abbrev hide : String → Value → Value
hide key v = text "hunter2"

abbrev date_name : String → String
date_name s = "date"

describe-blind_example :
    (describe printer date_name (replace hide parsed) ≡ describe printer date_name parsed)
    × (describe printer date_name (text "a") ≡ describe printer date_name (text "b"))
describe-blind_example = describe-blind hide printer date_name parsed "a" "b"
