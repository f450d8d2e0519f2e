-- ===== src/Load/Build.antt =====
-- wifi_shepard/config.py: `build_config` and `build_config_from_mapping`. A loaded configuration keeps
-- what the loader does not check as it came: the radios, some knobs of an override, and the sign of
-- three counts. `as_config` answers the configuration of the detectors where these are well typed.
use wifi_shepard.Config.{
  SafetyRailsConfig, QuietHoursConfig, InactivityConfig, DnsThrashConfig, RebootConfig,
  RebootOverride, ControllerSpec, HomeAssistantConfig, DnsSourceSpec,
}
use wifi_shepard.Load.Checks.{require_non_negative_int, require_mac, require_one_of}
use wifi_shepard.Load.Hours.{build_quiet_hours}
use wifi_shepard.Load.Rails.{build_safety_rails, build_inactivity, build_dns_thrash, reject}
use wifi_shepard.Load.RebootBlock.{build_reboot}
use wifi_shepard.Load.Sources.{
  build_controller_spec, build_home_assistant, build_dns_sources, is_empty,
}
use wifi_shepard.Load.Yaml.{Value, Fields, null, text, find, get}
use wifi_shepard.Mac.{normalize_mac}
use wifi_shepard.Prelude.{
  ℕ, String, Bool, not, ◌&&◌, ◌||◌, Option, none, some, List, [], ◌∷◌, ◌++◌, map, if◌then◌else◌, ℤ,
  Result, ◌>>=◌, ok, raise, type_error, each, contains, is_some,
}
use wifi_shepard.Reboot.Oui.{looks_like_espressif}

-- An override: no check reads the MAC and the three thresholds.
pub record RawOverride : Type 0 where
  pub mac : Value
  pub tx_rate_kbps_max : Value
  pub retry_pct_max : Value
  pub signal_dbm_max : Value
  pub ap_cu_total_min : Option ℕ
  pub kick_mechanism : Option String
  pub max_kicks_per_hour : Option ℕ
  pub max_kicks_per_day : Option ℕ
  pub dns_same_domain_queries_max : Option ℕ

pub record LoadedConfig : Type 0 where
  pub tx_rate_kbps_max : Option ℤ
  pub retry_pct_max : Option ℤ
  pub signal_dbm_max : Option ℤ
  pub ap_cu_total_min : ℕ
  pub radios : List Value
  pub inactivity : InactivityConfig
  pub dns_thrash : Option DnsThrashConfig
  pub poll_interval_seconds : ℤ
  pub window_samples : ℤ
  pub dry_run : Bool
  pub kick_mechanism : String
  pub quarantine_after_kicks : ℤ
  pub cooldowns_seconds : List ℕ
  pub max_kicks_per_hour : ℕ
  pub max_kicks_per_day : ℕ
  pub safety_rails : SafetyRailsConfig
  pub quiet_hours : Option QuietHoursConfig
  pub reboot : RebootConfig
  pub overrides : List RawOverride
  pub allowlist : List String
  pub controllers : List ControllerSpec
  pub home_assistant : Option HomeAssistantConfig
  pub dns_sources : List DnsSourceSpec

-- The advisories that are logged, with their MAC.
pub data Warning : Type 0 where
  reboot_eligible_in_allowlist reboot_eligible_non_espressif_oui : String → Warning
  reboot_override_mac_not_eligible inactivity_mac_in_allowlist : String → Warning

-- The arguments of `build_config`, as `build_config_from_mapping` passes them.
pub record Arguments : Type 0 where
  pub tx_rate_kbps_max : Option ℤ
  pub retry_pct_max : Option ℤ
  pub signal_dbm_max : Option ℤ
  pub ap_cu_total_min : Value
  pub radios : List Value
  pub inactivity : Value
  pub dns_thrash : Value
  pub dry_run : Bool
  pub window_samples : ℤ
  pub poll_interval_seconds : ℤ
  pub quarantine_after_kicks : ℤ
  pub cooldowns_seconds : List Value
  pub max_kicks_per_hour : Value
  pub max_kicks_per_day : Value
  pub kick_mechanism : String
  pub safety_rails : Value
  pub quiet_hours : Value
  pub reboot : Value
  pub overrides : List Fields
  pub allowlist : List Value
  pub controllers : List Fields
  pub home_assistant : Value
  pub dns_sources : Value

abbrev pub kick_mechanisms : List String
kick_mechanisms = "deauth" ∷ "btm" ∷ "auto" ∷ []

-- A knob that is `None`, or passes the check.
abbrev pub optional_count : Value → Result (Option ℕ)
optional_count null = ok none
optional_count v = do n ← require_non_negative_int v; ok (some n)

abbrev pub optional_mechanism : Value → Result (Option String)
optional_mechanism null = ok none
optional_mechanism v = do s ← require_one_of kick_mechanisms v; ok (some s)

-- `OverrideEntry(**…)`: a row without a MAC is no call of it.
unfoldable pub require_row : Fields → Result (Unit {0})
require_row row = if is_some (find row "mac") then ok tt else raise type_error

unfoldable pub check_override : Fields → Result RawOverride
check_override row = do
  mechanism ← optional_mechanism (get row "kick_mechanism")
  hour ← optional_count (get row "max_kicks_per_hour")
  day ← optional_count (get row "max_kicks_per_day")
  floor ← optional_count (get row "ap_cu_total_min")
  queries ← optional_count (get row "dns_same_domain_queries_max")
  ok (record {
    mac = get row "mac";
    tx_rate_kbps_max = get row "tx_rate_kbps_max";
    retry_pct_max = get row "retry_pct_max";
    signal_dbm_max = get row "signal_dbm_max";
    ap_cu_total_min = floor;
    kick_mechanism = mechanism;
    max_kicks_per_hour = hour;
    max_kicks_per_day = day;
    dns_same_domain_queries_max = queries;
  })

unfoldable pub build_overrides : List Fields → Result (List RawOverride)
unfolding require_row
build_overrides rows = do _ ← each require_row rows; each check_override rows

unfoldable pub eligible_warnings : List String → List String → List Warning
eligible_warnings allowlist [] = []
eligible_warnings allowlist (mac ∷ rest) =
    let later = eligible_warnings allowlist rest in
    if contains (normalize_mac mac) allowlist
    then reboot_eligible_in_allowlist mac ∷ later
    else if looks_like_espressif mac
    then later
    else reboot_eligible_non_espressif_oui mac ∷ later

unfoldable pub override_warnings : List String → List RebootOverride → List Warning
override_warnings eligible [] = []
override_warnings eligible (o ∷ rest) =
    let later = override_warnings eligible rest in
    if contains (normalize_mac o.mac) eligible
    then later
    else reboot_override_mac_not_eligible o.mac ∷ later

unfoldable pub inactivity_warnings : List String → List String → List Warning
inactivity_warnings allowlist [] = []
inactivity_warnings allowlist (mac ∷ rest) =
    let later = inactivity_warnings allowlist rest in
    if contains mac allowlist then inactivity_mac_in_allowlist mac ∷ later else later

unfoldable pub advisories : RebootConfig → InactivityConfig → List String → List Warning
unfolding eligible_warnings override_warnings inactivity_warnings
advisories reboot inactivity allowlist =
    eligible_warnings allowlist reboot.eligible
    ++ (override_warnings (map normalize_mac reboot.eligible) reboot.overrides
        ++ inactivity_warnings allowlist inactivity.macs)

module _ (show : Value → String) (zone_ok : String → Bool) where
  unfoldable pub build_config : Arguments → Result (LoadedConfig × List Warning)
  build_config a = do
    mechanism ← require_one_of kick_mechanisms (text a.kick_mechanism)
    dns_thrash ← build_dns_thrash a.dns_thrash
    floor ← require_non_negative_int a.ap_cu_total_min
    inactivity ← build_inactivity a.inactivity
    _ ←
        reject
          (not (is_some a.tx_rate_kbps_max || is_some a.retry_pct_max || is_some a.signal_dbm_max))
    cooldowns ← each require_non_negative_int a.cooldowns_seconds
    per_hour ← require_non_negative_int a.max_kicks_per_hour
    per_day ← require_non_negative_int a.max_kicks_per_day
    overrides ← build_overrides a.overrides
    controllers ← each (build_controller_spec show) a.controllers
    home_assistant ← build_home_assistant a.home_assistant
    safety_rails ← build_safety_rails a.safety_rails
    quiet_hours ← build_quiet_hours zone_ok a.quiet_hours
    reboot ← build_reboot a.reboot
    dns_sources ← build_dns_sources a.dns_sources
    _ ← reject (is_some dns_thrash && is_empty dns_sources)
    allowlist ← each require_mac a.allowlist
    ok (
      record {
        tx_rate_kbps_max = a.tx_rate_kbps_max;
        retry_pct_max = a.retry_pct_max;
        signal_dbm_max = a.signal_dbm_max;
        ap_cu_total_min = floor;
        radios = a.radios;
        inactivity = inactivity;
        dns_thrash = dns_thrash;
        poll_interval_seconds = a.poll_interval_seconds;
        window_samples = a.window_samples;
        dry_run = a.dry_run;
        kick_mechanism = mechanism;
        quarantine_after_kicks = a.quarantine_after_kicks;
        cooldowns_seconds = cooldowns;
        max_kicks_per_hour = per_hour;
        max_kicks_per_day = per_day;
        safety_rails = safety_rails;
        quiet_hours = quiet_hours;
        reboot = reboot;
        overrides = overrides;
        allowlist = allowlist;
        controllers = controllers;
        home_assistant = home_assistant;
        dns_sources = dns_sources;
      },
      advisories reboot inactivity allowlist,
    )
