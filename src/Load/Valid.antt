-- ===== src/Load/Valid.antt =====
-- The invariant of a configuration that wifi_shepard/config.py loads.
use wifi_shepard.Config.{
  SafetyRailsConfig, QuietHoursConfig, InactivityConfig, DnsThrashConfig, RebootConfig,
  RebootOverride, ControllerSpec, DnsInstanceSpec, DnsSourceSpec,
}
use wifi_shepard.Load.Build.{LoadedConfig, RawOverride, kick_mechanisms}
use wifi_shepard.Load.Checks.{is_mac}
use wifi_shepard.Load.Times.{IsTime}
use wifi_shepard.Load.Rules.{IsRawMac}
use wifi_shepard.Mac.{normalize_mac}
use wifi_shepard.Prelude.{
  ℕ, String, Bool, true, false, Option, none, some, [], ◌≡◌, ◌||◌, ◌≤◌, All, contains, is_some, ◌≢◌,
  ◌⊎◌,
}

-- An address in the form that every comparison uses.
abbrev pub IsCanonicalMac : String → Type 0
IsCanonicalMac s = (is_mac s ≡ true) × (normalize_mac s ≡ s)

-- A cap on an access point's kicks comes with a window.
abbrev pub IsRailed : SafetyRailsConfig → Type 0
IsRailed r = (r.max_kicks_per_ap_per_window ≡ 0) ⊎ (1 ≤ r.per_ap_window_seconds)

-- A detector that is switched on looks at a sample at least.
abbrev pub IsWatching : InactivityConfig → Type 0
IsWatching i = ((i.enabled ≡ false) ⊎ (1 ≤ i.window_samples)) × All IsCanonicalMac i.macs

abbrev pub IsSustained : Option DnsThrashConfig → Type 0
IsSustained none = Unit
IsSustained (some d) = (1 ≤ d.window_minutes) × (1 ≤ d.sustain_windows)

abbrev pub IsTimed : (String → Bool) → Option QuietHoursConfig → Type 0
IsTimed zone_ok none = Unit
IsTimed zone_ok (some q) = IsTime q.start_time × IsTime q.end_time × (zone_ok q.timezone ≡ true)

abbrev pub IsRebootable : RebootConfig → Type 0
IsRebootable r =
    IsTime r.proactive.schedule
    × All IsRawMac r.eligible
    × All (λ (o : RebootOverride). IsRawMac o.mac) r.overrides

abbrev pub IsKnown : Option String → Type 0
IsKnown none = Unit
IsKnown (some s) = contains s kick_mechanisms ≡ true

abbrev pub IsPort : Option ℕ → Type 0
IsPort none = Unit
IsPort (some n) = (1 ≤ n) × (n ≤ 65535)

-- Each instance has a password, its own or its source's.
abbrev pub IsReachable : DnsSourceSpec → Type 0
IsReachable d =
    (d.instances ≢ [])
    × All (λ (i : DnsInstanceSpec). (is_some i.password || is_some d.password) ≡ true) d.instances

pub record IsChecked (zone_ok : String → Bool) (c : LoadedConfig) : Type 0 where
  pub mechanism : contains c.kick_mechanism kick_mechanisms ≡ true
  pub override_mechanisms : All (λ (o : RawOverride). IsKnown o.kick_mechanism) c.overrides
  pub criterion :
      (is_some c.tx_rate_kbps_max || is_some c.retry_pct_max || is_some c.signal_dbm_max) ≡ true
  pub rails : IsRailed c.safety_rails
  pub inactivity : IsWatching c.inactivity
  pub thrash : IsSustained c.dns_thrash
  pub thrash_sources : (c.dns_thrash ≡ none) ⊎ (c.dns_sources ≢ [])
  pub sources : All IsReachable c.dns_sources
  pub hours : IsTimed zone_ok c.quiet_hours
  pub reboot : IsRebootable c.reboot
  pub allowlist : All IsCanonicalMac c.allowlist
  pub ports : All (λ (s : ControllerSpec). IsPort s.port) c.controllers
