-- ===== src/Load/Loaded.antt =====
-- The whole of `build_config` and of `build_config_from_mapping`, wifi_shepard/config.py.
use wifi_shepard.Load.Blocks.{
  build_safety_rails-IsRailed, build_inactivity-IsWatching, build_dns_thrash-IsSustained,
  build_quiet_hours-IsTimed, require_mac-IsCanonicalMac,
}
use wifi_shepard.Load.Build.{
  Arguments, LoadedConfig, Warning, build_config, kick_mechanisms, advisories,
}
use wifi_shepard.Load.Checks.{require_non_negative_int}
use wifi_shepard.Load.Mapping.{build_config_from_mapping, arguments_of}
use wifi_shepard.Load.Rows.{
  build_reboot-IsRebootable, build_overrides-IsKnown, build_controller_spec-IsPort,
  build_dns_sources-IsReachable,
}
use wifi_shepard.Load.Rules.{trivially, reject-Ok, require_one_of-Ok}
use wifi_shepard.Load.Sources.{build_home_assistant, is_empty}
use wifi_shepard.Load.Valid.{IsChecked}
use wifi_shepard.Load.Yaml.{Value, text, mapping}
use wifi_shepard.Prelude.{
  String, Bool, false, not, ◌&&◌, ◌||◌, Option, none, some, List, [], ◌∷◌, ◌≡◌, ◌≢◌, ◌⊎◌, inl, inr,
  refl, arith, ok, value_error, each, Ok, raised, returned, ◌▹◌, ◌▹◌, each-Ok, Ok-holds, is_some,
}

-- A checked configuration, with its advisories.
abbrev Checked : (String → Bool) → LoadedConfig × List Warning → Type 0
Checked zone_ok (c, ws) = IsChecked zone_ok c × (ws ≡ advisories c.reboot c.inactivity c.allowlist)

fed {ℓ κ} :
    {A : Type ℓ} {B : Type κ} (o : Option A) (xs : List B)
    → (is_some o && is_empty xs) ≡ false
    → (o ≡ none) ⊎ (xs ≢ [])
fed none xs e = inl refl
fed (some a) [] e = cc
fed (some a) (x ∷ xs) e = inr (λ empty. cc)

module _ (show : Value → String) (zone_ok : String → Bool) where
  build_config-Checked : (a : Arguments) → Ok (Checked zone_ok) (build_config show zone_ok a)
  unfolding build_config
  build_config-Checked a =
      require_one_of-Ok kick_mechanisms (text a.kick_mechanism) ▹ λ mechanism known.
      build_dns_thrash-IsSustained a.dns_thrash ▹ λ thrash sustained.
      trivially (require_non_negative_int a.ap_cu_total_min) ▹ λ floor _.
      build_inactivity-IsWatching a.inactivity ▹ λ inactivity watching.
      reject-Ok
        (not (is_some a.tx_rate_kbps_max || is_some a.retry_pct_max || is_some a.signal_dbm_max))
      ▹ λ _ criterion.
          trivially (each require_non_negative_int a.cooldowns_seconds) ▹ λ cooldowns _.
          trivially (require_non_negative_int a.max_kicks_per_hour) ▹ λ hour _.
          trivially (require_non_negative_int a.max_kicks_per_day) ▹ λ day _.
          build_overrides-IsKnown a.overrides ▹ λ overrides known'.
          each-Ok (build_controller_spec-IsPort show) a.controllers ▹ λ controllers ports.
          trivially (build_home_assistant a.home_assistant) ▹ λ home_assistant _.
          build_safety_rails-IsRailed a.safety_rails ▹ λ rails railed.
          build_quiet_hours-IsTimed zone_ok a.quiet_hours ▹ λ hours timed.
          build_reboot-IsRebootable a.reboot ▹ λ reboot rebootable.
          build_dns_sources-IsReachable a.dns_sources ▹ λ sources reachable.
          reject-Ok (is_some thrash && is_empty sources) ▹ λ _ filled.
          each-Ok require_mac-IsCanonicalMac a.allowlist ▹ λ allowlist canonical. returned _ (
            record {
              mechanism = known;
              override_mechanisms = known';
              criterion = ground arith;
              rails = railed;
              inactivity = watching;
              thrash = sustained;
              thrash_sources = fed thrash sources filled;
              sources = reachable;
              hours = timed;
              reboot = rebootable;
              allowlist = canonical;
              ports = ports;
            },
            refl,
          )

  build_config_from_mapping-Checked :
      (v : Value) → Ok (Checked zone_ok) (build_config_from_mapping show zone_ok v)
  unfolding build_config_from_mapping
  build_config_from_mapping-Checked (mapping root) =
      trivially (arguments_of show zone_ok root) ▹ λ a _. build_config-Checked a
  build_config_from_mapping-Checked _ = raised value_error

  -- Whatever the parsed file holds, a configuration that the loader answers is checked: the mechanisms
  -- are known, a criterion is set, the rails, the inactivity detector that is on and the DNS detector
  -- have windows, the zone is known, each time of day is two pairs of decimal digits, of any script
  -- in the ones' place, with a colon between and perhaps a newline behind, and lies within a day, the
  -- MACs of the allowlist and of the inactivity block are valid and canonical, the ports fit, and
  -- the DNS detector has sources with passwords.
  pub build_config_from_mapping-IsChecked :
      (v : Value) (c : LoadedConfig) (ws : List Warning)
      → build_config_from_mapping show zone_ok v ≡ ok (c, ws)
      → IsChecked zone_ok c
  build_config_from_mapping-IsChecked v c ws e =
      (Ok-holds (build_config_from_mapping-Checked v) e).0

  pub build_config_from_mapping-advisories :
      (v : Value) (c : LoadedConfig) (ws : List Warning)
      → build_config_from_mapping show zone_ok v ≡ ok (c, ws)
      → ws ≡ advisories c.reboot c.inactivity c.allowlist
  build_config_from_mapping-advisories v c ws e =
      (Ok-holds (build_config_from_mapping-Checked v) e).1
