-- ===== src/Load/Runs.antt =====
-- The loader, wifi_shepard/config.py, with `_dispatch_mechanism` of actor.py and the thresholds of
-- resolution.py behind it.

use wifi_shepard.Actor.{dispatch_mechanism}
use wifi_shepard.Config.{Config, OverrideEntry, QuietHoursConfig}
use wifi_shepard.Load.Build.{LoadedConfig, RawOverride, Warning, kick_mechanisms}
use wifi_shepard.Load.Loaded.{build_config_from_mapping-IsChecked}
use wifi_shepard.Load.Mapping.{build_config_from_mapping}
use wifi_shepard.Load.Rules.{trivially}
use wifi_shepard.Load.Times.{parse_hhmm-IsTime}
use wifi_shepard.Load.Typed.{as_config, typed_override, typed_text, typed_count, typed_threshold}
use wifi_shepard.Load.Valid.{IsChecked, IsKnown, IsTimed}
use wifi_shepard.Load.Yaml.{Value}
use wifi_shepard.Prelude.{
  ℕ, String, Bool, true, false, ◌==◌, Option, none, some, List, [], ◌∷◌, ◌≡◌, refl, sym, inl, inr,
  arith, eq_iff, All, contains, Result, ok, each, each-All, subst, Ok, returned, ◌▹◌, Ok-holds,
  if◌then◌else◌, Bool-cases,
}
use wifi_shepard.Scorer.{effective}
use wifi_shepard.Resolution.{
  Thresholds, resolve_kick_mechanism, mechanism_from, quiet_hours_active, or_default,
}

abbrev pub Returns {ℓ} : {A : Type ℓ} → Result A → Type ℓ
Returns {A} r = (a : A) × (r ≡ ok a)

IsMechanism : String → Type 0
IsMechanism s = contains s kick_mechanisms ≡ true

dispatch_mechanism-Returns : (s : String) → IsMechanism s → Returns (dispatch_mechanism s)
unfolding IsMechanism dispatch_mechanism
dispatch_mechanism-Returns s known = elim (Bool-cases ("deauth" == s)) [
  | inl e ↦ rw (← (eq_iff "deauth" s).0 e) ("deauth", refl)
  | inr e ↦ elim (Bool-cases ("btm" == s)) [
    | inl e' ↦ rw (← (eq_iff "btm" s).0 e') ("btm", refl)
    | inr e' ↦ rw (← (eq_iff "auto" s).0 (ground arith)) ("btm", refl)
  ]
]

or_default-IsMechanism :
    (b : Bool) (own : Option String) (later : String)
    → IsKnown own
    → IsMechanism later
    → IsMechanism (if b then or_default own later else later)
unfolding IsMechanism
or_default-IsMechanism false own later k l = l
or_default-IsMechanism true none later k l = l
or_default-IsMechanism true (some s) later k l = k

mechanism_from-IsMechanism :
    (mac : String) (os : List OverrideEntry) (s : String)
    → IsMechanism s
    → All (λ (o : OverrideEntry). IsKnown o.kick_mechanism) os
    → IsMechanism (mechanism_from mac os s)
unfolding mechanism_from IsMechanism
mechanism_from-IsMechanism mac [] s known ks = known
mechanism_from-IsMechanism mac (o ∷ os) s known ks =
    or_default-IsMechanism (o.mac == mac) o.kick_mechanism _ (ks.0)
      (mechanism_from-IsMechanism mac os s known (ks.1))

-- Reading the clock in a known zone does not raise.
abbrev pub Clocks : (String → Bool) → (String → ℕ → Result ℕ) → Type 0
Clocks zone_ok local_time =
    (zone : String) (now : ℕ) → zone_ok zone ≡ true → Returns (local_time zone now)

module _ (zone_ok : String → Bool) (local_time : String → ℕ → Result ℕ)
    (clocks : Clocks zone_ok local_time) where
  quiet_hours_active-Returns :
      (q : QuietHoursConfig)
      → IsTimed zone_ok (some q)
      → (now : ℕ) → Returns (quiet_hours_active local_time now q)
  unfolding quiet_hours_active
  quiet_hours_active-Returns q timed now =
      let (here, e) = clocks q.timezone now (timed.2) in
      let (start, e') = parse_hhmm-IsTime q.start_time (timed.0) in
      let (stop, e'') = parse_hhmm-IsTime q.end_time (timed.1) in rw (e, e', e'') (_, refl)

  effective-Returns :
      (h : Option QuietHoursConfig)
      → IsTimed zone_ok h
      → (now : ℕ) (t : Thresholds) → Returns (effective local_time now h t)
  unfolding effective
  effective-Returns none timed now t = (t, refl)
  effective-Returns (some q) timed now t =
      let (active, e) = quiet_hours_active-Returns q timed now in rw (e, effective) (_, refl)

-- What `as_config` keeps.
pub record Kept (c : LoadedConfig) (k : Config) : Type 0 where
  pub mechanism : k.scanner.kick_mechanism ≡ c.kick_mechanism
  pub hours : k.quiet_hours ≡ c.quiet_hours
  pub reboot : k.reboot ≡ c.reboot
  pub allowlist : k.allowlist ≡ c.allowlist
  pub overrides : All (λ (o : OverrideEntry). IsKnown o.kick_mechanism) k.overrides

typed_override-IsKnown :
    (o : RawOverride)
    → IsKnown o.kick_mechanism
    → Ok (λ (t : OverrideEntry). IsKnown t.kick_mechanism) (typed_override o)
unfolding typed_override
typed_override-IsKnown o known = trivially (typed_text o.mac) ▹ λ mac _.
    trivially (typed_threshold o.tx_rate_kbps_max) ▹ λ rate _.
    trivially (typed_threshold o.retry_pct_max) ▹ λ retry _.
    trivially (typed_threshold o.signal_dbm_max) ▹ λ signal _. returned _ known

pub as_config-Kept :
    (zone_ok : String → Bool) (c : LoadedConfig) → IsChecked zone_ok c → Ok (Kept c) (as_config c)
unfolding as_config
as_config-Kept zone_ok c checked = trivially (each typed_text c.radios) ▹ λ radios _.
    trivially (typed_count c.poll_interval_seconds) ▹ λ poll _.
    trivially (typed_count c.window_samples) ▹ λ window _.
    trivially (typed_count c.quarantine_after_kicks) ▹ λ quarantine _.
    each-All typed_override-IsKnown c.overrides checked.override_mechanisms ▹ λ overrides known.
    returned _ (record {
      mechanism = refl;
      hours = refl;
      reboot = refl;
      allowlist = refl;
      overrides = known;
    })

-- On a configuration that the loader answered and that is well typed, at every instant, with a clock
-- that reads every zone that the loader's check of zones knows: the kick mechanism of each client is
-- one that the actor dispatches, and the thresholds in force, with the quiet hours where they are
-- set, are computed; neither raises.
pub loaded-Runs :
    (show : Value → String) (zone_ok : String → Bool) (v : Value) (c : LoadedConfig)
    (ws : List Warning) (config : Config) (mac : String) (local_time : String → ℕ → Result ℕ)
    (now : ℕ) (t : Thresholds)
    → Clocks zone_ok local_time
    → build_config_from_mapping show zone_ok v ≡ ok (c, ws)
    → as_config c ≡ ok config
    → Returns (dispatch_mechanism (resolve_kick_mechanism mac config))
      × Returns (effective local_time now config.quiet_hours t)
unfolding resolve_kick_mechanism IsMechanism
loaded-Runs show zone_ok v c ws config mac local_time now t clocks e e' =
    let checked = build_config_from_mapping-IsChecked show zone_ok v c ws e in
    let kept = Ok-holds (as_config-Kept zone_ok c checked) e' in
    (
      dispatch_mechanism-Returns _ (
          mechanism_from-IsMechanism mac config.overrides config.scanner.kick_mechanism
            (subst IsMechanism (sym kept.mechanism) checked.mechanism) kept.overrides),
      effective-Returns zone_ok local_time clocks config.quiet_hours
          (subst (IsTimed zone_ok) (sym kept.hours) checked.hours) now t,
    )
