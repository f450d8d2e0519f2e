-- ===== src/Load/Advice.antt =====
-- The advisories of wifi_shepard/config.py against the check of reboot/eligibility.py.
use wifi_shepard.Config.{Config, RebootOverride, RebootConfig, InactivityConfig}
use wifi_shepard.Load.Build.{
  LoadedConfig, Warning, reboot_eligible_in_allowlist, reboot_eligible_non_espressif_oui,
  advisories, eligible_warnings, override_warnings, inactivity_warnings,
}
use wifi_shepard.Load.Loaded.{
  build_config_from_mapping-IsChecked, build_config_from_mapping-advisories,
}
use wifi_shepard.Load.Mapping.{build_config_from_mapping}
use wifi_shepard.Load.Runs.{as_config-Kept}
use wifi_shepard.Load.Typed.{as_config}
use wifi_shepard.Load.Valid.{IsCanonicalMac}
use wifi_shepard.Load.Yaml.{Value}
use wifi_shepard.Mac.{normalize_mac}
use wifi_shepard.Prelude.{
  String, Bool, true, false, not, ◌&&◌, ◌||◌, ◌==◌, List, [], ◌∷◌, ◌++◌, map, ◌≡◌, refl, sym, subst,
  ◌∙◌, inl, inr, arith, eq_iff, eq_refl, All, any, contains, ok, Ok-holds, if◌then◌else◌,
  Bool-cases,
}
use wifi_shepard.Reboot.Eligibility.{is_reboot_eligible}
use wifi_shepard.Reboot.Oui.{looks_like_espressif}

-- The advisory that the MAC is eligible and on the allowlist at once.
abbrev is_conflict : String → Warning → Bool
is_conflict mac (reboot_eligible_in_allowlist m) = m == mac
is_conflict mac _ = false

unfoldable pub warned : String → List Warning → Bool
warned mac ws = any (is_conflict mac) ws

warned-append :
    (mac : String) (ws vs : List Warning) → warned mac (ws ++ vs) ≡ (warned mac ws || warned mac vs)
unfolding warned
warned-append mac [] vs = refl
warned-append mac (w ∷ ws) vs = ground (arith, warned-append mac ws vs)

warned-override_warnings :
    (mac : String) (eligible : List String) (os : List RebootOverride)
    → warned mac (override_warnings eligible os) ≡ false
unfolding warned override_warnings
warned-override_warnings mac eligible [] = refl
warned-override_warnings mac eligible (o ∷ os) =
    ground (arith, warned-override_warnings mac eligible os)

warned-inactivity_warnings :
    (mac : String) (allowlist macs : List String)
    → warned mac (inactivity_warnings allowlist macs) ≡ false
unfolding warned inactivity_warnings
warned-inactivity_warnings mac allowlist [] = refl
warned-inactivity_warnings mac allowlist (m ∷ ms) =
    ground (arith, warned-inactivity_warnings mac allowlist ms)

warned-step :
    (mac m : String) (listed espressif : Bool) (later : List Warning)
    → warned mac (
        if listed
        then reboot_eligible_in_allowlist m ∷ later
        else if espressif
        then later
        else reboot_eligible_non_espressif_oui m ∷ later)
      ≡ ((m == mac && listed) || warned mac later)
unfolding warned
warned-step mac m true espressif later = ground arith
warned-step mac m false true later = ground arith
warned-step mac m false false later = ground arith

hit_or_miss : (m mac : String) (p : String → Bool) → (m == mac && p m) ≡ (m == mac && p mac)
hit_or_miss m mac p = elim (Bool-cases (m == mac)) [
  | inl e ↦ rw ((eq_iff m mac).0 e)
  | inr e ↦ rw e
]

warned-eligible_warnings :
    (mac : String) (allowlist macs : List String)
    → warned mac (eligible_warnings allowlist macs)
      ≡ (contains mac macs && contains (normalize_mac mac) allowlist)
unfolding eligible_warnings warned
warned-eligible_warnings mac allowlist [] = refl
warned-eligible_warnings mac allowlist (m ∷ ms) =
    warned-step mac m (contains (normalize_mac m) allowlist) (looks_like_espressif m)
      (eligible_warnings allowlist ms)
    ∙ ground (
      arith,
      hit_or_miss m mac (λ n. contains (normalize_mac n) allowlist),
      warned-eligible_warnings mac allowlist ms,
    )

map-canonical : (ms : List String) → All IsCanonicalMac ms → map normalize_mac ms ≡ ms
map-canonical [] cs = refl
map-canonical (m ∷ ms) cs = rw ((cs.0).1, map-canonical ms (cs.1))

contains-map :
    (mac : String) (ms : List String)
    → contains mac ms ≡ true
    → contains (normalize_mac mac) (map normalize_mac ms) ≡ true
contains-map mac [] e = cc
contains-map mac (m ∷ ms) e = elim (Bool-cases (m == mac)) [
  | inl same ↦ rw ((eq_iff m mac).0 same, eq_refl (normalize_mac mac))
  | inr other ↦ ground (arith, contains-map mac ms (ground arith))
]

warned-advisories :
    (mac : String) (reboot : RebootConfig) (inactivity : InactivityConfig) (allowlist : List String)
    → contains mac reboot.eligible ≡ true
    → warned mac (advisories reboot inactivity allowlist) ≡ contains (normalize_mac mac) allowlist
unfolding advisories
warned-advisories mac reboot inactivity allowlist opted =
    let eligible = eligible_warnings allowlist reboot.eligible in
    let overrides = override_warnings (map normalize_mac reboot.eligible) reboot.overrides in
    let idle = inactivity_warnings allowlist inactivity.macs in
    ground (
      arith,
      warned-append mac eligible (overrides ++ idle),
      warned-append mac overrides idle,
      warned-eligible_warnings mac allowlist reboot.eligible,
      warned-override_warnings mac (map normalize_mac reboot.eligible) reboot.overrides,
      warned-inactivity_warnings mac allowlist inactivity.macs,
    )

not-is_reboot_eligible :
    (mac : String) (config : Config)
    → config.reboot.enabled ≡ true
    → contains mac config.reboot.eligible ≡ true
    → All IsCanonicalMac config.allowlist
    → not (is_reboot_eligible mac config) ≡ contains (normalize_mac mac) config.allowlist
unfolding is_reboot_eligible
not-is_reboot_eligible mac config on opted canonical =
    rw (on, map-canonical config.allowlist canonical, contains-map mac config.reboot.eligible opted)
      (ground arith)

-- In a configuration that the loader answered, with reboots enabled, a MAC of `reboot.eligible` that is
-- written as it is asked for gets the advisory `reboot_eligible_in_allowlist` exactly when
-- `is_reboot_eligible` turns it away.
pub warned_iff_ineligible :
    (show : Value → String) (zone_ok : String → Bool) (v : Value) (c : LoadedConfig)
    (ws : List Warning) (config : Config) (mac : String)
    → build_config_from_mapping show zone_ok v ≡ ok (c, ws)
    → as_config c ≡ ok config
    → config.reboot.enabled ≡ true
    → contains mac config.reboot.eligible ≡ true
    → warned mac ws ≡ not (is_reboot_eligible mac config)
warned_iff_ineligible show zone_ok v c ws config mac e e' on opted =
    let checked = build_config_from_mapping-IsChecked show zone_ok v c ws e in
    let kept = Ok-holds (as_config-Kept zone_ok c checked) e' in
    let canonical = subst (All IsCanonicalMac) (sym kept.allowlist) checked.allowlist in
    let opted' = subst (λ (r : RebootConfig). contains mac r.eligible ≡ true) kept.reboot opted in
    rw (
      build_config_from_mapping-advisories show zone_ok v c ws e,
      warned-advisories mac c.reboot c.inactivity c.allowlist opted',
      ← kept.allowlist,
      not-is_reboot_eligible mac config on opted canonical,
    )
