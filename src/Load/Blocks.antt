-- ===== src/Load/Blocks.antt =====
-- wifi_shepard/config.py: the builders of the rails, the two detectors' blocks and the quiet hours,
-- against `Load.Valid`.

use wifi_shepard.Load.Checks.{
  require_bool, require_mac, require_sequence, require_mapping, require_text,
}
use wifi_shepard.Load.Hours.{
  build_quiet_hours, quiet_hours_of, known_zone, set_thresholds, OverrideThresholds,
}
use wifi_shepard.Load.Rails.{
  build_safety_rails, safety_rails_of, build_inactivity, inactivity_of, build_dns_thrash,
  dns_thrash_of, count_field,
}
use wifi_shepard.Load.Rules.{refuse-Ok, trivially, require_mac-Ok, require_schedule-Ok}
use wifi_shepard.Load.Valid.{IsCanonicalMac, IsRailed, IsWatching, IsSustained, IsTimed}
use wifi_shepard.Load.Yaml.{Value, Fields, null, bool, text, mapping, get, get_or}
use wifi_shepard.Mac.Idempotent.{normalize_mac-idempotent}
use wifi_shepard.Prelude.{
  ℕ, String, Bool, true, false, none, ◌≡◌, refl, arith, attribute_error, Ok, raised, returned, ◌▹◌,
  each-Ok, ltb, ◌&&◌, inl, inr, ◌⊎◌, ◌≤◌, Bool-cases, any-Ok, value_error,
}

pub require_mac-IsCanonicalMac : (v : Value) → Ok IsCanonicalMac (require_mac v)
require_mac-IsCanonicalMac = require_mac-Ok (λ s e. (e, normalize_mac-idempotent s))

none_or_positive :
    (b : Bool) (kicks window : ℕ)
    → ltb 0 kicks ≡ b
    → (b && ltb window 1) ≡ false
    → (kicks ≡ 0) ⊎ (1 ≤ window)
none_or_positive true kicks window e e' = inr (ground arith)
none_or_positive false kicks window e e' = inl (ground arith)

off_or_positive : (b : Bool) (n : ℕ) → (b && ltb n 1) ≡ false → (b ≡ false) ⊎ (1 ≤ n)
off_or_positive true n e = inr (ground arith)
off_or_positive false n e = inl refl

safety_rails_of-IsRailed : (raw : Fields) → Ok IsRailed (safety_rails_of raw)
unfolding safety_rails_of
safety_rails_of-IsRailed raw =
    trivially (count_field raw "min_seconds_between_kicks" 0) ▹ λ seconds _.
    trivially (count_field raw "max_kicks_per_ap_per_window" 0) ▹ λ kicks _.
    trivially (count_field raw "per_ap_window_seconds" 600) ▹ λ window _.
    refuse-Ok (ltb 0 kicks && ltb window 1) _
      (λ e. returned _ (none_or_positive (ltb 0 kicks) kicks window refl e))

pub build_safety_rails-IsRailed : (v : Value) → Ok IsRailed (build_safety_rails v)
unfolding build_safety_rails
build_safety_rails-IsRailed null = returned _ (inl refl)
build_safety_rails-IsRailed (mapping raw) = safety_rails_of-IsRailed raw
build_safety_rails-IsRailed _ = raised attribute_error

inactivity_of-IsWatching : (raw : Fields) → Ok IsWatching (inactivity_of raw)
unfolding inactivity_of
inactivity_of-IsWatching raw =
    trivially (require_bool (get_or raw "enabled" (bool false))) ▹ λ enabled _.
    trivially (count_field raw "min_bytes_per_window" 1024) ▹ λ bytes _.
    trivially (count_field raw "window_samples" 30) ▹ λ samples _.
    refuse-Ok (enabled && ltb samples 1) _ (λ e.
      trivially (require_sequence (get raw "macs")) ▹ λ items _.
      each-Ok require_mac-IsCanonicalMac items ▹ λ macs canonical.
      returned _ (off_or_positive enabled samples e, canonical))

pub build_inactivity-IsWatching : (v : Value) → Ok IsWatching (build_inactivity v)
unfolding build_inactivity
build_inactivity-IsWatching null = returned _ (inl refl, tt)
build_inactivity-IsWatching raw =
    trivially (require_mapping raw) ▹ λ fields _. inactivity_of-IsWatching fields

dns_thrash_of-IsSustained : (raw : Fields) → Ok IsSustained (dns_thrash_of raw)
unfolding dns_thrash_of
dns_thrash_of-IsSustained raw =
    trivially (count_field raw "same_domain_queries_max" 20) ▹ λ queries _.
    trivially (count_field raw "window_minutes" 60) ▹ λ minutes _.
    trivially (count_field raw "sustain_windows" 2) ▹ λ windows _.
    refuse-Ok (ltb minutes 1) _
      (λ e. refuse-Ok (ltb windows 1) _ (λ e'. returned _ (ground arith, ground arith)))

pub build_dns_thrash-IsSustained : (v : Value) → Ok IsSustained (build_dns_thrash v)
unfolding build_dns_thrash
build_dns_thrash-IsSustained null = returned none tt
build_dns_thrash-IsSustained raw =
    trivially (require_mapping raw) ▹ λ fields _. dns_thrash_of-IsSustained fields

abbrev unset : OverrideThresholds
unset = record { tx_rate_kbps_max = none; retry_pct_max = none; signal_dbm_max = none }

module _ (zone_ok : String → Bool) where
  known_zone-Ok :
      (zone : String) (v : Value) → Ok (λ _. zone_ok zone ≡ true) (known_zone zone_ok zone v)
  unfolding known_zone
  known_zone-Ok zone v = elim (Bool-cases (zone_ok zone)) [
    | inl e ↦ rw e (any-Ok _ (λ _. refl))
    | inr e ↦ rw e (raised value_error)
  ]

  quiet_hours_of-IsTimed : (raw : Fields) → Ok (IsTimed zone_ok) (quiet_hours_of zone_ok raw)
  unfolding quiet_hours_of
  quiet_hours_of-IsTimed raw = trivially (require_text (get raw "start")) ▹ λ start _.
      trivially (require_text (get raw "end")) ▹ λ stop _.
      trivially (require_text (get raw "timezone")) ▹ λ zone _.
      require_schedule-Ok (text start) ▹ λ first timed.
      require_schedule-Ok (text stop) ▹ λ last timed'.
      known_zone-Ok zone (get raw "override_threshold") ▹ λ fields known.
      trivially (set_thresholds fields unset) ▹ λ t _. returned _ (timed, timed', known)

  pub build_quiet_hours-IsTimed : (v : Value) → Ok (IsTimed zone_ok) (build_quiet_hours zone_ok v)
  unfolding build_quiet_hours
  build_quiet_hours-IsTimed null = returned none tt
  build_quiet_hours-IsTimed raw =
      trivially (require_mapping raw) ▹ λ fields _. quiet_hours_of-IsTimed fields
