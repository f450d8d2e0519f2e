-- ===== src/Tests/Scorer.antt =====
-- The scorer at a weak client.
use wifi_shepard.Prelude.{
  Result, [], ◌∷◌, true, false, refl, ◌≡◌, ◌≢◌, ◌↔◌, ok, some, none, All, ℕ, String, pos, negsuc,
  ◌*ℤ◌, List, ◌≤◌, length,
}
use wifi_shepard.Config.{QuietHoursConfig}
use wifi_shepard.Controller.{ClientSnapshot}
use wifi_shepard.Dict.{empty, get_or, put}
use wifi_shepard.Mac.{normalize_mac}
use wifi_shepard.Rationale.{build_kick_rationale, rf, rf_evidence, observed, recorded}
use wifi_shepard.Rationale.Truth
use wifi_shepard.Rationale.Truth.{active_criteria}
use wifi_shepard.Resolution.{resolve_thresholds, find_override, apply_quiet_hours}
use wifi_shepard.Scorer.{
  is_bad_state, any_clears, clears, no_criterion, retry_ok, ingest, judge, decide, effective,
  append_sample, window, new,
}
use wifi_shepard.Scorer.Windows
use wifi_shepard.Scorer.Flags
use wifi_shepard.Scorer.Windows
use wifi_shepard.Scorer.Flags.{Flagged}
use wifi_shepard.Scorer.Judgement
use wifi_shepard.Scorer.Judgement.{Bad}
use wifi_shepard.Scorer.Quiet
use wifi_shepard.Tests.Fixtures.{weak, limits, half_full, config_with}

abbrev midnight : String → ℕ → Result ℕ
midnight zone now = ok 0

is_bad_state_iff_example : (is_bad_state (weak ∷ weak ∷ []) limits ("ng" ∷ []) ≡ true) ↔ (
    (weak ∷ weak ∷ [] ≢ [])
    × Judgement.HasCriterion limits
    × All (Bad limits ("ng" ∷ [])) (weak ∷ weak ∷ []))
is_bad_state_iff_example = Judgement.is_bad_state_iff (weak ∷ weak ∷ []) limits ("ng" ∷ [])

half_full-flag : (ingest midnight 0 half_full weak).0 ≡ ok (some limits)
unfolding ingest judge decide effective append_sample resolve_thresholds find_override normalize_mac
    empty get_or put ◌*ℤ◌ is_bad_state any_clears clears no_criterion retry_ok
half_full-flag = refl

ingest-Flagged_example : Flagged midnight 0 half_full weak limits
ingest-Flagged_example = Flags.ingest-Flagged midnight 0 half_full weak limits half_full-flag

evidence-ingest_example :
    (build_kick_rationale weak (rf limits) half_full.config).evidence
    ≡ rf_evidence (observed weak) (recorded limits) ("signal" ∷ "retry_pct" ∷ [])
evidence-ingest_example = Truth.evidence-ingest midnight 0 half_full weak limits half_full-flag

abbrev night : QuietHoursConfig
night = record {
  start_time = "22:00";
  end_time = "06:00";
  timezone = "UTC";
  tx_rate_kbps_max = none;
  retry_pct_max = some (pos 30);
  signal_dbm_max = some (negsuc 77);
}

weak-night : is_bad_state (weak ∷ []) (apply_quiet_hours limits night) ("ng" ∷ []) ≡ true
unfolding is_bad_state any_clears apply_quiet_hours clears retry_ok no_criterion ◌*ℤ◌
weak-night = refl

is_bad_state-apply_quiet_hours_example : is_bad_state (weak ∷ []) limits ("ng" ∷ []) ≡ true
is_bad_state-apply_quiet_hours_example =
    Quiet.is_bad_state-apply_quiet_hours (weak ∷ []) limits night ("ng" ∷ []) weak-night

-- Four samples, one of them of another client; the window takes two.
abbrev samples : List (ℕ × ClientSnapshot)
samples =
    (1, weak)
    ∷ (2, record weak { mac = "bb" })
    ∷ (3, record weak { signal = negsuc 89 })
    ∷ (4, weak)
    ∷ []

window-run_example :
    (window (Windows.run midnight (new (config_with false)) samples) weak.mac
      ≡ Windows.latest 2 (Windows.taken midnight (config_with false) weak.mac samples))
    × (length (window (Windows.run midnight (new (config_with false)) samples) weak.mac) ≤ 2)
window-run_example = Windows.window-run midnight (config_with false) samples weak.mac
