-- ===== src/Scorer/Flags.antt =====
-- What a flag of `Scorer.ingest` says about the client.
use wifi_shepard.Prelude.{
  ℕ, String, ◌≡◌, ◌≢◌, ◌≤◌, refl, Bool, true, false, none, some, List, [], arith, length, contains,
  All, if◌then◌else◌, ltb, Bool-cases, inl, inr, Result, ok, raise, ap,
}
use wifi_shepard.Config.{Config}
use wifi_shepard.Controller.{ClientSnapshot}
use wifi_shepard.Mac.{normalize_mac}
use wifi_shepard.Resolution.{Thresholds, resolve_thresholds}
use wifi_shepard.Scorer.{
  Scorer, window, effective, decide, judge, ingest, is_bad_state, no_criterion, append_sample,
}
use wifi_shepard.Scorer.Judgement.{Bad, no_criterion_iff, is_bad_state_iff}

-- The client is not on the allowlist; its window, which ends with this sample, is full; a criterion of
-- the thresholds in force is active; and every sample of the window breaches all active ones.
pub record Flagged (local_time : String → ℕ → Result ℕ) (wall_now : ℕ) (s : Scorer)
    (client : ClientSnapshot) (t : Thresholds) : Type 0 where
  pub listed : contains (normalize_mac client.mac) s.config.allowlist ≡ false
  pub in_force :
      effective local_time wall_now s.config.quiet_hours (resolve_thresholds client.mac s.config)
      ≡ ok t
  pub full : s.config.scanner.window_samples ≤ length (window (append_sample s client) client.mac)
  pub sampled : window (append_sample s client) client.mac ≢ []
  pub active : no_criterion t ≡ false
  pub bad : All (Bad t s.config.detection.radios) (window (append_sample s client) client.mac)

decided :
    (short bad : Bool) (t u : Thresholds)
    → (if short then none else if bad then some t else none) ≡ some u
    → (t ≡ u) × (short ≡ false) × (bad ≡ true)
decided true bad t u e = cc
decided false true t u e = (cc, refl, refl)
decided false false t u e = cc

decide-some :
    (config : Config) (t u : Thresholds) (w : List ClientSnapshot)
    → decide config t w ≡ some u
    → (t ≡ u)
      × (config.scanner.window_samples ≤ length w)
      × (is_bad_state w t config.detection.radios ≡ true)
unfolding decide
decide-some config t u w e =
    let d =
      decided (ltb (length w) config.scanner.window_samples)
        (is_bad_state w t config.detection.radios) t u e in
    (d.0, ground (arith, d.1), d.2)

-- The judgement of a flag, with the thresholds that it answers.
record Judged (s : Scorer) (client : ClientSnapshot) (m : Result Thresholds) (u : Thresholds)
    : Type 0 where
  in_force : m ≡ ok u
  full : s.config.scanner.window_samples ≤ length (window (append_sample s client) client.mac)
  bad : is_bad_state (window (append_sample s client) client.mac) u s.config.detection.radios ≡ true

judge-Judged :
    (s : Scorer) (client : ClientSnapshot) (m : Result Thresholds) (u : Thresholds)
    → (judge s client m).0 ≡ ok (some u)
    → Judged s client m u
unfolding judge append_sample
judge-Judged s client (raise e) u h = cc
judge-Judged s client (ok t) u h =
    let d = decide-some s.config t u (window (append_sample s client) client.mac) cc in
    record { in_force = ap ok d.0; full = d.1; bad = rw (← d.0) d.2 }

-- A flag means that the client is not on the allowlist, that its window, which ends with this
-- sample, is full, that a criterion of the thresholds in force is active, and that every sample of
-- the window breaches each active one on a watched radio and a saturated access point.
pub ingest-Flagged :
    (local_time : String → ℕ → Result ℕ) (wall_now : ℕ) (s : Scorer) (client : ClientSnapshot)
    (t : Thresholds)
    → (ingest local_time wall_now s client).0 ≡ ok (some t)
    → Flagged local_time wall_now s client t
unfolding ingest
ingest-Flagged local_time wall_now s client t h =
    elim (Bool-cases (contains (normalize_mac client.mac) s.config.allowlist)) [
      | inl listed ↦ ground arith
      | inr free ↦
          let j =
            judge-Judged s client
              (effective local_time wall_now s.config.quiet_hours
                (resolve_thresholds client.mac s.config))
              t (ground arith) in
          let b = (is_bad_state_iff _ _ _).0 j.bad in
          record {
            listed = free;
            in_force = j.in_force;
            full = j.full;
            sampled = b.0;
            active = (no_criterion_iff t).1 b.1;
            bad = b.2;
          }
    ]
