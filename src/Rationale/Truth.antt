-- ===== src/Rationale/Truth.antt =====
-- The evidence of an RF kick agrees with the test that flagged the client.
use wifi_shepard.Prelude.{
  Result, ℕ, String, ◌≡◌, ◌≢◌, ◌≤◌, refl, Option, none, some, List, [], ◌∷◌, ◌++◌, arith, length,
  drop, All, ap, ◌∙◌, eq_refl, ok, push_bounded, suc, ◌-◌, is_some, ℤ,
}
use wifi_shepard.Controller.{ClientSnapshot}
use wifi_shepard.Dict.{get_or-put}
use wifi_shepard.Rationale.{
  breached, when, below, above, retry_pct_raw, evidence, build_kick_rationale, rf, rf_evidence,
  observed, recorded,
}
use wifi_shepard.Resolution.{Thresholds}
use wifi_shepard.Scorer.{Scorer, window, ingest, append_sample}
use wifi_shepard.Scorer.Flags.{ingest-Flagged, Flagged}
use wifi_shepard.Scorer.Judgement.{Bad, Below, Retrying}

-- The names of the criteria that are switched on, in the order of the evidence.
abbrev pub active_criteria : Thresholds → List String
active_criteria t =
    when (is_some t.signal_dbm_max) "signal"
    ++ (when (is_some t.tx_rate_kbps_max) "tx_rate_kbps"
        ++ when (is_some t.retry_pct_max) "retry_pct")

below-active : (v : ℤ) (o : Option ℤ) → Below v o → below v o ≡ is_some o
unfolding below
below-active v none h = refl
below-active v (some max) h = ground arith

above-active :
    (x : ClientSnapshot) (o : Option ℤ) → Retrying x o → above (retry_pct_raw x) o ≡ is_some o
unfolding above retry_pct_raw
above-active x none h = ground arith
above-active x (some max) h = ground (arith, h.0, h.1)

breached-active :
    (t : Thresholds) (radios : List String) (x : ClientSnapshot)
    → Bad t radios x
    → breached x t ≡ active_criteria t
unfolding breached
breached-active t radios x b =
    rw
      (
        below-active x.signal t.signal_dbm_max b.signal,
        below-active x.tx_rate_kbps t.tx_rate_kbps_max b.tx_rate,
        above-active x t.retry_pct_max b.retries,
      )
      refl

drop-All-last {ℓ} :
    {A : Type 0} (P : A → Type ℓ) (k : ℕ) (xs : List A) (x : A)
    → All P (drop k (xs ++ x ∷ []))
    → k ≤ length xs
    → P x
drop-All-last P ℕ.zero [] x h le = h.0
drop-All-last P ℕ.zero (y ∷ ys) x h le = drop-All-last P 0 ys x h.1 (omega arith)
drop-All-last P (suc k) [] x h le = ground arith
drop-All-last P (suc k) (y ∷ ys) x h le = drop-All-last P k ys x h (omega arith)

drop_all : {A : Type 0} (xs : List A) (x : A) → drop (suc (length xs)) (xs ++ x ∷ []) ≡ []
drop_all [] x = refl
drop_all (y ∷ ys) x = drop_all ys x

-- What holds of a whole window holds of the sample that was appended last.
push_bounded-All-last {ℓ} :
    {A : Type 0} (P : A → Type ℓ) (n : ℕ) (xs : List A) (x : A)
    → push_bounded n xs x ≢ []
    → All P (push_bounded n xs x)
    → P x
push_bounded-All-last P ℕ.zero xs x ne h =
    let e : suc (length xs) - 0 ≡ suc (length xs) = omega arith in
    absurd (ne (ap (λ k. drop k (xs ++ x ∷ [])) e ∙ drop_all xs x))
push_bounded-All-last P (suc n) xs x ne h =
    drop-All-last P (suc (length xs) - suc n) xs x h (omega arith)

window-append_sample :
    (s : Scorer) (client : ClientSnapshot)
    → window (append_sample s client) client.mac
      ≡ push_bounded s.config.scanner.window_samples (window s client.mac) client
unfolding append_sample
window-append_sample s client = rw (get_or-put, eq_refl client.mac) refl

Flagged-Bad :
    (local_time : String → ℕ → Result ℕ) (wall_now : ℕ) (s : Scorer) (client : ClientSnapshot)
    (t : Thresholds)
    → Flagged local_time wall_now s client t
    → Bad t s.config.detection.radios client
Flagged-Bad local_time wall_now s client t f =
    let e = window-append_sample s client in
    push_bounded-All-last (Bad t s.config.detection.radios) s.config.scanner.window_samples
      (window s client.mac) client (rw (← e) f.sampled) (rw (← e) f.bad)

-- Where the scorer flags a client, the evidence of the kick names every criterion that is switched
-- on, and no other, as breached by the sample that it was flagged on.
pub evidence-ingest :
    (local_time : String → ℕ → Result ℕ) (wall_now : ℕ) (s : Scorer) (client : ClientSnapshot)
    (t : Thresholds)
    → (ingest local_time wall_now s client).0 ≡ ok (some t)
    → (build_kick_rationale client (rf t) s.config).evidence
      ≡ rf_evidence (observed client) (recorded t) (active_criteria t)
unfolding build_kick_rationale evidence
evidence-ingest local_time wall_now s client t h =
    let f = ingest-Flagged local_time wall_now s client t h in
    let b = Flagged-Bad local_time wall_now s client t f in
    rw (breached-active t s.config.detection.radios client b) refl
