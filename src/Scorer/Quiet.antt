-- ===== src/Scorer/Quiet.antt =====
-- The quiet hours and the bad-state test.
use wifi_shepard.Prelude.{
  ℕ, suc, ◌*◌, String, ◌≡◌, ◌≤◌, refl, true, false, Option, none, some, List, arith, ℤ, pos, negsuc,
  ◌*ℤ◌, ◌≤ℤ◌, ◌<ℤ◌, min_ℤ, max_ℤ, is_some,
}
use native.Mathlib.Nat.{mul-le-mul_right}
use wifi_shepard.Config.{QuietHoursConfig}
use wifi_shepard.Controller.{ClientSnapshot}
use wifi_shepard.Resolution.{Thresholds, apply_quiet_hours, tighten}
use wifi_shepard.Scorer.{is_bad_state, no_criterion}
use wifi_shepard.Scorer.Judgement.{Bad, Below, Retrying, no_criterion_iff, is_bad_state_iff}
use wifi_shepard.Window.{All-mono}

*ℤ-mono : (a b : ℤ) (n : ℕ) → a ≤ℤ b → (a *ℤ pos n) ≤ℤ (b *ℤ pos n)
unfolding ◌*ℤ◌
*ℤ-mono (pos x) (pos y) n h =
    let m : x * n ≤ y * n = mul-le-mul_right n (omega arith) in ground (arith, m)
*ℤ-mono (pos x) (negsuc y) n h = ground arith
*ℤ-mono (negsuc x) (pos y) n h = ground arith
*ℤ-mono (negsuc x) (negsuc y) n h =
    let m : suc y * n ≤ suc x * n = mul-le-mul_right n (omega arith) in ground (arith, m)

≤ℤ-<ℤ_trans : (a b c : ℤ) → a ≤ℤ b → b <ℤ c → a <ℤ c
≤ℤ-<ℤ_trans a b c h k = omega arith

*ℤ-mono_pos : (a b c : ℤ) → pos 0 <ℤ c → a ≤ℤ b → (a *ℤ c) ≤ℤ (b *ℤ c)
*ℤ-mono_pos a b (pos n) p h = *ℤ-mono a b n h
*ℤ-mono_pos a b (negsuc n) p h = omega arith

is_some-tighten : (f : ℤ → ℤ → ℤ) (q o : Option ℤ) → is_some (tighten f q o) ≡ is_some o
is_some-tighten f none o = refl
is_some-tighten f (some q) none = refl
is_some-tighten f (some q) (some m) = refl

-- The stricter of two limits.
Below-tighten : (v : ℤ) (q o : Option ℤ) → Below v (tighten min_ℤ q o) → Below v o
Below-tighten v none o h = h
Below-tighten v (some q) none h = tt
Below-tighten v (some q) (some m) h = ground arith

Retrying-weaken :
    (x : ClientSnapshot) (a b : ℤ) → a ≤ℤ b → Retrying x (some b) → Retrying x (some a)
Retrying-weaken x a b le h = (
  h.0,
  ≤ℤ-<ℤ_trans (a *ℤ x.wifi_tx_attempts) (b *ℤ x.wifi_tx_attempts) (x.tx_retries *ℤ pos 100)
      (*ℤ-mono_pos a b x.wifi_tx_attempts h.0 le) h.1,
)

Retrying-tighten :
    (x : ClientSnapshot) (q o : Option ℤ) → Retrying x (tighten max_ℤ q o) → Retrying x o
Retrying-tighten x none o h = h
Retrying-tighten x (some q) none h = tt
Retrying-tighten x (some q) (some m) h = Retrying-weaken x m (max_ℤ m q) (ground arith) h

Bad-apply_quiet_hours :
    (t : Thresholds) (q : QuietHoursConfig) (radios : List String) (x : ClientSnapshot)
    → Bad (apply_quiet_hours t q) radios x
    → Bad t radios x
unfolding apply_quiet_hours
Bad-apply_quiet_hours t q radios x b = record {
  radio = b.radio;
  saturated = b.saturated;
  signal = Below-tighten x.signal q.signal_dbm_max t.signal_dbm_max b.signal;
  tx_rate = Below-tighten x.tx_rate_kbps q.tx_rate_kbps_max t.tx_rate_kbps_max b.tx_rate;
  retries = Retrying-tighten x q.retry_pct_max t.retry_pct_max b.retries;
}

no_criterion-apply_quiet_hours :
    (t : Thresholds) (q : QuietHoursConfig)
    → no_criterion (apply_quiet_hours t q) ≡ false
    → no_criterion t ≡ false
unfolding apply_quiet_hours no_criterion
no_criterion-apply_quiet_hours t q h =
    let e = is_some-tighten min_ℤ q.signal_dbm_max t.signal_dbm_max in
    let f = is_some-tighten min_ℤ q.tx_rate_kbps_max t.tx_rate_kbps_max in
    let g = is_some-tighten max_ℤ q.retry_pct_max t.retry_pct_max in rw (← e, ← f, ← g) h

-- The quiet hours only make the scorer stricter: a window that is bad under the tightened thresholds
-- is bad under the client's own.
pub is_bad_state-apply_quiet_hours :
    (w : List ClientSnapshot) (t : Thresholds) (q : QuietHoursConfig) (radios : List String)
    → is_bad_state w (apply_quiet_hours t q) radios ≡ true
    → is_bad_state w t radios ≡ true
is_bad_state-apply_quiet_hours w t q radios h =
    let b = (is_bad_state_iff w (apply_quiet_hours t q) radios).0 h in
    (is_bad_state_iff w t radios).1 (
      b.0,
      (no_criterion_iff t).0
          (no_criterion-apply_quiet_hours t q ((no_criterion_iff (apply_quiet_hours t q)).1 b.1)),
      All-mono (Bad (apply_quiet_hours t q) radios) (Bad t radios)
          (Bad-apply_quiet_hours t q radios) w b.2,
    )
