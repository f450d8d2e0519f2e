-- ===== src/Scorer/Judgement.antt =====
-- The bad-state test, said sample by sample.
use wifi_shepard.Prelude.{
  String, ◌≡◌, ◌≢◌, refl, Bool, true, false, not, ◌||◌, Option, none, some, List, [], ◌∷◌, arith, ℤ,
  pos, ◌*ℤ◌, ◌≤ℤ◌, ◌<ℤ◌, ltb_ℤ, leb_ℤ, contains, All, ◌↔◌, ◌⊎◌, inl, inr, is_some,
}
use wifi_shepard.Controller.{ClientSnapshot}
use wifi_shepard.Resolution.{Thresholds}
use wifi_shepard.Scorer.{at_least, retry_ok, clears, any_clears, no_criterion, is_bad_state}

abbrev pub Below : ℤ → Option ℤ → Type 0
Below v none = Unit
Below v (some max) = v <ℤ max

-- There were attempts, and more than `max` percent of them were retries.
abbrev pub Retrying : ClientSnapshot → Option ℤ → Type 0
Retrying x none = Unit
Retrying x (some max) =
    (pos 0 <ℤ x.wifi_tx_attempts) × (max *ℤ x.wifi_tx_attempts <ℤ x.tx_retries *ℤ pos 100)

-- A sample on a watched radio and a saturated access point that breaches each active criterion.
pub record Bad (t : Thresholds) (radios : List String) (x : ClientSnapshot) : Type 0 where
  pub radio : contains x.radio radios ≡ true
  pub saturated : pos t.ap_cu_total_min ≤ℤ x.ap_cu_total
  pub signal : Below x.signal t.signal_dbm_max
  pub tx_rate : Below x.tx_rate_kbps t.tx_rate_kbps_max
  pub retries : Retrying x t.retry_pct_max

or-false : (b c : Bool) → (b || c) ≡ false → (b ≡ false) × (c ≡ false)
or-false true c e = cc
or-false false c e = (refl, e)

at_least_iff : (v : ℤ) (o : Option ℤ) → (at_least v o ≡ false) ↔ Below v o
at_least_iff v none = (λ e. tt, λ h. refl)
at_least_iff v (some max) = (λ e. ground arith, λ h. ground arith)

retry_ok_iff : (x : ClientSnapshot) (o : Option ℤ) → (retry_ok x o ≡ false) ↔ Retrying x o
unfolding retry_ok
retry_ok_iff x none = (λ e. tt, λ h. refl)
retry_ok_iff x (some max) = (
  λ e.
      let p =
        or-false (leb_ℤ x.wifi_tx_attempts (pos 0))
          (leb_ℤ (x.tx_retries *ℤ pos 100) (max *ℤ x.wifi_tx_attempts)) e in
      (ground (arith, p.0), ground (arith, p.1)),
  λ h. ground (arith, h.0, h.1),
)

clears_iff :
    (x : ClientSnapshot) (t : Thresholds) (radios : List String)
    → (clears x t radios ≡ false) ↔ Bad t radios x
unfolding clears
clears_iff x t radios = (
  λ e.
      let p = or-false _ _ e in
      let q = or-false _ _ p.0 in
      let r = or-false _ _ q.0 in
      let u =
        or-false (not (contains x.radio radios)) (ltb_ℤ x.ap_cu_total (pos t.ap_cu_total_min))
          r.0 in
      record {
        radio = ground (arith, u.0);
        saturated = ground (arith, u.1);
        signal = (at_least_iff x.signal t.signal_dbm_max).0 r.1;
        tx_rate = (at_least_iff x.tx_rate_kbps t.tx_rate_kbps_max).0 q.1;
        retries = (retry_ok_iff x t.retry_pct_max).0 p.1;
      },
  λ b.
      rw
        (
          b.radio,
          (at_least_iff x.signal t.signal_dbm_max).1 b.signal,
          (at_least_iff x.tx_rate_kbps t.tx_rate_kbps_max).1 b.tx_rate,
          (retry_ok_iff x t.retry_pct_max).1 b.retries,
        )
        (ground (arith, b.saturated)),
)

any_clears_iff :
    (w : List ClientSnapshot) (t : Thresholds) (radios : List String)
    → (any_clears w t radios ≡ false) ↔ All (Bad t radios) w
unfolding any_clears
any_clears_iff [] t radios = (λ e. tt, λ h. refl)
any_clears_iff (x ∷ w) t radios = (
  λ e. let p = or-false _ _ e in ((clears_iff x t radios).0 p.0, (any_clears_iff w t radios).0 p.1),
  λ h. rw ((clears_iff x t radios).1 h.0, (any_clears_iff w t radios).1 h.1) refl,
)

-- One of the three per-client criteria is set.
abbrev pub HasCriterion : Thresholds → Type 0
HasCriterion t = (t.signal_dbm_max ≢ none) ⊎ (t.tx_rate_kbps_max ≢ none) ⊎ (t.retry_pct_max ≢ none)

HasCriterion_iff :
    (signal rate retry : Option ℤ)
    → (not (is_some signal || is_some rate || is_some retry) ≡ false)
      ↔ ((signal ≢ none) ⊎ (rate ≢ none) ⊎ (retry ≢ none))
HasCriterion_iff (some v) rate retry = (λ e. inl (λ p. cc), λ h. refl)
HasCriterion_iff none (some v) retry = (λ e. inr (inl (λ p. cc)), λ h. refl)
HasCriterion_iff none none (some v) = (λ e. inr (inr (λ p. cc)), λ h. refl)
HasCriterion_iff none none none = (
  λ e. cc,
  λ h. elim h [
    | inl a ↦ absurd (a refl)
    | inr rest ↦ elim rest [ inl a ↦ absurd (a refl) | inr a ↦ absurd (a refl) ]
  ],
)

pub no_criterion_iff : (t : Thresholds) → (no_criterion t ≡ false) ↔ HasCriterion t
unfolding no_criterion
no_criterion_iff t = HasCriterion_iff t.signal_dbm_max t.tx_rate_kbps_max t.retry_pct_max

-- A window is bad exactly when it has a sample, one of the criteria on the signal, the rate and the
-- retries is set, and every one of its samples lies on a watched radio and a saturated access point
-- and breaches each criterion that is set.
pub is_bad_state_iff :
    (w : List ClientSnapshot) (t : Thresholds) (radios : List String)
    → (is_bad_state w t radios ≡ true) ↔ ((w ≢ []) × HasCriterion t × All (Bad t radios) w)
unfolding is_bad_state
is_bad_state_iff [] t radios = (λ e. cc, λ h. absurd (h.0 refl))
is_bad_state_iff (x ∷ w) t radios =
    let every = any_clears_iff (x ∷ w) t radios in
    (
      λ e. (λ p. cc, (no_criterion_iff t).0 (ground arith), every.0 (ground arith)),
      λ h. rw ((no_criterion_iff t).1 h.1, every.1 h.2) refl,
    )
