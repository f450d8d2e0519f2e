-- ===== src/Verdict.antt =====
-- The answer of the three gates, rate_limit.py, backoff.py and reboot/cooldown.py:
-- `(True, None, None)`, or `(False, reason, retry_after)` with the wait in microseconds.
use wifi_shepard.Prelude.{ℕ, String, ◌≡◌, refl, Bool, true, false, ◌⊎◌, inl, inr}

pub data Verdict : Type 0 where
  allowed : Verdict
  denied : String → ℕ → Verdict

abbrev pub is_allowed : Verdict → Bool
is_allowed allowed = true
is_allowed (denied _ _) = false

-- `if not allowed: return …` before the next gate
abbrev pub and_then : Verdict → Verdict → Verdict
and_then allowed v = v
and_then (denied reason retry) v = denied reason retry

pub Verdict-cases :
    (v : Verdict) → (v ≡ allowed) ⊎ ((reason : String) × (retry : ℕ) × (v ≡ denied reason retry))
Verdict-cases allowed = inl refl
Verdict-cases (denied reason retry) = inr (reason, retry, refl)
