-- ===== src/Backoff/Reopens.antt =====
-- wifi_shepard/backoff.py: `evaluate_backoff` for a client whose kicks are long ago.
use wifi_shepard.Prelude.{
  ℕ, zero, suc, ◌+◌, ◌<◌, ◌≡◌, refl, List, [], ◌∷◌, arith, All, seconds, inl, inr,
}
use wifi_shepard.Backoff.{evaluate_backoff}
use wifi_shepard.Backoff.Gates.{Uncapped, Cooled, recently, longest, evaluate_backoff_iff}
use wifi_shepard.Verdict.{allowed}

-- Every kick is longer ago than this.
abbrev pub AreOlder : ℕ → ℕ → List ℕ → Type 0
AreOlder age now recent = All (λ t. t + age < now) recent

recently-old : (age now : ℕ) (ts : List ℕ) → AreOlder age now ts → recently age now ts ≡ []
recently-old age now [] old = refl
recently-old age now (t ∷ ts) old = ground (arith, recently-old age now ts (old.1))

AreOlder-less : (a b now : ℕ) (ts : List ℕ) → a < suc b → AreOlder b now ts → AreOlder a now ts
AreOlder-less a b now [] le old = tt
AreOlder-less a b now (t ∷ ts) le old = (omega (arith, old.0), AreOlder-less a b now ts le (old.1))

old-Uncapped :
    (window cap now : ℕ) (recent : List ℕ)
    → AreOlder window now recent
    → Uncapped window cap now recent
old-Uncapped window zero now recent old = inl refl
old-Uncapped window (suc cap) now recent old =
    inr (rw (recently-old window now recent old) (omega arith))

old-Cooled :
    (cooldowns : List ℕ) (now : ℕ) (recent : List ℕ)
    → AreOlder (seconds (longest cooldowns)) now recent
    → Cooled cooldowns now recent
old-Cooled [] now recent old = tt
old-Cooled (c ∷ cs) now recent old =
    rw (recently-old (seconds (longest (c ∷ cs))) now recent old) tt

-- Once every kick of a client is more than a day and more than the longest cooldown ago, the backoff
-- gate permits the next one, whatever the caps are.
pub evaluate_backoff-reopens :
    (recent cooldowns : List ℕ) (now max_per_hour max_per_day : ℕ)
    → AreOlder (seconds 86400) now recent
    → AreOlder (seconds (longest cooldowns)) now recent
    → evaluate_backoff recent now cooldowns max_per_hour max_per_day ≡ allowed
evaluate_backoff-reopens recent cooldowns now hour day aged cooled =
    (evaluate_backoff_iff recent cooldowns now hour day).1 (
      old-Uncapped (seconds 86400) day now recent aged,
      old-Uncapped (seconds 3600) hour now recent
          (AreOlder-less (seconds 3600) (seconds 86400) now recent (omega arith) aged),
      old-Cooled cooldowns now recent cooled,
    )
