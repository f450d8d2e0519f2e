-- ===== src/Tests/Gates.antt =====
-- The gates at concrete histories.
use wifi_shepard.Prelude.{[], ◌∷◌, ◌≡◌, ◌↔◌, seconds, arith}
use wifi_shepard.Backoff.{evaluate_backoff}
use wifi_shepard.Backoff.Reopens
use wifi_shepard.Backoff.Gates
use wifi_shepard.Backoff.Gates.{Uncapped, Cooled}
use wifi_shepard.Verdict.{allowed}

-- Two kicks, a minute and ten minutes ago, under a ladder of two rungs.
evaluate_backoff_iff_example :
    (evaluate_backoff (400000000 ∷ 940000000 ∷ []) 1000000000 (60 ∷ 600 ∷ []) 4 0 ≡ allowed) ↔ (
      Uncapped (seconds 86400) 0 1000000000 (400000000 ∷ 940000000 ∷ [])
      × Uncapped (seconds 3600) 4 1000000000 (400000000 ∷ 940000000 ∷ [])
      × Cooled (60 ∷ 600 ∷ []) 1000000000 (400000000 ∷ 940000000 ∷ []))
evaluate_backoff_iff_example =
    Gates.evaluate_backoff_iff (400000000 ∷ 940000000 ∷ []) (60 ∷ 600 ∷ []) 1000000000 4 0

-- Two kicks, three days ago.
evaluate_backoff-reopens_example :
    evaluate_backoff (400000000 ∷ 940000000 ∷ []) 300000000000 (60 ∷ 600 ∷ []) 1 1 ≡ allowed
evaluate_backoff-reopens_example =
    Reopens.evaluate_backoff-reopens (400000000 ∷ 940000000 ∷ []) (60 ∷ 600 ∷ []) 300000000000 1 1
      (omega arith, (omega arith, tt)) (omega arith, (omega arith, tt))
