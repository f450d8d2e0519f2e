-- ===== src/Scanner/Following.antt =====
-- The configuration that a scanner and its parts read, over a cycle and a reload.
use wifi_shepard.Actor.Steady.{threshold_of, limits_of}
use wifi_shepard.Config.{Config}
use wifi_shepard.Controller.{ClientSnapshot}
use wifi_shepard.Backoff.{BackoffManager}
use wifi_shepard.Dns.Detector.{DnsThrashDetector}
use wifi_shepard.Inactivity.{InactivityScorer}
use wifi_shepard.Pipeline
use wifi_shepard.Pipeline.{
  DetectionPipeline, retune_scorer, retune_inactivity, retune_backoff, retune_limiter,
  build_pipeline,
}
use wifi_shepard.Prelude.{
  ℕ, String, Option, none, some, List, ◌≡◌, refl, sym, ap, ◌∙◌, subst, Result, arith,
}
use wifi_shepard.RateLimit.{KickRateLimiter}
use wifi_shepard.Scanner
use wifi_shepard.Scanner.{Scanner, CycleEnv, run_once, retune_detector}
use wifi_shepard.Scanner.Cycle.{Agrees}
use wifi_shepard.Scanner.Steady.{Detects, run_once-Level}
use wifi_shepard.Scorer.{Scorer}

-- What is there is this.
abbrev pub Is : {A : Type 0} → Option A → A → Type 0
Is none a = Unit
Is (some b) a = b ≡ a

abbrev pub rails_of : Config → ℕ × ℕ × ℕ
rails_of c = (
  c.safety_rails.min_seconds_between_kicks, c.safety_rails.max_kicks_per_ap_per_window,
  c.safety_rails.per_ap_window_seconds,
)

-- A scanner all of whose parts read this configuration: its own field, the two detectors of its
-- pipeline, the actor with its counter and its limiter, and the DNS detector.
pub record Follows (config : Config) (s : Scanner) : Type 0 where
  pub own : s.config ≡ config
  pub scorer : s.pipeline.scorer.config ≡ config
  pub inactivity : s.pipeline.inactivity.config ≡ config
  pub actor : s.pipeline.actor.config ≡ config
  pub threshold : Is (threshold_of s.pipeline.actor.backoff) config.backoff.quarantine_after_kicks
  pub limits : Is (limits_of s.pipeline.actor.rate_limiter) (rails_of config)
  pub detector : Detects config s.detector

pub Follows-Agrees : (config : Config) (s : Scanner) → Follows config s → Agrees config.allowlist s
Follows-Agrees config s f = record {
  own = ap (λ (c : Config). c.allowlist) f.own;
  reads = record {
    by_scorer = ap (λ (c : Config). c.allowlist) f.scorer;
    by_inactivity = ap (λ (c : Config). c.allowlist) f.inactivity;
  };
}

pub run_once-Follows :
    (local_time : String → ℕ → Result ℕ) (e : CycleEnv) (answer : Result (List ClientSnapshot))
    (config : Config) (s : Scanner)
    → Follows config s
    → Follows config (run_once local_time e answer s).1
run_once-Follows local_time e answer config s f =
    let l = run_once-Level config e local_time answer s in
    let n = config.backoff.quarantine_after_kicks in
    record {
      own = l.own ∙ f.own;
      scorer = l.even.scorer ∙ f.scorer;
      inactivity = l.even.inactivity ∙ f.inactivity;
      actor = l.even.actor.config ∙ f.actor;
      threshold = subst (λ o. Is o n) (sym l.even.actor.threshold) f.threshold;
      limits = subst (λ o. Is o (rails_of config)) (sym l.even.actor.limits) f.limits;
      detector = l.detector f.detector;
    }

config-retune_scorer : (config : Config) (s : Scorer) → (retune_scorer config s).config ≡ config
unfolding retune_scorer
config-retune_scorer config s = ground arith

config-retune_inactivity :
    (config : Config) (s : InactivityScorer) → (retune_inactivity config s).config ≡ config
unfolding retune_inactivity
config-retune_inactivity config s = ground arith

threshold-retune :
    (config : Config) (o : Option BackoffManager)
    → Is (threshold_of (retune_backoff config o)) config.backoff.quarantine_after_kicks
threshold-retune config none = tt
threshold-retune config (some b) = refl

limits-retune :
    (config : Config) (o : Option KickRateLimiter)
    → Is (limits_of (retune_limiter config o)) (rails_of config)
limits-retune config none = tt
limits-retune config (some l) = refl

Detects-retune :
    (config : Config) (o : Option DnsThrashDetector) → Detects config (retune_detector config o)
Detects-retune config none = tt
Detects-retune config (some d) = refl

pub update_config-Follows :
    (config : Config) (s : Scanner) → Follows config (Scanner.update_config config s)
unfolding Scanner.update_config Pipeline.update_config
update_config-Follows config s = record {
  own = refl;
  scorer = config-retune_scorer config s.pipeline.scorer;
  inactivity = config-retune_inactivity config s.pipeline.inactivity;
  actor = refl;
  threshold = threshold-retune config s.pipeline.actor.backoff;
  limits = limits-retune config s.pipeline.actor.rate_limiter;
  detector = Detects-retune config s.detector;
}
