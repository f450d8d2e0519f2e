-- ===== src/Pipeline.antt =====
-- wifi_shepard/pipeline.py: the detectors and the actor of one controller, built from a configuration
-- and retuned in place. The source's fields `backoff` and `rate_limiter` are the objects that its
-- actor holds, so here they are the actor's.
use wifi_shepard.Prelude.{ℕ, Bool, true, false, Option, none, some, [], if◌then◌else◌}
use Prim.Native.Nat.{compare, Ordering}
use wifi_shepard.Actor.{Actor}
use wifi_shepard.Backoff.{BackoffManager}
use wifi_shepard.Config.{Config}
use wifi_shepard.Dict
use wifi_shepard.Inactivity
use wifi_shepard.Inactivity.{InactivityScorer}
use wifi_shepard.Pending
use wifi_shepard.RateLimit.{KickRateLimiter}
use wifi_shepard.Scorer
use wifi_shepard.Scorer.{Scorer}

pub record DetectionPipeline : Type 0 where
  pub scorer : Scorer
  pub inactivity : InactivityScorer
  pub actor : Actor

-- Equality of two window sizes.
abbrev pub same : ℕ → ℕ → Bool
same a b = elim (compare a b) [ Ordering.eq ↦ true | _ ↦ false ]

-- A new window size makes a new scorer; else the windows survive.
unfoldable pub retune_scorer : Config → Scorer → Scorer
retune_scorer config s =
    if same s.config.scanner.window_samples config.scanner.window_samples
    then record s { config = config }
    else Scorer.new config

unfoldable pub retune_inactivity : Config → InactivityScorer → InactivityScorer
retune_inactivity config s =
    if same s.config.detection.inactivity.window_samples config.detection.inactivity.window_samples
    then record s { config = config }
    else Inactivity.new config

abbrev pub retune_backoff : Config → Option BackoffManager → Option BackoffManager
retune_backoff config none = none
retune_backoff config (some b) =
    some (record b { quarantine_after_kicks = config.backoff.quarantine_after_kicks })

abbrev pub retune_limiter : Config → Option KickRateLimiter → Option KickRateLimiter
retune_limiter config none = none
retune_limiter config (some l) = some (record l {
  min_seconds_between_kicks = config.safety_rails.min_seconds_between_kicks;
  max_kicks_per_ap_per_window = config.safety_rails.max_kicks_per_ap_per_window;
  per_ap_window_seconds = config.safety_rails.per_ap_window_seconds;
})

unfoldable pub update_config : Config → DetectionPipeline → DetectionPipeline
unfolding retune_scorer retune_inactivity
update_config config p = record {
  scorer = retune_scorer config p.scorer;
  inactivity = retune_inactivity config p.inactivity;
  actor = record p.actor {
    config = config;
    backoff = retune_backoff config p.actor.backoff;
    rate_limiter = retune_limiter config p.actor.rate_limiter;
  };
}

-- `ha` tells whether a notifier is wired.
unfoldable pub build_pipeline : Config → Bool → DetectionPipeline
build_pipeline config ha = record {
  scorer = Scorer.new config;
  inactivity = Inactivity.new config;
  actor = record {
    config = config;
    ha = ha;
    backoff = some (record {
      states = Dict.empty;
      quarantine_after_kicks = config.backoff.quarantine_after_kicks;
    });
    rate_limiter = some (record {
      min_seconds_between_kicks = config.safety_rails.min_seconds_between_kicks;
      max_kicks_per_ap_per_window = config.safety_rails.max_kicks_per_ap_per_window;
      per_ap_window_seconds = config.safety_rails.per_ap_window_seconds;
      last_kick_at = none;
      per_ap_kicks = Dict.empty;
    });
    pending = Pending.new;
    dry_run_last_write = Dict.empty;
    db = [];
    trace = [];
  };
}
