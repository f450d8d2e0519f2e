-- ===== src/Actor/Steady.antt =====
-- What an actor is configured with, over its calls.
use wifi_shepard.Actor.{
  Actor, Act, Env, continue, insert_row, quarantined, ask_quarantine, notify_quarantine,
  notify_once, deauth_fallback, backoff_gate, limiter_gate, ask_limiter, send_kick, commit_kick,
  fresh_kick, live_kick, act_on, dry_run_kick, handle, after_kick, answer, check_post_kick_outcome,
  settle, dispatch_mechanism,
}
use wifi_shepard.Backoff
use wifi_shepard.Backoff.{BackoffManager}
use wifi_shepard.Controller.{ClientSnapshot}
use wifi_shepard.Pending
use wifi_shepard.Pending.{Btm, Outcome}
use wifi_shepard.Prelude.{
  ◌==◌, ℕ, ◌≡◌, refl, ◌∙◌, String, Result, ok, raise, Option, none, some, if_intro, arith,
}
use wifi_shepard.RateLimit
use wifi_shepard.RateLimit.{KickRateLimiter}
use wifi_shepard.Rationale.{Decision, Rationale}
use wifi_shepard.Resolution.{resolve_kick_mechanism}
use wifi_shepard.Verdict.{Verdict, allowed, denied}

-- The number of kicks that quarantines a client.
abbrev pub threshold_of : Option BackoffManager → Option ℕ
threshold_of none = none
threshold_of (some b) = some b.quarantine_after_kicks

-- The gap, the cap and the window of the limiter.
abbrev pub limits_of : Option KickRateLimiter → Option (ℕ × ℕ × ℕ)
limits_of none = none
limits_of (some l) =
    some (l.min_seconds_between_kicks, l.max_kicks_per_ap_per_window, l.per_ap_window_seconds)

-- The same settings in two states.
pub record Steady (a b : Actor) : Type 0 where
  pub config : b.config ≡ a.config
  pub threshold : threshold_of b.backoff ≡ threshold_of a.backoff
  pub limits : limits_of b.rate_limiter ≡ limits_of a.rate_limiter

pub Steady-refl : (a : Actor) → Steady a a
Steady-refl a = record { config = refl; threshold = refl; limits = refl }

pub Steady-trans : (a b c : Actor) → Steady a b → Steady b c → Steady a c
Steady-trans a b c p q = record {
  config = q.config ∙ p.config;
  threshold = q.threshold ∙ p.threshold;
  limits = q.limits ∙ p.limits;
}

bind-Steady :
    {A B : Type 0} (a b : Actor) (r : Result A) (f : A → Act B)
    → Steady a b
    → ((x : A) → Steady b (f x b).1)
    → Steady a (continue r f b).1
bind-Steady a b (ok x) f p q = Steady-trans a b (f x b).1 p (q x)
bind-Steady a b (raise e) f p q = p

limits-record_kick :
    (l : KickRateLimiter) (ap : String) (now : ℕ)
    → limits_of (some (RateLimit.record_kick l ap now)) ≡ limits_of (some l)
unfolding RateLimit.record_kick RateLimit.record_wire_call RateLimit.prune
limits-record_kick l ap now = ground arith

limits-record_wire_call :
    (l : KickRateLimiter) (now : ℕ)
    → limits_of (some (RateLimit.record_wire_call l now)) ≡ limits_of (some l)
unfolding RateLimit.record_wire_call
limits-record_wire_call l now = refl

after_global-limits :
    (l : KickRateLimiter) (ap : String) (now : ℕ) (v : Verdict)
    → limits_of (some (RateLimit.after_global l ap now v).1) ≡ limits_of (some l)
unfolding RateLimit.after_global RateLimit.check_ap RateLimit.prune
after_global-limits l ap now allowed = ground arith
after_global-limits l ap now (denied r x) = refl

limits-can_kick :
    (l : KickRateLimiter) (ap : String) (now : ℕ)
    → limits_of (some (RateLimit.can_kick l ap now).1) ≡ limits_of (some l)
unfolding RateLimit.can_kick
limits-can_kick l ap now = after_global-limits l ap now (RateLimit.check_global l now)

module _ (env : Env) (client : ClientSnapshot) where
  limits-after_kick :
      (o : Option KickRateLimiter) → limits_of (after_kick env client o) ≡ limits_of o
  limits-after_kick none = refl
  limits-after_kick (some l) = limits-record_kick l client.ap_id env.wire_now

  dry_run_kick-Steady :
      (mechanism trigger : String) (r : Rationale) (a : Actor)
      → Steady a (dry_run_kick env client mechanism trigger r a).1
  unfolding dry_run_kick insert_row
  dry_run_kick-Steady mechanism trigger r a = record {
    config = ground arith;
    threshold = ground arith;
    limits = ground arith;
  }

  ask_quarantine-Steady :
      (o : Option BackoffManager) (a : Actor)
      → a.backoff ≡ o
      → Steady a (ask_quarantine env client o a).1
  unfolding Backoff.should_quarantine Backoff.entry
  ask_quarantine-Steady none a e = Steady-refl a
  ask_quarantine-Steady (some b) a e = record {
    config = refl;
    threshold = rw e refl;
    limits = refl;
  }

  notify_once-Steady :
      (o : Option BackoffManager) (a : Actor)
      → a.backoff ≡ o
      → Steady a (notify_once env client o a).1
  unfolding Backoff.quarantine_notified Backoff.mark_quarantine_notified Backoff.entry
  notify_once-Steady none a e = Steady-refl a
  notify_once-Steady (some b) a e = record {
    config = ground arith;
    threshold = ground (arith, e);
    limits = ground arith;
  }

  notify_quarantine-Steady : (a : Actor) → Steady a (notify_quarantine env client a).1
  unfolding notify_quarantine
  notify_quarantine-Steady a =
      if_intro (λ (m : Act (Unit {0})). Steady a (m a).1) a.ha _ _
        (λ _. notify_once-Steady a.backoff a refl) (λ _. Steady-refl a)

  answer-Steady :
      (stage : String) (v : Verdict) (a : Actor) → Steady a (answer env client stage v a).1
  answer-Steady stage allowed a = Steady-refl a
  answer-Steady stage (denied reason retry) a = record {
    config = refl;
    threshold = refl;
    limits = refl;
  }

  ask_limiter-Steady :
      (o : Option KickRateLimiter) (a : Actor)
      → a.rate_limiter ≡ o
      → Steady a (ask_limiter env client o a).1
  ask_limiter-Steady none a e = Steady-refl a
  ask_limiter-Steady (some l) a e =
      let (verdict, l') = RateLimit.can_kick l client.ap_id env.gate_now in
      let kept : Steady a (record a { rate_limiter = some l' }) = record {
        config = refl;
        threshold = refl;
        limits = rw e (limits-can_kick l client.ap_id env.gate_now);
      } in
      Steady-trans a (record a { rate_limiter = some l' }) _ kept
        (answer-Steady "fresh" verdict (record a { rate_limiter = some l' }))

  limiter_gate-Steady : (a : Actor) → Steady a (limiter_gate env client a).1
  unfolding limiter_gate
  limiter_gate-Steady a = ask_limiter-Steady a.rate_limiter a refl

  backoff_gate-Steady : (a : Actor) → Steady a (backoff_gate env client a).1
  unfolding backoff_gate
  backoff_gate-Steady a = record {
    config = ground arith;
    threshold = ground arith;
    limits = ground arith;
  }

  deauth_fallback-Steady :
      (p : Btm) (trigger : String) (a : Actor) → Steady a (deauth_fallback env client p trigger a).1
  unfolding deauth_fallback insert_row RateLimit.record_wire_call
  deauth_fallback-Steady p trigger a = record {
    config = ground arith;
    threshold = ground arith;
    limits = ground arith;
  }

  send_kick-Steady :
      (mechanism : String) (a : Actor) → Steady a (send_kick env client mechanism a).1
  unfolding send_kick
  send_kick-Steady mechanism a = record {
    config = ground arith;
    threshold = ground arith;
    limits = ground arith;
  }

  commit_kick-Steady :
      (mechanism trigger : String) (r : Rationale) (a : Actor)
      → Steady a (commit_kick env client mechanism trigger r a).1
  unfolding commit_kick insert_row Backoff.record_kick Backoff.entry
  commit_kick-Steady mechanism trigger r a = record {
    config = ground arith;
    threshold = ground arith;
    limits = ground (arith, limits-after_kick a.rate_limiter);
  }

  fresh_kick-Steady :
      (mechanism trigger : String) (r : Rationale) (a : Actor)
      → Steady a (fresh_kick env client mechanism trigger r a).1
  unfolding fresh_kick
  fresh_kick-Steady mechanism trigger r a =
      bind-Steady a (backoff_gate env client a).1 (backoff_gate env client a).0 _
        (backoff_gate-Steady a)
        (λ permitted.
          let b = (backoff_gate env client a).1 in
          if_intro (λ (m : Act (Unit {0})). Steady b (m b).1) permitted _ _
            (λ _.
              bind-Steady b (limiter_gate env client b).1 (limiter_gate env client b).0 _
                (limiter_gate-Steady b)
                (λ free.
                  let c = (limiter_gate env client b).1 in
                  if_intro (λ (m : Act (Unit {0})). Steady c (m c).1) free _ _
                    (λ _.
                      bind-Steady c (send_kick env client mechanism c).1
                        (send_kick env client mechanism c).0 _ (send_kick-Steady mechanism c)
                        (λ _.
                          commit_kick-Steady mechanism trigger r
                            (send_kick env client mechanism c).1))
                    (λ _. Steady-refl c)))
            (λ _. Steady-refl b))

  act_on-Steady :
      (o : Option Btm) (mechanism trigger : String) (r : Rationale) (a : Actor)
      → Steady a (act_on env client o mechanism trigger r a).1
  act_on-Steady none mechanism trigger r a = fresh_kick-Steady mechanism trigger r a
  act_on-Steady (some p) mechanism trigger r a =
      if_intro (λ (m : Act (Unit {0})). Steady a (m a).1) (p.ap_id == client.ap_id) _ _
        (λ _. deauth_fallback-Steady p trigger a) (λ _. fresh_kick-Steady mechanism trigger r a)

  live_kick-Steady :
      (mechanism trigger : String) (r : Rationale) (a : Actor)
      → Steady a (live_kick env client mechanism trigger r a).1
  unfolding live_kick quarantined
  live_kick-Steady mechanism trigger r a =
      let b = (ask_quarantine env client a.backoff a).1 in
      bind-Steady a b (ask_quarantine env client a.backoff a).0 _
        (ask_quarantine-Steady a.backoff a refl)
        (λ stop.
          if_intro (λ (m : Act (Unit {0})). Steady b (m b).1) stop _ _
            (λ _. notify_quarantine-Steady b)
            (λ _. act_on-Steady (Pending.get_btm b.pending client.mac) mechanism trigger r b))

  pub handle-Steady : (ctx : Decision) (a : Actor) → Steady a (handle env client ctx a).1
  unfolding handle
  handle-Steady ctx a =
      bind-Steady a a (dispatch_mechanism (resolve_kick_mechanism client.mac a.config)) _
        (Steady-refl a)
        (λ mechanism.
          if_intro (λ (m : Act (Unit {0})). Steady a (m a).1) a.config.scanner.dry_run _ _
            (λ _. dry_run_kick-Steady mechanism _ _ a) (λ _. live_kick-Steady mechanism _ _ a))

pub check_post_kick_outcome-Steady :
    (client : ClientSnapshot) (a : Actor) → Steady a (check_post_kick_outcome client a)
unfolding check_post_kick_outcome settle
check_post_kick_outcome-Steady client a = record {
  config = ground arith;
  threshold = ground arith;
  limits = ground arith;
}
