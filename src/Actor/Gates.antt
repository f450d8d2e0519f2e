-- ===== src/Actor/Gates.antt =====
-- The gates of a live kick: what each of them reads, and that a refusal changes nothing that counts.
use wifi_shepard.Prelude.{
  ℕ, String, ◌≡◌, refl, Bool, true, false, inl, inr, ◌⊎◌, Option, none, some, arith, if◌then◌else◌,
  Result, ok, raise, external_error, is_some, ◌∙◌, sym, ap,
}
use wifi_shepard.Actor.{
  Actor, Env, Event, backoff_gate, limiter_gate, wire_gate, pure, emit, ◌>>=◌, Act,
  recent_kick_timestamps, backoff_on, backoff_verdict, ask_backoff, answer, ◌>>◌, ask_limiter,
}
use wifi_shepard.Actor.Trace.{wire_calls, count_of, timer_of, wires-emit, is_wire}
use wifi_shepard.Controller.{ClientSnapshot}
use wifi_shepard.RateLimit
use wifi_shepard.RateLimit.{KickRateLimiter, after_global, check_ap, prune}
use wifi_shepard.Verdict.{Verdict, allowed, denied}

-- No wire call was made and no kick was accounted.
pub record Quiet (a b : Actor) : Type 0 where
  pub wires : wire_calls b ≡ wire_calls a
  pub counts : (mac : String) → count_of b.backoff mac ≡ count_of a.backoff mac
  pub timer : timer_of b.rate_limiter ≡ timer_of a.rate_limiter
  pub pending : b.pending ≡ a.pending
  pub db : b.db ≡ a.db
  pub managed : is_some b.backoff ≡ is_some a.backoff
  pub limited : is_some b.rate_limiter ≡ is_some a.rate_limiter

pub Quiet-refl : (a : Actor) → Quiet a a
Quiet-refl a = record {
  wires = refl;
  counts = λ mac. refl;
  timer = refl;
  pending = refl;
  db = refl;
  managed = refl;
  limited = refl;
}

pub emit-Quiet : (e : Event) (a : Actor) → is_wire e ≡ false → Quiet a (emit e a)
emit-Quiet e a h = record {
  wires = wires-emit e a h;
  counts = λ mac. refl;
  timer = refl;
  pending = refl;
  db = refl;
  managed = refl;
  limited = refl;
}

pub Quiet-trans : (a b c : Actor) → Quiet a b → Quiet b c → Quiet a c
Quiet-trans a b c p q = record {
  wires = q.wires ∙ p.wires;
  counts = λ mac. q.counts mac ∙ p.counts mac;
  timer = q.timer ∙ p.timer;
  pending = q.pending ∙ p.pending;
  db = q.db ∙ p.db;
  managed = q.managed ∙ p.managed;
  limited = q.limited ∙ p.limited;
}

timer-after_global :
    (l : KickRateLimiter) (ap_id : String) (now : ℕ) (v : Verdict)
    → (after_global l ap_id now v).1.last_kick_at ≡ l.last_kick_at
unfolding after_global check_ap prune
timer-after_global l ap_id now allowed = ground arith
timer-after_global l ap_id now (denied r x) = refl

-- The gate of the limiter prunes, and leaves the timer.
timer-can_kick :
    (l : KickRateLimiter) (ap_id : String) (now : ℕ)
    → (RateLimit.can_kick l ap_id now).1.last_kick_at ≡ l.last_kick_at
unfolding RateLimit.can_kick
timer-can_kick l ap_id now = timer-after_global l ap_id now _

module _ (env : Env) (client : ClientSnapshot) where
  abbrev pub BackoffOpen : Actor → Type 0
  BackoffOpen a = (backoff_on env client a ≡ false) ⊎ (backoff_verdict env client a ≡ allowed)

  -- The limiter, where there is one, lets a fresh kick through.
  abbrev pub LimiterOpen : Option KickRateLimiter → Type 0
  LimiterOpen none = Unit
  LimiterOpen (some l) = (RateLimit.can_kick l client.ap_id env.gate_now).0 ≡ allowed

  -- The limiter, where there is one, lets a fallback's wire call through.
  abbrev pub WireOpen : Option KickRateLimiter → Type 0
  WireOpen none = Unit
  WireOpen (some l) = RateLimit.can_wire_call l env.gate_now ≡ allowed

  module _ (Q : Result (Unit {0}) × Actor → Type 0) (k : Act Unit) where
    -- What follows a gate.
    abbrev guarded : Act Bool → Act Unit
    guarded gate = do go ← gate; if go then k else pure tt

    answer_then :
        (stage : String) (v : Verdict) (a : Actor)
        → (v ≡ allowed → Q (k a))
        → ((r : Result (Unit {0})) (b : Actor) → Quiet a b → Q (r, b))
        → Q (guarded (answer env client stage v) a)
    answer_then stage allowed a go stop = go refl
    answer_then stage (denied reason retry) a go stop = stop (ok tt) _ (emit-Quiet _ a refl)

    read_then :
        (b : Bool) (a : Actor) (m : Act Bool)
        → Q (guarded m a)
        → ((r : Result (Unit {0})) (b : Actor) → Quiet a b → Q (r, b))
        → Q (guarded ((λ a. if b then (raise external_error, a) else (ok tt, a)) >> m) a)
    read_then true a m go stop = stop (raise external_error) a (Quiet-refl a)
    read_then false a m go stop = go

    ask_backoff_then :
        (on : Bool) (a : Actor)
        → (on ≡ false → Q (k a))
        → (backoff_verdict env client a ≡ allowed → Q (k a))
        → ((r : Result (Unit {0})) (b : Actor) → Quiet a b → Q (r, b))
        → Q (guarded (ask_backoff env client on) a)
    ask_backoff_then false a off go stop = off refl
    ask_backoff_then true a off go stop =
        read_then (env.fails recent_kick_timestamps) a
          (λ a. answer env client "per_mac_backoff" (backoff_verdict env client a) a)
          (answer_then "per_mac_backoff" (backoff_verdict env client a) a go stop) stop

    -- An open gate hands its state on; a closed one, or a failed read, leaves a quiet state.
    pub backoff_gate_then :
        (a : Actor)
        → (BackoffOpen a → Q (k a))
        → ((r : Result (Unit {0})) (b : Actor) → Quiet a b → Q (r, b))
        → Q (guarded (backoff_gate env client) a)
    unfolding backoff_gate
    backoff_gate_then a go stop =
        ask_backoff_then (backoff_on env client a) a (λ e. go (inl e)) (λ e. go (inr e)) stop

    ask_limiter_then :
        (o : Option KickRateLimiter) (a : Actor)
        → a.rate_limiter ≡ o
        → ((b : Actor) → Quiet a b → LimiterOpen o → Q (k b))
        → ((r : Result (Unit {0})) (b : Actor) → Quiet a b → Q (r, b))
        → Q (guarded (ask_limiter env client o) a)
    ask_limiter_then none a e go stop = go a (Quiet-refl a) tt
    ask_limiter_then (some l) a e go stop =
        answer_then "fresh" (RateLimit.can_kick l client.ap_id env.gate_now).0 pruned
          (go pruned quiet) (λ r b q. stop r b (Quiet-trans a pruned b quiet q))
      where
        pruned : Actor
        pruned = record a { rate_limiter = some (RateLimit.can_kick l client.ap_id env.gate_now).1 }

        quiet : Quiet a pruned
        quiet = record {
          wires = refl;
          counts = λ mac. refl;
          timer = timer-can_kick l client.ap_id env.gate_now ∙ ap timer_of (sym e);
          pending = refl;
          db = refl;
          managed = refl;
          limited = ap is_some (sym e);
        }

    pub limiter_gate_then :
        (a : Actor)
        → ((b : Actor) → Quiet a b → LimiterOpen a.rate_limiter → Q (k b))
        → ((r : Result (Unit {0})) (b : Actor) → Quiet a b → Q (r, b))
        → Q (guarded (limiter_gate env client) a)
    unfolding limiter_gate
    limiter_gate_then a go stop = ask_limiter_then a.rate_limiter a refl go stop

    wire_gate_then :
        (o : Option KickRateLimiter) (a : Actor)
        → (WireOpen o → Q (k a))
        → ((r : Result (Unit {0})) (b : Actor) → Quiet a b → Q (r, b))
        → Q (guarded (wire_gate env client o) a)
    wire_gate_then none a go stop = go tt
    wire_gate_then (some l) a go stop =
        answer_then "deauth_fallback" (RateLimit.can_wire_call l env.gate_now) a go stop

    -- The gate of a fallback reads the timer alone.
    pub fallback_gate_then :
        (a : Actor)
        → (WireOpen a.rate_limiter → Q (k a))
        → ((r : Result (Unit {0})) (b : Actor) → Quiet a b → Q (r, b))
        → Q (guarded (λ a. wire_gate env client a.rate_limiter a) a)
    fallback_gate_then a go stop = wire_gate_then a.rate_limiter a go stop
