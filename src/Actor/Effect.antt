-- ===== src/Actor/Effect.antt =====
-- What `handle` can do to a client outside a dry run, as a relation of the states before and after.
use wifi_shepard.Prelude.{
  ℕ, suc, String, ◌≡◌, refl, ap, ◌∙◌, true, false, ◌&&◌, ◌⊎◌, Option, none, some, [], ◌∷◌, ◌++◌,
  ◌==◌, if◌then◌else◌, is_some, arith,
}
use wifi_shepard.Actor.{
  Actor, Env, Event, btm_sent, reconnect_forced, after_kick, after_count, after_wire_call,
}
use wifi_shepard.Actor.Gates.{Quiet, BackoffOpen, LimiterOpen, WireOpen}
use wifi_shepard.Actor.Quarantine.{quarantine_of}
use wifi_shepard.Actor.Trace.{wire_calls, count_of, timer_of, SameLedger}
use wifi_shepard.Backoff.{BackoffManager}
use wifi_shepard.Backoff.Counts.{kick_count-record_kick}
use wifi_shepard.Controller.{ClientSnapshot}
use wifi_shepard.Kicks.{recent_kick_timestamps}
use wifi_shepard.Pending
use wifi_shepard.Pending.{Btm}
use wifi_shepard.RateLimit
use wifi_shepard.RateLimit.{KickRateLimiter}

-- A call that reaches this client.
abbrev pub ToClient : ClientSnapshot → Event → Type 0
ToClient client call = (call ≡ btm_sent client.mac) ⊎ (call ≡ reconnect_forced client.mac)

-- The timer of the limiter, where there is one, was set to the instant after the call.
abbrev pub timer_set : Env → Actor → Option ℕ
timer_set env a = if is_some a.rate_limiter then some env.wire_now else none

-- A fresh kick: its client was not in quarantine, both gates were open, one call went out, the timer
-- was set, and the counter of the client, of no other, went up by one.
pub record FreshKick (env : Env) (client : ClientSnapshot) (a b : Actor) : Type 0 where
  pub free : quarantine_of a.backoff client.mac ≡ false
  pub backoff_open : BackoffOpen env client a
  pub limiter_open : LimiterOpen env client a.rate_limiter
  pub call : Event
  pub to_client : ToClient client call
  pub wires : wire_calls b ≡ wire_calls a ++ call ∷ []
  pub timer : timer_of b.rate_limiter ≡ timer_set env a
  pub counts :
      (mac : String)
      → count_of b.backoff mac ≡ (
          if is_some a.backoff && (client.mac == mac)
          then suc (count_of a.backoff mac)
          else count_of a.backoff mac)

-- The fallback of a BTM that the client did not follow: its client was not in quarantine and still at
-- the access point of the request, the timer allowed it, one reconnect went out, and neither a counter
-- moved nor did the ledger that the backoff gate reads.
pub record Fallback (env : Env) (client : ClientSnapshot) (a b : Actor) : Type 0 where
  pub free : quarantine_of a.backoff client.mac ≡ false
  pub waiting : Btm
  pub was_waiting : Pending.get_btm a.pending client.mac ≡ some waiting
  pub stayed : (waiting.ap_id == client.ap_id) ≡ true
  pub timer_open : WireOpen env client a.rate_limiter
  pub wires : wire_calls b ≡ wire_calls a ++ reconnect_forced client.mac ∷ []
  pub timer : timer_of b.rate_limiter ≡ timer_set env a
  pub ledger : SameLedger a.db b.db
  pub counts : (mac : String) → count_of b.backoff mac ≡ count_of a.backoff mac

pub data Effect (env : Env) (client : ClientSnapshot) (a b : Actor) : Type 0 where
  quiet : Quiet a b → Effect env client a b
  fresh : FreshKick env client a b → Effect env client a b
  fell_back : Fallback env client a b → Effect env client a b

timer-after_wire_call :
    (env : Env) (client : ClientSnapshot) (o : Option KickRateLimiter)
    → timer_of (after_wire_call env client o) ≡ (if is_some o then some env.wire_now else none)
unfolding RateLimit.record_wire_call
timer-after_wire_call env client none = refl
timer-after_wire_call env client (some l) = refl

timer-after_kick :
    (env : Env) (client : ClientSnapshot) (o : Option KickRateLimiter)
    → timer_of (after_kick env client o) ≡ (if is_some o then some env.wire_now else none)
unfolding RateLimit.record_kick
timer-after_kick env client none = refl
timer-after_kick env client (some l) = ground arith

count-after_count :
    (env : Env) (client : ClientSnapshot) (o : Option BackoffManager) (mac : String)
    → count_of (after_count env client o) mac
      ≡ (if is_some o && (client.mac == mac) then suc (count_of o mac) else count_of o mac)
count-after_count env client none mac = refl
count-after_count env client (some b) mac = kick_count-record_kick b client.mac mac

-- What the accounting leaves: no further wire call, this limiter, these counters.
pub record Committed (l : Option KickRateLimiter) (o : Option BackoffManager) (a b : Actor)
    : Type 0 where
  pub wires : wire_calls b ≡ wire_calls a
  pub limiter : b.rate_limiter ≡ l
  pub backoff : b.backoff ≡ o

-- What a wire call leaves: the call, the limiter and the counters as they were.
pub record Called (call : Event) (a b : Actor) : Type 0 where
  pub wires : wire_calls b ≡ wire_calls a ++ call ∷ []
  pub limiter : b.rate_limiter ≡ a.rate_limiter
  pub db : b.db ≡ a.db
  pub backoff : b.backoff ≡ a.backoff

pub FreshKick-of :
    (env : Env) (client : ClientSnapshot) (call : Event) (a b c d : Actor)
    → quarantine_of a.backoff client.mac ≡ false
    → BackoffOpen env client a
    → LimiterOpen env client a.rate_limiter
    → ToClient client call
    → Quiet a b
    → Called call b c
    → Committed (after_kick env client c.rate_limiter) (after_count env client c.backoff) c d
    → FreshKick env client a d
FreshKick-of env client call a b c d free bo lo to q s m = record {
  free = free;
  backoff_open = bo;
  limiter_open = lo;
  call = call;
  to_client = to;
  wires = m.wires ∙ s.wires ∙ ap (λ w. w ++ call ∷ []) q.wires;
  timer = rw (m.limiter, timer-after_kick, s.limiter, q.limited);
  counts = λ mac. rw (m.backoff, count-after_count, s.backoff, q.managed, q.counts mac);
}

pub Fallback-of :
    (env : Env) (client : ClientSnapshot) (p : Btm) (a b c d : Actor)
    → quarantine_of a.backoff client.mac ≡ false
    → Pending.get_btm a.pending client.mac ≡ some p
    → (p.ap_id == client.ap_id) ≡ true
    → WireOpen env client a.rate_limiter
    → Quiet a b
    → Called (reconnect_forced client.mac) b c
    → Committed (after_wire_call env client c.rate_limiter) c.backoff c d
    → SameLedger c.db d.db
    → Fallback env client a d
Fallback-of env client p a b c d free was stayed wo q s m l = record {
  free = free;
  waiting = p;
  was_waiting = was;
  stayed = stayed;
  timer_open = wo;
  wires = m.wires ∙ s.wires ∙ ap (λ w. w ++ reconnect_forced client.mac ∷ []) q.wires;
  timer = rw (m.limiter, timer-after_wire_call, s.limiter, q.limited);
  ledger = λ mac now lookback.
      l mac now lookback ∙ ap (λ rows. recent_kick_timestamps rows mac now lookback) (s.db ∙ q.db);
  counts = λ mac. rw (m.backoff, s.backoff, q.counts mac);
}
