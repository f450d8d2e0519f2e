-- ===== src/Actor/Live.antt =====
-- What one call of `handle` does outside a dry run, branch by branch.
use wifi_shepard.Prelude.{
  String, ◌≡◌, refl, Bool, true, false, inl, inr, Option, none, some, [], ◌∷◌, ◌++◌, ◌==◌,
  if◌then◌else◌, Result, ok, raise, external_error, filter-append, filter_none, arith, Bool-cases,
}
use wifi_shepard.Actor.{
  Await, Actor, Env, Event, btm_sent, reconnect_forced, logged, kick, notified, Act, modify, emit,
  ◌>>◌, send_kick, commit_kick, fresh_kick, deauth_fallback, act_on, live_kick, handle,
  dispatch_mechanism, insert_row, send_btm_request, force_reconnect_client, after_kick, after_count,
  after_wire_call,
}
use wifi_shepard.Actor.Gates.{
  Quiet, Quiet-refl, Quiet-trans, backoff_gate_then, limiter_gate_then, fallback_gate_then,
}
use wifi_shepard.Actor.Quarantine.{
  quarantine_of, SameCounts, SameCounts-Quiet, quarantined_then, notify_quarantine-Quiet,
}
use wifi_shepard.Actor.Trace.{is_wire, SameLedger, insert_kick-SameLedger, counts-fallback}
use wifi_shepard.Backoff.{BackoffManager}
use wifi_shepard.Controller.{ClientSnapshot}
use wifi_shepard.Kicks.{KickRow}
use wifi_shepard.Pending
use wifi_shepard.Pending.{Btm}
use wifi_shepard.Rationale.{Decision, Rationale, trigger_of, build_kick_rationale}
use wifi_shepard.Resolution.{resolve_kick_mechanism}
use wifi_shepard.Actor.Effect.{
  ToClient, Effect, fresh, fell_back, Committed, Called, FreshKick-of, Fallback-of,
}

commit_kick-Committed :
    (env : Env) (client : ClientSnapshot) (mechanism trigger : String) (r : Rationale) (a : Actor)
    → Committed
        (after_kick env client a.rate_limiter)
        (after_count env client a.backoff)
        a
        (commit_kick env client mechanism trigger r a).1
unfolding commit_kick
commit_kick-Committed env client mechanism trigger r a = record {
  wires = ground (
    arith,
    filter_none is_wire a.trace (logged (kick client.mac mechanism trigger env.uuid)) refl,
    filter_none is_wire (a.trace ++ logged (kick client.mac mechanism trigger env.uuid) ∷ [])
        (notified client.mac "kick") refl,
  );
  limiter = ground arith;
  backoff = ground arith;
}

module _ (env : Env) (client : ClientSnapshot) (Q : Result (Unit {0}) × Actor → Type 0)
    (k : Act (Unit {0})) where
  btm_then :
      (failed : Bool) (a : Actor)
      → ((b : Actor) → Called (btm_sent client.mac) a b → Q (k b))
      → ((r : Result (Unit {0})) (b : Actor) → Quiet a b → Q (r, b))
      → Q (
          (((λ (a : Actor).
                  if failed
                  then (raise external_error, a)
                  else (ok tt, emit (btm_sent client.mac) a))
                >> modify (λ a. record a {
                  pending = Pending.set_btm a.pending client.mac env.uuid client.ap_id;
                }))
              >> k)
            a)
  btm_then true a go stop = stop _ a (Quiet-refl a)
  btm_then false a go stop = go _ (record {
    wires = filter-append is_wire a.trace (btm_sent client.mac ∷ []);
    limiter = refl;
    db = refl;
    backoff = refl;
  })

  reconnect_then :
      (failed : Bool) (a : Actor)
      → ((b : Actor) → Called (reconnect_forced client.mac) a b → Q (k b))
      → ((r : Result (Unit {0})) (b : Actor) → Quiet a b → Q (r, b))
      → Q (
          ((λ (a : Actor).
                if failed
                then (raise external_error, a)
                else (ok tt, emit (reconnect_forced client.mac) a))
              >> k)
            a)
  reconnect_then true a go stop = stop _ a (Quiet-refl a)
  reconnect_then false a go stop = go _ (record {
    wires = filter-append is_wire a.trace (reconnect_forced client.mac ∷ []);
    limiter = refl;
    db = refl;
    backoff = refl;
  })

  send_kick_then :
      (mechanism : String) (a : Actor)
      → ((call : Event) (b : Actor) → ToClient client call → Called call a b → Q (k b))
      → ((r : Result (Unit {0})) (b : Actor) → Quiet a b → Q (r, b))
      → Q ((send_kick env client mechanism >> k) a)
  unfolding send_kick
  send_kick_then mechanism a go stop = elim (Bool-cases (mechanism == "btm")) [
    | inl e ↦ rw e (btm_then (env.fails send_btm_request) a (λ b. go _ b (inl refl)) stop)
    | inr e ↦
        rw e (reconnect_then (env.fails force_reconnect_client) a (λ b. go _ b (inr refl)) stop)
  ]

-- What follows the reconnect of a fallback.
fallback_row-Committed :
    (env : Env) (client : ClientSnapshot) (p : Btm) (r : KickRow) (f : Actor → Pending.PendingKicks)
    (a : Actor)
    → Committed
        (after_wire_call env client a.rate_limiter)
        a.backoff
        a
        ((do
          modify (λ a. record a { rate_limiter = after_wire_call env client a.rate_limiter })
          insert_row env r
          modify (λ a. record a { pending = f a }))
          a).1
unfolding insert_row
fallback_row-Committed env client p r f a = record {
  wires = ground arith;
  limiter = ground arith;
  backoff = ground arith;
}

-- Its row is not counted.
fallback_row-SameLedger :
    (env : Env) (client : ClientSnapshot) (r : KickRow) (f : Actor → Pending.PendingKicks)
    (a : Actor)
    → r.mechanism ≡ "deauth_fallback"
    → SameLedger a.db
        ((do
          modify (λ a. record a { rate_limiter = after_wire_call env client a.rate_limiter })
          insert_row env r
          modify (λ a. record a { pending = f a }))
          a).1.db
unfolding insert_row
fallback_row-SameLedger env client r f a e mac now lookback =
    elim (Bool-cases (env.fails Await.insert_kick)) [
      | inl fails ↦ rw fails refl
      | inr fine ↦
          rw fine
            (insert_kick-SameLedger a.db r (λ m n l. counts-fallback m n l r e) mac now lookback)
    ]

module _ (env : Env) (client : ClientSnapshot) (mechanism trigger : String) (r : Rationale)
    (a : Actor) where
  -- The goal of each step.
  abbrev Shown : Result (Unit {0}) × Actor → Type 0
  Shown p = Effect env client a p.1

  -- Past the quarantine, on the fresh path.
  fresh_kick-Effect :
      (o : Option BackoffManager)
      → quarantine_of a.backoff client.mac ≡ false
      → SameCounts a.backoff o
      → Effect env client a (fresh_kick env client mechanism trigger r (record a { backoff = o })).1
  unfolding fresh_kick
  fresh_kick-Effect o free same =
      backoff_gate_then env client Shown _ asked
        (λ bo.
          limiter_gate_then env client Shown _ asked
            (λ b q lo.
              send_kick_then env client Shown _ mechanism b
                (λ call c to s. fresh (
                  FreshKick-of env client call a b c _ free bo lo to (Quiet-trans a asked b quiet q)
                    s (commit_kick-Committed env client mechanism trigger r c)))
                (λ _ c p. Effect.quiet (Quiet-trans a b c (Quiet-trans a asked b quiet q) p)))
            (λ _ c p. Effect.quiet (Quiet-trans a asked c quiet p)))
        (λ _ c p. Effect.quiet (Quiet-trans a asked c quiet p))
    where
      asked : Actor
      asked = record a { backoff = o }

      quiet : Quiet a asked
      quiet = SameCounts-Quiet a o same

  fallback-Effect :
      (o : Option BackoffManager) (p : Btm)
      → quarantine_of a.backoff client.mac ≡ false
      → SameCounts a.backoff o
      → Pending.get_btm a.pending client.mac ≡ some p
      → (p.ap_id == client.ap_id) ≡ true
      → Effect env client a (deauth_fallback env client p trigger (record a { backoff = o })).1
  unfolding deauth_fallback
  fallback-Effect o p free same was stayed =
      fallback_gate_then env client Shown _ asked
        (λ wo.
          reconnect_then env client Shown _ (env.fails force_reconnect_client) asked
            (λ c s. fell_back (
              Fallback-of env client p a asked c _ free was stayed wo quiet s
                (fallback_row-Committed env client p _ _ c)
                (fallback_row-SameLedger env client _ _ c refl)))
            (λ _ c q. Effect.quiet (Quiet-trans a asked c quiet q)))
        (λ _ c q. Effect.quiet (Quiet-trans a asked c quiet q))
    where
      asked : Actor
      asked = record a { backoff = o }

      quiet : Quiet a asked
      quiet = SameCounts-Quiet a o same

  act_on-Effect :
      (o : Option BackoffManager) (p : Option Btm)
      → quarantine_of a.backoff client.mac ≡ false
      → SameCounts a.backoff o
      → Pending.get_btm a.pending client.mac ≡ p
      → Effect env client a (act_on env client p mechanism trigger r (record a { backoff = o })).1
  act_on-Effect o none free same was = fresh_kick-Effect o free same
  act_on-Effect o (some p) free same was = elim (Bool-cases (p.ap_id == client.ap_id)) [
    | inl e ↦ rw e (fallback-Effect o p free same was e)
    | inr e ↦ rw e (fresh_kick-Effect o free same)
  ]

  live_kick-Effect : Effect env client a (live_kick env client mechanism trigger r a).1
  unfolding live_kick
  live_kick-Effect =
      quarantined_then env client Shown _ _ a
        (λ o q same. Effect.quiet (
          Quiet-trans a (record a { backoff = o }) _ (SameCounts-Quiet a o same)
            (notify_quarantine-Quiet env client _)))
        (λ o free same. act_on-Effect o _ free same refl)

dispatched-Effect :
    (env : Env) (client : ClientSnapshot) (ctx : Decision) (a : Actor) (m : Result String)
    → a.config.scanner.dry_run ≡ false
    → dispatch_mechanism (resolve_kick_mechanism client.mac a.config) ≡ m
    → Effect env client a (handle env client ctx a).1
unfolding handle
dispatched-Effect env client ctx a (raise x) live e = rw e (Effect.quiet (Quiet-refl a))
dispatched-Effect env client ctx a (ok m) live e = rw e (
    simp live
      (live_kick-Effect env client m (trigger_of ctx) (build_kick_rationale client ctx a.config) a))

-- Outside a dry run, `handle` does one of three things, whatever raises: it makes no wire call and
-- accounts no kick; or, with the client out of quarantine and the backoff and the limiter's gates
-- open, it makes one call to the client, sets the timer and counts one kick for that client only; or,
-- for a BTM request that the client did not follow, with the timer open, it forces one reconnect,
-- sets the timer, and adds nothing that the backoff gate or the quarantine would count.
pub handle-Effect :
    (env : Env) (client : ClientSnapshot) (ctx : Decision) (a : Actor)
    → a.config.scanner.dry_run ≡ false
    → Effect env client a (handle env client ctx a).1
handle-Effect env client ctx a live = dispatched-Effect env client ctx a _ live refl
