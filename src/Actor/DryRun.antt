-- ===== src/Actor/DryRun.antt =====
-- The dry run.
use wifi_shepard.Dict
use wifi_shepard.Prelude.{
  String, ◌≡◌, refl, true, arith, Result, ok, raise, Bool-cases, inl, inr, seconds,
}
use wifi_shepard.Actor.{
  Actor, Env, dry_run_kick, handle, dispatch_mechanism, throttle, is_due, logged, would_kick,
}
use wifi_shepard.Actor.Trace.{
  wire_calls, SameLedger, counts-dry_run, wires-emit, insert_row-SameLedger,
}
use wifi_shepard.Controller.{ClientSnapshot}
use wifi_shepard.Rationale.{Decision, Rationale, build_kick_rationale, trigger_of}
use wifi_shepard.Resolution.{resolve_kick_mechanism}

-- Nothing that a client, the operator's notifier or a later live decision could notice.
pub record Inert (a b : Actor) : Type 0 where
  pub wires : wire_calls b ≡ wire_calls a
  pub rate_limiter : b.rate_limiter ≡ a.rate_limiter
  pub backoff : b.backoff ≡ a.backoff
  pub pending : b.pending ≡ a.pending
  pub ledger : SameLedger a.db b.db

dry_run_kick-Inert :
    (env : Env) (client : ClientSnapshot) (mechanism trigger : String) (r : Rationale) (a : Actor)
    → Inert a (dry_run_kick env client mechanism trigger r a).1
unfolding dry_run_kick
dry_run_kick-Inert env client mechanism trigger r a = record {
  wires = ground (arith, wires-emit (logged (would_kick client.mac mechanism)) a refl);
  rate_limiter = ground arith;
  backoff = ground arith;
  pending = ground arith;
  ledger = λ mac now lb.
      elim (Bool-cases (
        is_due (Dict.get a.dry_run_last_write client.mac) env.wall_now
          (seconds (throttle a.config.backoff.cooldowns_seconds)))) [
            | inl e ↦
                rw e
                  (insert_row-SameLedger env _ _ (λ m n l. counts-dry_run m n l _ refl) mac now lb)
            | inr e ↦ rw e refl
          ];
}

Inert-refl : (a : Actor) → Inert a a
Inert-refl a = record {
  wires = refl;
  rate_limiter = refl;
  backoff = refl;
  pending = refl;
  ledger = λ mac now lookback. refl;
}

dispatched-Inert :
    (env : Env) (client : ClientSnapshot) (ctx : Decision) (a : Actor) (m : Result String)
    → a.config.scanner.dry_run ≡ true
    → dispatch_mechanism (resolve_kick_mechanism client.mac a.config) ≡ m
    → Inert a (handle env client ctx a).1
unfolding handle
dispatched-Inert env client ctx a (raise x) dry e = rw e (Inert-refl a)
dispatched-Inert env client ctx a (ok m) dry e = rw e (
    simp dry (
      dry_run_kick-Inert env client m (trigger_of ctx) (build_kick_rationale client ctx a.config)
        a))

-- In a dry run `handle` makes no wire call, leaves the rate limiter, the quarantine counters and the
-- pending kicks as they were, and adds nothing that the backoff gate would count, whatever raises.
pub handle-dry_run :
    (env : Env) (client : ClientSnapshot) (ctx : Decision) (a : Actor)
    → a.config.scanner.dry_run ≡ true
    → Inert a (handle env client ctx a).1
handle-dry_run env client ctx a dry = dispatched-Inert env client ctx a _ dry refl
