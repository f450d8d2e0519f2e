-- ===== src/Scanner/Calls.antt =====
-- The wire calls of the parts of a poll cycle, and whom they reach.
use wifi_shepard.Prelude.{
  String, ◌≡◌, refl, sym, ap, ◌∙◌, false, ◌⊎◌, inl, inr, Option, none, some, List, [], ◌∷◌, ◌++◌,
  All, arith, Bool-cases, contains, filter_none,
}
use mathlib.Core.List.{append-nil, append_assoc}
use wifi_shepard.Actor.{
  Actor, Env, Event, btm_sent, reconnect_forced, logged, outcome_line, handle,
  check_post_kick_outcome, settle,
}
use wifi_shepard.Actor.DryRun.{handle-dry_run}
use wifi_shepard.Actor.Effect.{ToClient, Effect, quiet, fresh, fell_back}
use wifi_shepard.Actor.Live.{handle-Effect}
use wifi_shepard.Actor.Trace.{wire_calls, is_wire}
use wifi_shepard.Controller.{ClientSnapshot}
use wifi_shepard.Mac.{normalize_mac}
use wifi_shepard.Pending
use wifi_shepard.Pending.{Outcome}
use wifi_shepard.Rationale.{Decision}

-- A call to a client that is not on the allowlist.
pub record Permitted (allowlist : List String) (call : Event) : Type 0 where
  pub mac : String
  pub to_client : (call ≡ btm_sent mac) ⊎ (call ≡ reconnect_forced mac)
  pub unlisted : contains (normalize_mac mac) allowlist ≡ false

-- The calls that were made from one state to the next, all of them permitted.
pub record Calls (allowlist : List String) (a b : Actor) : Type 0 where
  pub calls : List Event
  pub made : wire_calls b ≡ wire_calls a ++ calls
  pub each : All (Permitted allowlist) calls

All-concat : (P : Event → Type 0) (xs ys : List Event) → All P xs → All P ys → All P (xs ++ ys)
All-concat P [] ys h k = k
All-concat P (x ∷ xs) ys h k = (h.0, All-concat P xs ys h.1 k)

module _ (allowlist : List String) where
  pub Calls-none : (a b : Actor) → wire_calls b ≡ wire_calls a → Calls allowlist a b
  Calls-none a b e = record { calls = []; made = e ∙ sym (append-nil (wire_calls a)); each = tt }

  pub Calls-trans :
      (a b c : Actor) → Calls allowlist a b → Calls allowlist b c → Calls allowlist a c
  Calls-trans a b c p q = record {
    calls = p.calls ++ q.calls;
    made = q.made ∙ ap (λ w. w ++ q.calls) p.made ∙ append_assoc (wire_calls a) p.calls q.calls;
    each = All-concat (Permitted allowlist) p.calls q.calls p.each q.each;
  }

  one_call :
      (client : ClientSnapshot) (a b : Actor) (call : Event)
      → contains (normalize_mac client.mac) allowlist ≡ false
      → ToClient client call
      → wire_calls b ≡ wire_calls a ++ call ∷ []
      → Calls allowlist a b
  one_call client a b call free to e = record {
    calls = call ∷ [];
    made = e;
    each = (record { mac = client.mac; to_client = to; unlisted = free }, tt);
  }

  Effect-Calls :
      (env : Env) (client : ClientSnapshot) (a b : Actor)
      → contains (normalize_mac client.mac) allowlist ≡ false
      → Effect env client a b
      → Calls allowlist a b
  Effect-Calls env client a b free (quiet q) = Calls-none a b q.wires
  Effect-Calls env client a b free (fresh f) = one_call client a b f.call free f.to_client f.wires
  Effect-Calls env client a b free (fell_back f) =
      one_call client a b (reconnect_forced client.mac) free (inr refl) f.wires

  pub handle-Calls :
      (env : Env) (client : ClientSnapshot) (ctx : Decision) (a : Actor)
      → contains (normalize_mac client.mac) allowlist ≡ false
      → Calls allowlist a (handle env client ctx a).1
  handle-Calls env client ctx a free = elim (Bool-cases a.config.scanner.dry_run) [
    | inl dry ↦ Calls-none a _ (handle-dry_run env client ctx a dry).wires
    | inr live ↦ Effect-Calls env client a _ free (handle-Effect env client ctx a live)
  ]

wires-settle :
    (client : ClientSnapshot) (o : Option Outcome) (a : Actor)
    → wire_calls (settle client o a) ≡ wire_calls a
unfolding settle
wires-settle client none a = refl
wires-settle client (some o) a =
    ground (arith, filter_none is_wire a.trace (logged (outcome_line client o)) refl)

-- The outcome check only logs.
pub wires-check_post_kick_outcome :
    (client : ClientSnapshot) (a : Actor)
    → wire_calls (check_post_kick_outcome client a) ≡ wire_calls a
unfolding check_post_kick_outcome
wires-check_post_kick_outcome client a =
    wires-settle client (Pending.pop_outcome a.pending client.mac).0
      (record a { pending = (Pending.pop_outcome a.pending client.mac).1 })
