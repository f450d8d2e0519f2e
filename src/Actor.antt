-- ===== src/Actor.antt =====
-- wifi_shepard/actor.py: what a detector's decision leads to. `handle` is split where the source's
-- branches return: the dry run, the quarantine, the deauth fallback and the fresh kick.
mod State
pub mod Trace
pub mod DryRun
pub mod Gates
pub mod Quarantine
pub mod Effect
pub mod Live
pub mod Steady
pub use State.*
use wifi_shepard.Prelude.{
  ℕ, ◌+◌, String, Bool, true, false, not, ◌&&◌, ◌||◌, Option, none, some, List, [], ◌∷◌, ◌==◌, ltb,
  leb, if◌then◌else◌, Result, ok, raise, runtime_error, seconds,
}
use Prim.Native.Nat.{max}
use wifi_shepard.Backoff
use wifi_shepard.Backoff.{BackoffManager, evaluate_backoff, day_seconds}
use wifi_shepard.Controller.{ClientSnapshot}
use wifi_shepard.Dict
use wifi_shepard.Kicks
use wifi_shepard.Kicks.{KickRow}
use wifi_shepard.Pending
use wifi_shepard.Pending.{Btm, Outcome}
use wifi_shepard.RateLimit
use wifi_shepard.RateLimit.{KickRateLimiter}
use wifi_shepard.Rationale.{Decision, Rationale, trigger_of, build_kick_rationale}
use wifi_shepard.Resolution.{resolve_caps, resolve_kick_mechanism}
use wifi_shepard.Verdict.{Verdict, allowed, denied}

-- `_dispatch_mechanism`
unfoldable pub dispatch_mechanism : String → Result String
dispatch_mechanism resolved =
    if resolved == "btm" || resolved == "auto"
    then ok "btm"
    else if resolved == "deauth"
    then ok "deauth"
    else raise runtime_error

abbrev pub dry_run_default_throttle_seconds : ℕ
dry_run_default_throttle_seconds = 300

abbrev throttle : List ℕ → ℕ
throttle [] = dry_run_default_throttle_seconds
throttle (c ∷ _) = c

-- `float(max(cooldowns)) if cooldowns else 0.0`
abbrev pub longest : List ℕ → ℕ
longest [] = 0
longest (c ∷ cs) = Backoff.maximum c cs

-- `cooldowns` as a condition
abbrev is_set : List ℕ → Bool
is_set [] = false
is_set (_ ∷ _) = true

-- `last is None or now - last >= interval`
abbrev pub is_due : Option ℕ → ℕ → ℕ → Bool
is_due none now interval = true
is_due (some last) now interval = leb (last + interval) now

unfoldable pub insert_row : Env → KickRow → Act Unit
insert_row env row = await env insert_kick (λ a. record a { db = Kicks.insert_kick a.db row })

module _ (env : Env) (client : ClientSnapshot) where
  abbrev row : Bool → String → Option String → String → Option Rationale → KickRow
  row dry mechanism group trigger rationale = record {
    ts = env.row_ts;
    mac = client.mac;
    dry_run = dry;
    mechanism = mechanism;
    attempt_group = group;
    trigger = trigger;
    rationale = rationale;
  }

  -- The branch `if self.config.scanner.dry_run`.
  unfoldable pub dry_run_kick : String → String → Rationale → Act Unit
  unfolding insert_row
  dry_run_kick mechanism trigger rationale = do
    modify (emit (logged (would_kick client.mac mechanism)))
    a ← gets (λ a. a)
    if is_due (Dict.get a.dry_run_last_write client.mac) env.wall_now
          (seconds (throttle a.config.backoff.cooldowns_seconds))
        then (do
          modify (λ a. record a {
            dry_run_last_write = Dict.put a.dry_run_last_write client.mac env.wall_now;
          })
          insert_row env (row true mechanism none trigger (some rationale)))
        else pure tt

  abbrev pub ask_quarantine : Option BackoffManager → Act Bool
  ask_quarantine none = pure false
  ask_quarantine (some b) = do
    let (answer, b') = Backoff.should_quarantine b client.mac
    modify (λ a. record a { backoff = some b' })
    pure answer

  -- `self.backoff is not None and self.backoff.should_quarantine(mac)`
  unfoldable pub quarantined : Act Bool
  quarantined a = ask_quarantine a.backoff a

  abbrev pub notify_once : Option BackoffManager → Act Unit
  notify_once none = pure tt
  notify_once (some b) = do
    let (told, b') = Backoff.quarantine_notified b client.mac
    modify (λ a. record a { backoff = some b' })
    if told then pure tt else do
      await env notify (emit (notified client.mac "quarantine"))
      modify (λ a. record a { backoff = some (Backoff.mark_quarantine_notified b' client.mac) })

  -- The body of the quarantine branch.
  unfoldable pub notify_quarantine : Act Unit
  notify_quarantine a = (if a.ha then notify_once a.backoff else pure tt) a

  abbrev pub answer : String → Verdict → Act Bool
  answer stage allowed = pure true
  answer stage (denied reason retry) = do
    modify (emit (logged (kick_deferred client.mac client.ap_id reason retry stage)))
    pure false

  abbrev pub wire_gate : Option KickRateLimiter → Act Bool
  wire_gate none = pure true
  wire_gate (some l) = answer "deauth_fallback" (RateLimit.can_wire_call l env.gate_now)

  abbrev pub after_wire_call : Option KickRateLimiter → Option KickRateLimiter
  after_wire_call none = none
  after_wire_call (some l) = some (RateLimit.record_wire_call l env.wire_now)

  -- The branch of a pending BTM on the same access point.
  unfoldable pub deauth_fallback : Btm → String → Act Unit
  unfolding insert_row
  deauth_fallback pending trigger = do
    go ← (λ a. wire_gate a.rate_limiter a)
    if go
        then (do
          await env force_reconnect_client (emit (reconnect_forced client.mac))
          modify (λ a. record a { rate_limiter = after_wire_call a.rate_limiter })
          insert_row env (row false "deauth_fallback" (some pending.group) trigger none)
          modify (λ a. record a {
            pending =
                Pending.clear_btm
                  (Pending.set_outcome a.pending client.mac (record {
                    ap_id = client.ap_id;
                    mechanism = "deauth_fallback";
                    attempt_group = pending.group;
                  }))
                  client.mac;
          }))
        else pure tt

  -- `if cooldowns or max_hour > 0 or max_day > 0`
  abbrev pub backoff_on : Actor → Bool
  backoff_on a =
      let caps = resolve_caps client.mac a.config in
      is_set a.config.backoff.cooldowns_seconds || (ltb 0 caps.0 || ltb 0 caps.1)

  -- `evaluate_backoff` on the rows of the lookback time.
  abbrev pub backoff_verdict : Actor → Verdict
  backoff_verdict a =
      let cooldowns = a.config.backoff.cooldowns_seconds in
      let caps = resolve_caps client.mac a.config in
      evaluate_backoff
        (Kicks.recent_kick_timestamps a.db client.mac env.wall_now
          (seconds (max day_seconds (longest cooldowns))))
        env.wall_now cooldowns caps.0 caps.1

  abbrev pub ask_backoff : Bool → Act Bool
  ask_backoff false = pure true
  ask_backoff true = do
    await env recent_kick_timestamps (λ a. a)
    λ a. answer "per_mac_backoff" (backoff_verdict a) a

  -- Cooldown and caps, from the rows of the database; skipped where all three are off.
  unfoldable pub backoff_gate : Act Bool
  backoff_gate a = ask_backoff (backoff_on a) a

  abbrev pub ask_limiter : Option KickRateLimiter → Act Bool
  ask_limiter none = pure true
  ask_limiter (some l) = do
    let (verdict, l') = RateLimit.can_kick l client.ap_id env.gate_now
    modify (λ a. record a { rate_limiter = some l' })
    answer "fresh" verdict

  -- The global timer and the cap of the access point.
  unfoldable pub limiter_gate : Act Bool
  limiter_gate a = ask_limiter a.rate_limiter a

  -- The wire call of a fresh kick; a BTM request is remembered.
  unfoldable pub send_kick : String → Act Unit
  send_kick mechanism =
      if mechanism == "btm"
      then (do
        await env send_btm_request (emit (btm_sent client.mac))
        modify (λ a. record a {
          pending = Pending.set_btm a.pending client.mac env.uuid client.ap_id;
        }))
      else await env force_reconnect_client (emit (reconnect_forced client.mac))

  abbrev pub after_kick : Option KickRateLimiter → Option KickRateLimiter
  after_kick none = none
  after_kick (some l) = some (RateLimit.record_kick l client.ap_id env.wire_now)

  abbrev pub after_count : Option BackoffManager → Option BackoffManager
  after_count none = none
  after_count (some b) = some (Backoff.record_kick b client.mac)

  -- What follows the wire call: the two counters, the row, the outcome to check, the log, the notice.
  unfoldable pub commit_kick : String → String → Rationale → Act Unit
  unfolding insert_row
  commit_kick mechanism trigger rationale = do
    modify (λ a. record a { rate_limiter = after_kick a.rate_limiter })
    modify (λ a. record a { backoff = after_count a.backoff })
    insert_row env (row false mechanism (some env.uuid) trigger (some rationale))
    modify (λ a. record a {
      pending =
          Pending.set_outcome a.pending client.mac
            (record { ap_id = client.ap_id; mechanism = mechanism; attempt_group = env.uuid });
    })
    modify (emit (logged (kick client.mac mechanism trigger env.uuid)))
    a ← gets (λ a. a)
    if a.ha then await env notify (emit (notified client.mac "kick")) else pure tt

  unfoldable pub fresh_kick : String → String → Rationale → Act Unit
  fresh_kick mechanism trigger rationale = do
    permitted ← backoff_gate
    if permitted
        then (do
          free ← limiter_gate
          if free
              then (do send_kick mechanism; commit_kick mechanism trigger rationale)
              else pure tt)
        else pure tt

  -- `pending is not None and pending["ap_id"] == client.ap_id`
  abbrev act_on : Option Btm → String → String → Rationale → Act Unit
  act_on none mechanism trigger rationale = fresh_kick mechanism trigger rationale
  act_on (some p) mechanism trigger rationale =
      if p.ap_id == client.ap_id
      then deauth_fallback p trigger
      else fresh_kick mechanism trigger rationale

  -- Past the dry run.
  unfoldable pub live_kick : String → String → Rationale → Act Unit
  live_kick mechanism trigger rationale = do
    stop ← quarantined
    if stop
        then notify_quarantine
        else (λ a. act_on (Pending.get_btm a.pending client.mac) mechanism trigger rationale a)

  unfoldable pub handle : Decision → Act Unit
  handle ctx = do
    a ← gets (λ a. a)
    mechanism ← lift (dispatch_mechanism (resolve_kick_mechanism client.mac a.config))
    let rationale = build_kick_rationale client ctx a.config
    if a.config.scanner.dry_run
        then dry_run_kick mechanism (trigger_of ctx) rationale
        else live_kick mechanism (trigger_of ctx) rationale

abbrev pub outcome_line : ClientSnapshot → Outcome → LogLine
outcome_line client o =
    if o.ap_id == client.ap_id
    then kick_no_roam client.mac o.ap_id client.ap_id o.mechanism o.attempt_group
    else kick_succeeded client.mac o.ap_id client.ap_id o.mechanism o.attempt_group

unfoldable pub settle : ClientSnapshot → Option Outcome → Actor → Actor
settle client none a = a
settle client (some o) a =
    let a' = emit (logged (outcome_line client o)) a in
    if not (o.ap_id == client.ap_id) && o.mechanism == "btm"
    then record a' { pending = Pending.clear_btm a'.pending client.mac }
    else a'

-- The outcome of the previous cycle's kick is consumed; a roam after a BTM ends its fallback.
unfoldable pub check_post_kick_outcome : ClientSnapshot → Actor → Actor
unfolding settle
check_post_kick_outcome client a =
    let (found, pending') = Pending.pop_outcome a.pending client.mac in
    settle client found (record a { pending = pending' })
