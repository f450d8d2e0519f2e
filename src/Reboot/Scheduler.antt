-- ===== src/Reboot/Scheduler.antt =====
-- wifi_shepard/reboot/scheduler.py: the daily sweep over the eligible devices. A reading of the local
-- clock is a date and the text of `strftime("%H:%M")`. Each awaited call may raise; `run_due` logs
-- that and goes on with the next device.
use wifi_shepard.Prelude.{
  ℕ, suc, String, Bool, true, false, not, ◌&&◌, Option, none, some, List, [], ◌∷◌, ◌++◌, ◌==◌,
  if◌then◌else◌, Result, ok, raise, external_error,
}
use wifi_shepard.Config.{Config}
use wifi_shepard.Reboot.Cooldown
use wifi_shepard.Reboot.Cooldown.{RebootCooldown}
use wifi_shepard.Reboot.Eligibility.{is_reboot_eligible}
use wifi_shepard.Reboot.Resolver.{HaDeviceRegistry, RebootTarget, resolve_reboot_target}
use wifi_shepard.Verdict.{Verdict, allowed, denied}

pub record LocalTime : Type 0 where
  pub date : String
  pub hhmm : String

-- A row of `reboot_events`.
pub record RebootRow : Type 0 where
  pub mac : String
  pub mode : String
  pub outcome : String
  pub target : Option String
  pub dry_run : Bool

pub data Event : Type 0 where
  rebooted : RebootTarget → Event
  notified : String → Event
  would_reboot : String → Option String → Event
  reboot_deferred : String → String → ℕ → Event
  reboot_fired : String → Event
  attempt_failed : String → Event

-- The scheduler, with the rows that it has written and the trace of its effects.
pub record RebootScheduler : Type 0 where
  pub config : Config
  pub cooldown : RebootCooldown
  pub last_fired_date : Option String
  pub ha : Bool
  pub db : List RebootRow
  pub trace : List Event

pub data Await : Type 0 where
  reboot insert_reboot notify : Await

-- What one attempt reads: the two readings of `now_fn`, and which awaited calls raise.
pub record Env : Type 0 where
  pub gate_now : ℕ
  pub fired_now : ℕ
  pub fails : Await → Bool

abbrev pub Act : Type 0
Act = RebootScheduler → Result (Unit {0}) × RebootScheduler

abbrev pub emit : Event → RebootScheduler → RebootScheduler
emit e s = record s { trace = s.trace ++ e ∷ [] }

abbrev go_on : Result (Unit {0}) × RebootScheduler → Act → Result (Unit {0}) × RebootScheduler
go_on (ok _, s) k = k s
go_on (raise e, s) k = (raise e, s)

infixl 5 ◌>>◌
abbrev ◌>>◌ : Act → Act → Act
◌>>◌ m k s = go_on (m s) k

abbrev await : Env → Await → (RebootScheduler → RebootScheduler) → Act
await env call effect s = if env.fails call then (raise external_error, s) else (ok tt, effect s)

abbrev done : Act
done s = (ok tt, s)

abbrev modify : (RebootScheduler → RebootScheduler) → Act
modify f s = (ok tt, f s)

unfoldable pub insert_row : Env → RebootRow → Act
insert_row env row = await env insert_reboot (λ s. record s { db = s.db ++ row ∷ [] })

-- `last_fired_date != now.date()`
abbrev pub is_new_date : Option String → String → Bool
is_new_date none date = true
is_new_date (some last) date = not (last == date)

unfoldable pub is_due : RebootScheduler → LocalTime → Bool
is_due s now =
    s.config.reboot.proactive.enabled
    && (now.hhmm == s.config.reboot.proactive.schedule && is_new_date s.last_fired_date now.date)

abbrev pub entity_of : Option RebootTarget → Option String
entity_of none = none
entity_of (some t) = some t.entity_id

module _ (registry : HaDeviceRegistry) (env : Env) (mac mode : String) where
  -- The preview of the branch `if self.config.reboot.dry_run`.
  unfoldable pub preview : Result (Option RebootTarget) → Act
  preview (raise e) s = (raise e, s)
  preview (ok target) s =
      (do
        modify (emit (would_reboot mac (entity_of target)))
        insert_row env (record {
          mac = mac;
          mode = mode;
          outcome = "dry_run";
          target = entity_of target;
          dry_run = true;
        }))
        s

  -- From `await self.rebooter.reboot(target)` on.
  unfoldable pub fire : Result (Option RebootTarget) → Act
  fire (raise e) s = (raise e, s)
  fire (ok none) s = (ok tt, s)
  fire (ok (some target)) s =
      (do
        await env reboot (emit (rebooted target))
        modify (λ s. record s { cooldown = Cooldown.record_reboot s.cooldown mac env.fired_now })
        insert_row env (record {
          mac = mac;
          mode = mode;
          outcome = "fired";
          target = some target.entity_id;
          dry_run = false;
        })
        modify (emit (reboot_fired mac))
        λ s. (if s.ha then await env notify (emit (notified mac)) else done) s)
        s

  -- The cooldown's answer; its pruned deque is kept.
  unfoldable pub gated : Verdict → Act
  gated allowed s = fire (resolve_reboot_target mac s.config registry) s
  gated (denied reason retry) s = (ok tt, emit (reboot_deferred mac reason retry) s)

  unfoldable pub attempt : Act
  unfolding insert_row preview fire gated
  attempt s =
      if not (is_reboot_eligible mac s.config)
      then (ok tt, s)
      else if s.config.reboot.dry_run
      then preview (resolve_reboot_target mac s.config registry) s
      else let (verdict, cooldown') = Cooldown.can_reboot s.cooldown mac env.gate_now in
        gated verdict (record s { cooldown = cooldown' })

-- `except Exception: logger.exception(…)`
abbrev pub swallow : String → Result (Unit {0}) × RebootScheduler → RebootScheduler
swallow mac (ok _, s) = s
swallow mac (raise _, s) = emit (attempt_failed mac) s

-- The loop of `run_due`, one environment for each attempt.
unfoldable pub sweep :
    HaDeviceRegistry → (ℕ → Env) → List String → RebootScheduler → RebootScheduler
sweep registry envs [] s = s
sweep registry envs (mac ∷ rest) s =
    sweep registry (λ k. envs (suc k)) rest
      (swallow mac (attempt registry (envs 0) mac "proactive" s))

unfoldable pub run_due :
    HaDeviceRegistry → (ℕ → Env) → LocalTime → RebootScheduler → RebootScheduler
run_due registry envs now s =
    if is_due s now
    then sweep registry envs s.config.reboot.eligible (record s { last_fired_date = some now.date })
    else s

unfoldable pub update_config : Config → RebootScheduler → RebootScheduler
update_config config s = record s {
  config = config;
  cooldown =
      Cooldown.update_params s.cooldown config.reboot.cooldown.per_device_seconds
        config.reboot.cooldown.max_per_device_per_day;
}
