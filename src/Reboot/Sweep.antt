-- ===== src/Reboot/Sweep.antt =====
-- What the daily sweep may do: whom it reboots, and how often.
use wifi_shepard.Prelude.{
  ℕ, suc, ◌≤◌, ◌⊎◌, String, ◌≡◌, refl, sym, ap, ◌∙◌, true, false, inl, inr, Option, none, some,
  List, [], ◌∷◌, ◌++◌, map, length, All, eq_refl, arith, Bool-cases, Result, ok, raise, filter_none,
  subst, contains, false, ◌==◌,
}
use mathlib.Core.List.{append_assoc, append-nil}
use wifi_shepard.Config.{Config}
use wifi_shepard.Mac.{normalize_mac}
use wifi_shepard.Reboot.Attempt.{is_reboot, reboots, Kept, Fired, attempt-Kept, attempt-Fired}
use wifi_shepard.Window.{All-mono}
use wifi_shepard.Reboot.Eligibility.{is_reboot_eligible}
use wifi_shepard.Reboot.Resolver.{
  HaDeviceRegistry, HaEntity, RebootTarget, resolve_reboot_target, from_override, from_registry,
  find_target, pick_ha_entity, picked,
}
use wifi_shepard.Reboot.Scheduler.{
  RebootScheduler, Env, LocalTime, rebooted, attempt_failed, attempt, sweep, run_due, is_due,
  swallow,
}

picked-mac :
    (mac : String) (o : Option (String × String)) (t : RebootTarget)
    → picked mac o ≡ some t
    → t.mac ≡ mac
picked-mac mac none t e = cc
picked-mac mac (some (entity, source)) t e =
    let q : record { mac = mac; entity_id = entity; source = source } ≡ t = cc in
    sym (ap (λ (u : RebootTarget). u.mac) q)

from_registry-mac :
    (mac : String) (r : Result (Option (List HaEntity))) (t : RebootTarget)
    → from_registry mac r ≡ ok (some t)
    → t.mac ≡ mac
unfolding from_registry
from_registry-mac mac (raise x) t e = cc
from_registry-mac mac (ok none) t e = cc
from_registry-mac mac (ok (some entities)) t e = picked-mac mac (pick_ha_entity entities) t cc

from_override-mac :
    (mac : String) (registry : HaDeviceRegistry) (o : Option String) (t : RebootTarget)
    → from_override mac registry o ≡ ok (some t)
    → t.mac ≡ mac
unfolding from_override
from_override-mac mac registry none t e = from_registry-mac mac (registry mac) t e
from_override-mac mac registry (some entity) t e = picked-mac mac (some (entity, "override")) t cc

-- A resolved target belongs to the device that was asked for.
resolve_reboot_target-mac :
    (mac : String) (config : Config) (registry : HaDeviceRegistry) (t : RebootTarget)
    → is_reboot_eligible mac config ≡ true
    → resolve_reboot_target mac config registry ≡ ok (some t)
    → t.mac ≡ mac
unfolding resolve_reboot_target
resolve_reboot_target-mac mac config registry t opted e =
    from_override-mac mac registry (find_target (normalize_mac mac) config.reboot.overrides) t
      (rw opted at e)

-- A device that may be rebooted now: reboots are on and live, and of the device's address, in its
-- canonical form, one stands on the opt-in list and none on the allowlist.
pub record MayReboot (config : Config) (t : RebootTarget) : Type 0 where
  pub on : config.reboot.enabled ≡ true
  pub live : config.reboot.dry_run ≡ false
  pub opted_in : contains (normalize_mac t.mac) (map normalize_mac config.reboot.eligible) ≡ true
  pub unlisted :
      All (λ entry. (normalize_mac entry == normalize_mac t.mac) ≡ false) config.allowlist

contains-All :
    (mac : String) (entries : List String)
    → contains mac (map normalize_mac entries) ≡ false
    → All (λ entry. (normalize_mac entry == mac) ≡ false) entries
contains-All mac [] e = tt
contains-All mac (entry ∷ entries) e = (ground arith, contains-All mac entries (ground arith))

is_reboot_eligible-MayReboot :
    (config : Config) (t : RebootTarget)
    → is_reboot_eligible t.mac config ≡ true
    → config.reboot.dry_run ≡ false
    → MayReboot config t
unfolding is_reboot_eligible
is_reboot_eligible-MayReboot config t e live = record {
  on = ground arith;
  live = live;
  opted_in = ground arith;
  unlisted = contains-All (normalize_mac t.mac) config.allowlist (ground arith);
}

MayReboot-kept : (c c' : Config) → c' ≡ c → (t : RebootTarget) → MayReboot c' t → MayReboot c t
MayReboot-kept c c' e t m = subst (λ (d : Config). MayReboot d t) e m

-- The reboots of a sweep over some devices: each of a device that is opted in and not on the
-- allowlist, none in a dry run, and one for each device at most.
pub record Swept (config : Config) (macs : List String) (s s' : RebootScheduler) : Type 0 where
  pub fired : List RebootTarget
  pub trace : reboots s' ≡ reboots s ++ map rebooted fired
  pub each : All (MayReboot config) fired
  pub few : length fired ≤ length macs
  pub config_kept : s'.config ≡ s.config

reboots-swallow :
    (mac : String) (r : Result (Unit {0})) (s : RebootScheduler)
    → reboots (swallow mac (r, s)) ≡ reboots s
reboots-swallow mac (ok x) s = refl
reboots-swallow mac (raise e) s = filter_none is_reboot s.trace (attempt_failed mac) refl

swallow-Kept :
    (mac : String) (s : RebootScheduler) (r : Result (Unit {0})) (s' : RebootScheduler)
    → Kept s s'
    → Kept s (swallow mac (r, s'))
swallow-Kept mac s (ok x) s' k = k
swallow-Kept mac s (raise e) s' k = record { config = k.config; date = k.date }

Swept-none : (macs : List String) (s : RebootScheduler) → Swept s.config macs s s
Swept-none macs s = record {
  fired = [];
  trace = sym (append-nil (reboots s));
  each = tt;
  few = omega arith;
  config_kept = refl;
}

module _ (registry : HaDeviceRegistry) where
  Swept-cons :
      (env : Env) (mac : String) (macs : List String) (s s' t : RebootScheduler)
      → Kept s s'
      → (reboots s' ≡ reboots s) ⊎ Fired registry env mac s s'
      → Swept s'.config macs s' t
      → Swept s.config (mac ∷ macs) s t
  Swept-cons env mac macs s s' t k (inl e) w = record {
    fired = w.fired;
    trace = w.trace ∙ ap (λ r. r ++ map rebooted w.fired) e;
    each =
        All-mono (MayReboot s'.config) (MayReboot s.config)
          (MayReboot-kept s.config s'.config k.config) w.fired w.each;
    few = omega (arith, w.few);
    config_kept = w.config_kept ∙ k.config;
  }
  Swept-cons env mac macs s s' t k (inr f) w = record {
    fired = f.target ∷ w.fired;
    trace =
        w.trace
        ∙ ap (λ r. r ++ map rebooted w.fired) f.one
        ∙ append_assoc (reboots s) (rebooted f.target ∷ []) (map rebooted w.fired);
    each = (
      let m = resolve_reboot_target-mac mac s.config registry f.target f.eligible f.resolved in
          is_reboot_eligible-MayReboot s.config f.target (rw m f.eligible) f.live,
      All-mono (MayReboot s'.config) (MayReboot s.config)
          (MayReboot-kept s.config s'.config k.config) w.fired w.each,
    );
    few = omega (arith, w.few);
    config_kept = w.config_kept ∙ k.config;
  }

  swallow-Fired :
      (env : Env) (mac : String) (s : RebootScheduler) (r : Result (Unit {0}))
      (s' : RebootScheduler)
      → (reboots s' ≡ reboots s) ⊎ Fired registry env mac s s'
      → (reboots (swallow mac (r, s')) ≡ reboots s) ⊎ Fired registry env mac s (swallow mac (r, s'))
  swallow-Fired env mac s r s' (inl e) = inl (reboots-swallow mac r s' ∙ e)
  swallow-Fired env mac s r s' (inr f) = inr (record {
    target = f.target;
    eligible = f.eligible;
    live = f.live;
    cooled = f.cooled;
    resolved = f.resolved;
    one = reboots-swallow mac r s' ∙ f.one;
  })

  step-Kept :
      (env : Env) (mac : String) (s : RebootScheduler)
      → Kept s (swallow mac (attempt registry env mac "proactive" s))
  step-Kept env mac s =
      let r : Result (Unit {0}) × RebootScheduler = attempt registry env mac "proactive" s in
      swallow-Kept mac s r.0 r.1 (attempt-Kept registry env mac "proactive" s)

  sweep-Swept :
      (envs : ℕ → Env) (macs : List String) (s : RebootScheduler)
      → Swept s.config macs s (sweep registry envs macs s)
  unfolding sweep
  sweep-Swept envs [] s = Swept-none [] s
  sweep-Swept envs (mac ∷ rest) s =
      let r : Result (Unit {0}) × RebootScheduler = attempt registry (envs 0) mac "proactive" s in
      Swept-cons (envs 0) mac rest s (swallow mac r) _ (step-Kept (envs 0) mac s)
        (swallow-Fired (envs 0) mac s r.0 r.1 (attempt-Fired registry (envs 0) mac "proactive" s))
        (sweep-Swept (λ k. envs (suc k)) rest (swallow mac r))

  sweep-date :
      (envs : ℕ → Env) (macs : List String) (s : RebootScheduler)
      → (sweep registry envs macs s).last_fired_date ≡ s.last_fired_date
  unfolding sweep
  sweep-date envs [] s = refl
  sweep-date envs (mac ∷ rest) s =
      sweep-date (λ k. envs (suc k)) rest _ ∙ (step-Kept (envs 0) mac s).date

  -- Whenever the sweep is called, it reboots only devices that the configuration opts in and whose
  -- address equals no entry of its allowlist once both are in canonical form, none in a dry run or
  -- with reboots off, and at most one for each entry of the opt-in list; what was rebooted before
  -- stays recorded, and the configuration is kept.
  pub run_due-Swept :
      (envs : ℕ → Env) (now : LocalTime) (s : RebootScheduler)
      → Swept s.config s.config.reboot.eligible s (run_due registry envs now s)
  unfolding run_due
  run_due-Swept envs now s = elim (Bool-cases (is_due s now)) [
    | inr idle ↦ rw idle (Swept-none s.config.reboot.eligible s)
    | inl due ↦ rw due (
        let w =
          sweep-Swept envs s.config.reboot.eligible
            (record s { last_fired_date = some now.date }) in
        record {
          fired = w.fired;
          trace = w.trace;
          each = w.each;
          few = w.few;
          config_kept = w.config_kept;
        })
  ]

  not_due_again :
      (s : RebootScheduler) (later : LocalTime)
      → s.last_fired_date ≡ some later.date
      → is_due s later ≡ false
  unfolding is_due
  not_due_again s later e = rw (e, eq_refl later.date) (ground arith)

  -- A sweep that was due is the only one of its date: called again on that date, at whatever time,
  -- the scheduler stays as it is.
  pub run_due-same_date :
      (envs envs' : ℕ → Env) (now later : LocalTime) (s : RebootScheduler)
      → is_due s now ≡ true
      → later.date ≡ now.date
      → run_due registry envs' later (run_due registry envs now s) ≡ run_due registry envs now s
  unfolding run_due
  run_due-same_date envs envs' now later s due e =
      let d =
        sweep-date envs s.config.reboot.eligible (record s { last_fired_date = some now.date }) in
      let again =
        not_due_again
          (sweep registry envs s.config.reboot.eligible
            (record s { last_fired_date = some now.date }))
          later (d ∙ ap some (sym e)) in
      rw (due, again) refl
