-- ===== src/Reboot/Attempt.antt =====
-- What one attempt to reboot a device may do, and behind which gates.
use wifi_shepard.Prelude.{
  String, ◌≡◌, refl, Bool, true, false, ◌⊎◌, inl, inr, Option, none, some, List, [], ◌∷◌, ◌++◌,
  arith, Bool-cases, Result, ok, raise, filter, filter-append, filter_none,
}
use wifi_shepard.Reboot.Cooldown
use wifi_shepard.Reboot.Eligibility.{is_reboot_eligible}
use wifi_shepard.Reboot.Resolver.{HaDeviceRegistry, RebootTarget, resolve_reboot_target}
use wifi_shepard.Reboot.Scheduler.{
  reboot, entity_of, RebootScheduler, Env, Event, rebooted, notified, would_reboot, reboot_deferred,
  reboot_fired, attempt_failed, attempt, preview, fire, gated, insert_row,
}
use wifi_shepard.Verdict.{Verdict, allowed, denied}

abbrev pub is_reboot : Event → Bool
is_reboot (rebooted _) = true
is_reboot (notified _) = false
is_reboot (would_reboot _ _) = false
is_reboot (reboot_deferred _ _ _) = false
is_reboot (reboot_fired _) = false
is_reboot (attempt_failed _) = false

-- The devices that were power-cycled, in order.
abbrev pub reboots : RebootScheduler → List Event
reboots s = filter is_reboot s.trace

-- An attempt changes neither the configuration nor the date.
pub record Kept (s s' : RebootScheduler) : Type 0 where
  pub config : s'.config ≡ s.config
  pub date : s'.last_fired_date ≡ s.last_fired_date

-- A reboot and the gates that it passed: the device is opted in and not on the allowlist, reboots are
-- not in dry run, its cooldown is open, and this target was resolved for it.
pub record Fired (registry : HaDeviceRegistry) (env : Env) (mac : String) (s s' : RebootScheduler)
    : Type 0 where
  pub target : RebootTarget
  pub eligible : is_reboot_eligible mac s.config ≡ true
  pub live : s.config.reboot.dry_run ≡ false
  pub cooled : (Cooldown.can_reboot s.cooldown mac env.gate_now).0 ≡ allowed
  pub resolved : resolve_reboot_target mac s.config registry ≡ ok (some target)
  pub one : reboots s' ≡ reboots s ++ rebooted target ∷ []

-- What `fire` does with a resolution.
data Shot (t : Result (Option RebootTarget)) (s s' : RebootScheduler) : Type 0 where
  missed : reboots s' ≡ reboots s → Shot t s s'
  hit :
      (target : RebootTarget)
      → t ≡ ok (some target)
      → reboots s' ≡ reboots s ++ rebooted target ∷ []
      → Shot t s s'

module _ (registry : HaDeviceRegistry) (env : Env) (mac mode : String) where
  fire-Kept :
      (t : Result (Option RebootTarget)) (s : RebootScheduler)
      → Kept s (fire registry env mac mode t s).1
  unfolding fire insert_row
  fire-Kept (raise e) s = record { config = refl; date = refl }
  fire-Kept (ok none) s = record { config = refl; date = refl }
  fire-Kept (ok (some t)) s = record { config = ground arith; date = ground arith }

  fire-Shot :
      (t : Result (Option RebootTarget)) (s : RebootScheduler)
      → Shot t s (fire registry env mac mode t s).1
  unfolding fire insert_row
  fire-Shot (raise e) s = missed refl
  fire-Shot (ok none) s = missed refl
  fire-Shot (ok (some t)) s = elim (Bool-cases (env.fails reboot)) [
    | inl e ↦ missed (ground arith)
    | inr e ↦ hit t refl (
        ground (
          arith,
          filter-append is_reboot s.trace (rebooted t ∷ []),
          filter_none is_reboot (s.trace ++ rebooted t ∷ []) (reboot_fired mac) refl,
          filter_none is_reboot ((s.trace ++ rebooted t ∷ []) ++ reboot_fired mac ∷ [])
              (notified mac) refl,
        ))
  ]

  preview-Kept :
      (t : Result (Option RebootTarget)) (s : RebootScheduler)
      → Kept s (preview registry env mac mode t s).1
  unfolding preview insert_row
  preview-Kept (raise e) s = record { config = refl; date = refl }
  preview-Kept (ok t) s = record { config = ground arith; date = ground arith }

  preview-reboots :
      (t : Result (Option RebootTarget)) (s : RebootScheduler)
      → reboots (preview registry env mac mode t s).1 ≡ reboots s
  unfolding preview insert_row
  preview-reboots (raise e) s = refl
  preview-reboots (ok t) s =
      ground (arith, filter_none is_reboot s.trace (would_reboot mac (entity_of t)) refl)

  gated-Kept : (v : Verdict) (s : RebootScheduler) → Kept s (gated registry env mac mode v s).1
  unfolding gated
  gated-Kept allowed s = fire-Kept (resolve_reboot_target mac s.config registry) s
  gated-Kept (denied r x) s = record { config = refl; date = refl }

  pub attempt-Kept : (s : RebootScheduler) → Kept s (attempt registry env mac mode s).1
  unfolding attempt
  attempt-Kept s = elim (Bool-cases (is_reboot_eligible mac s.config)) [
    | inr out ↦ rw out (record { config = refl; date = refl })
    | inl opted ↦ rw opted (elim (Bool-cases s.config.reboot.dry_run) [
      | inl dry ↦ simp dry (preview-Kept (resolve_reboot_target mac s.config registry) s)
      | inr live ↦ simp live (
          let k =
            gated-Kept (Cooldown.can_reboot s.cooldown mac env.gate_now).0
              (record s { cooldown = (Cooldown.can_reboot s.cooldown mac env.gate_now).1 }) in
          record { config = k.config; date = k.date })
    ])
  ]

  gated-Fired :
      (v : Verdict) (s : RebootScheduler) (cooldown : Cooldown.RebootCooldown)
      → is_reboot_eligible mac s.config ≡ true
      → s.config.reboot.dry_run ≡ false
      → (Cooldown.can_reboot s.cooldown mac env.gate_now).0 ≡ v
      → (reboots (gated registry env mac mode v (record s { cooldown = cooldown })).1 ≡ reboots s)
        ⊎ Fired registry env mac s
            (gated registry env mac mode v (record s { cooldown = cooldown })).1
  unfolding gated
  gated-Fired (denied r x) s cooldown opted live cooled = inl (filter_none is_reboot s.trace _ refl)
  gated-Fired allowed s cooldown opted live cooled =
      elim (fire-Shot (resolve_reboot_target mac s.config registry)
        (record s { cooldown = cooldown })) [
          | missed e ↦ inl e
          | hit t r e ↦ inr (record {
            target = t;
            eligible = opted;
            live = live;
            cooled = cooled;
            resolved = r;
            one = e;
          })
        ]

  -- An attempt power-cycles nothing, or one target, resolved for a device that is opted in and not on
  -- the allowlist, outside a dry run and with the device's cooldown open.
  pub attempt-Fired :
      (s : RebootScheduler)
      → (reboots (attempt registry env mac mode s).1 ≡ reboots s)
        ⊎ Fired registry env mac s (attempt registry env mac mode s).1
  unfolding attempt
  attempt-Fired s = elim (Bool-cases (is_reboot_eligible mac s.config)) [
    | inr out ↦ rw out (inl refl)
    | inl opted ↦ rw opted (elim (Bool-cases s.config.reboot.dry_run) [
      | inl dry ↦ simp dry (inl (preview-reboots (resolve_reboot_target mac s.config registry) s))
      | inr live ↦
          simp live
            (gated-Fired (Cooldown.can_reboot s.cooldown mac env.gate_now).0 s _ opted live refl)
    ])
  ]
