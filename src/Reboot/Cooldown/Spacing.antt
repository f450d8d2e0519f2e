-- ===== src/Reboot/Cooldown/Spacing.antt =====
-- wifi_shepard/reboot/cooldown.py: a run of attempts against one cooldown.
use wifi_shepard.Prelude.{
  ℕ, ◌+◌, ◌<◌, ◌≤◌, String, Bool, true, false, ◌&&◌, ◌==◌, Option, none, some, List, [], ◌∷◌, ◌≡◌,
  refl, ap, ◌∙◌, arith, ltb, if◌then◌else◌, Bool-cases, inl, inr, eq_iff, seconds, subst,
}
use wifi_shepard.Dict
use wifi_shepard.Dict.{Dict, get-put, get-empty}
use wifi_shepard.Reboot.Cooldown.{
  RebootCooldown, new, can_reboot, record_reboot, check_single, day_gate, prune,
}
use wifi_shepard.Verdict.{Verdict, allowed, denied}

-- A reboot is recorded where it is allowed, as `attempt` of the scheduler does.
settle : String → ℕ → Verdict × RebootCooldown → Bool × RebootCooldown
settle mac now (allowed, c) = (true, record_reboot c mac now)
settle mac now (denied _ _, c) = (false, c)

-- The instants at which one device is rebooted, the latest first.
unfoldable pub reboot_times : RebootCooldown → List (String × ℕ) → String → List ℕ → List ℕ
unfolding settle
reboot_times c [] j h = h
reboot_times c ((mac, now) ∷ rest) j h =
    let (fired, c') = settle mac now (can_reboot c mac now) in
    reboot_times c' rest j (if fired && mac == j then now ∷ h else h)

abbrev pub Spaced : ℕ → List ℕ → Type 0
Spaced gap [] = Unit
Spaced gap (t ∷ []) = Unit
Spaced gap (t ∷ u ∷ us) = (u + gap ≤ t) × Spaced gap (u ∷ us)

abbrev first : List ℕ → Option ℕ
first [] = none
first (t ∷ ts) = some t

record Tracks (per : ℕ) (j : String) (c : RebootCooldown) (h : List ℕ) : Type 0 where
  last : Dict.get c.last_reboot_at j ≡ first h
  period : c.per_device_seconds ≡ per
  spaced : Spaced (seconds per) h

day_gate-allowed :
    (c : RebootCooldown) (mac : String) (now : ℕ) (v : Verdict)
    → (day_gate c mac now v).0 ≡ allowed
    → v ≡ allowed
unfolding day_gate
day_gate-allowed c mac now allowed e = refl
day_gate-allowed c mac now (denied r t) e = cc

day_gate-same :
    (c : RebootCooldown) (mac : String) (now : ℕ) (v : Verdict)
    → (((day_gate c mac now v).1).last_reboot_at ≡ c.last_reboot_at)
      × (((day_gate c mac now v).1).per_device_seconds ≡ c.per_device_seconds)
unfolding day_gate prune
day_gate-same c mac now (denied r t) = (refl, refl)
day_gate-same c mac now allowed = elim (Bool-cases (ltb 0 c.max_per_device_per_day)) [
  | inl e ↦ rw e (refl, refl)
  | inr e ↦ rw e (refl, refl)
]

record_reboot-last :
    (c : RebootCooldown) (mac : String) (now : ℕ)
    → ((record_reboot c mac now).last_reboot_at ≡ Dict.put c.last_reboot_at mac now)
      × ((record_reboot c mac now).per_device_seconds ≡ c.per_device_seconds)
unfolding record_reboot
record_reboot-last c mac now = elim (Bool-cases (ltb 0 c.max_per_device_per_day)) [
  | inl e ↦ rw e (refl, refl)
  | inr e ↦ rw e (refl, refl)
]

check_single-allowed :
    (per now : ℕ) (h : List ℕ)
    → 0 < per
    → check_single per now (first h) ≡ allowed
    → Spaced (seconds per) h
    → Spaced (seconds per) (now ∷ h)
unfolding check_single
check_single-allowed per now [] pos e s = tt
check_single-allowed per now (t ∷ ts) pos e s = (ground arith, s)

can_reboot-same :
    (c : RebootCooldown) (mac : String) (now : ℕ)
    → (((can_reboot c mac now).1).last_reboot_at ≡ c.last_reboot_at)
      × (((can_reboot c mac now).1).per_device_seconds ≡ c.per_device_seconds)
unfolding can_reboot
can_reboot-same c mac now = day_gate-same c mac now _

can_reboot-allowed :
    (c : RebootCooldown) (mac : String) (now : ℕ)
    → (can_reboot c mac now).0 ≡ allowed
    → check_single c.per_device_seconds now (Dict.get c.last_reboot_at mac) ≡ allowed
unfolding can_reboot
can_reboot-allowed c mac now e = day_gate-allowed c mac now _ e

same_after :
    (c : RebootCooldown) (mac : String) (now : ℕ) (r : Verdict × RebootCooldown)
    → can_reboot c mac now ≡ r
    → ((r.1).last_reboot_at ≡ c.last_reboot_at) × ((r.1).per_device_seconds ≡ c.per_device_seconds)
same_after c mac now r e =
    subst
      (λ (s : Verdict × RebootCooldown).
        ((s.1).last_reboot_at ≡ c.last_reboot_at)
        × ((s.1).per_device_seconds ≡ c.per_device_seconds))
      e (can_reboot-same c mac now)

module _ (per : ℕ) (j : String) (pos : 0 < per) where
  carry :
      (c c' : RebootCooldown) (h : List ℕ)
      → Tracks per j c h
      → (c'.last_reboot_at ≡ c.last_reboot_at) × (c'.per_device_seconds ≡ c.per_device_seconds)
      → Tracks per j c' h
  carry c c' h t same = record {
    last = ap (λ d. Dict.get d j) (same.0) ∙ t.last;
    period = same.1 ∙ t.period;
    spaced = t.spaced;
  }

  recorded-Tracks :
      (c : RebootCooldown) (mac : String) (now : ℕ) (h : List ℕ)
      → Tracks per j c h
      → check_single c.per_device_seconds now (Dict.get c.last_reboot_at mac) ≡ allowed
      → Tracks per j (record_reboot c mac now) (if mac == j then now ∷ h else h)
  recorded-Tracks c mac now h t gate =
      let (put, period) = record_reboot-last c mac now in
      let last = ap (λ d. Dict.get d j) put ∙ get-put c.last_reboot_at mac j now in
      elim (Bool-cases (mac == j)) [
        | inl hit ↦
            let gate' =
              subst
                (λ m. check_single c.per_device_seconds now (Dict.get c.last_reboot_at m) ≡ allowed)
                ((eq_iff mac j).0 hit) gate in
            rw hit (record {
              last = last ∙ rw hit refl;
              period = period ∙ t.period;
              spaced =
                  check_single-allowed per now h pos (rw (← t.period, ← t.last) gate') t.spaced;
            })
        | inr miss ↦
            rw miss (record {
              last = last ∙ rw miss t.last;
              period = period ∙ t.period;
              spaced = t.spaced;
            })
      ]

  settle-Tracks :
      (c : RebootCooldown) (mac : String) (now : ℕ) (h : List ℕ) (r : Verdict × RebootCooldown)
      → can_reboot c mac now ≡ r
      → Tracks per j c h
      → Tracks per j
          ((settle mac now r).1)
          (if (settle mac now r).0 && mac == j then now ∷ h else h)
  unfolding settle
  settle-Tracks c mac now h (denied reason retry, c') e t =
      carry c c' h t (same_after c mac now (denied reason retry, c') e)
  settle-Tracks c mac now h (allowed, c') e t =
      let same = same_after c mac now (allowed, c') e in
      recorded-Tracks c' mac now h (carry c c' h t same)
        (rw (same.0, same.1) (can_reboot-allowed c mac now (ap (λ r. r.0) e)))

  reboot_times-Spaced :
      (xs : List (String × ℕ)) (c : RebootCooldown) (h : List ℕ)
      → Tracks per j c h
      → Spaced (seconds per) (reboot_times c xs j h)
  unfolding reboot_times
  reboot_times-Spaced [] c h t = t.spaced
  reboot_times-Spaced ((mac, now) ∷ rest) c h t =
      reboot_times-Spaced rest _ _ (settle-Tracks c mac now h (can_reboot c mac now) refl t)

-- With a cooldown set, whatever attempts are made on whichever devices, at instants in any order: from
-- a new object, two consecutive reboots of one device lie at least the cooldown apart.
pub new-Spaced :
    (per per_day : ℕ) (j : String) (xs : List (String × ℕ))
    → 0 < per
    → Spaced (seconds per) (reboot_times (new per per_day) xs j [])
new-Spaced per per_day j xs pos =
    reboot_times-Spaced per j pos xs (new per per_day) []
      (record { last = get-empty j; period = refl; spaced = tt })
