-- ===== src/Reboot/Cooldown.antt =====
-- wifi_shepard/reboot/cooldown.py: the single-flight window and the rolling daily cap of a device.
pub mod Spacing
use wifi_shepard.Prelude.{
  ℕ, ◌+◌, ◌-◌, String, ◌&&◌, Option, none, some, List, [], ◌∷◌, ◌++◌, ltb, leb, if◌then◌else◌,
  length, seconds,
}
use wifi_shepard.Dict
use wifi_shepard.Dict.{Dict}
use wifi_shepard.Window.{prune_deque}
use wifi_shepard.Verdict.{Verdict, allowed, denied}

abbrev pub day_seconds : ℕ
day_seconds = 86400

pub record RebootCooldown : Type 0 where
  pub per_device_seconds : ℕ
  pub max_per_device_per_day : ℕ
  pub last_reboot_at : Dict ℕ
  pub per_device : Dict (List ℕ)

abbrev pub new : ℕ → ℕ → RebootCooldown
new per_device per_day = record {
  per_device_seconds = per_device;
  max_per_device_per_day = per_day;
  last_reboot_at = Dict.empty;
  per_device = Dict.empty;
}

abbrev pub reboots_of : RebootCooldown → String → List ℕ
reboots_of c mac = Dict.get_or c.per_device mac []

unfoldable pub check_single : ℕ → ℕ → Option ℕ → Verdict
check_single per_device now none = allowed
check_single per_device now (some last) =
    if ltb 0 per_device && ltb now (last + seconds per_device)
    then denied "cooldown" (last + seconds per_device - now)
    else allowed

-- `_prune`; it is the loop of the rate limiter, over a day.
unfoldable pub prune : RebootCooldown → String → ℕ → RebootCooldown
prune c mac now = record c {
  per_device = Dict.put c.per_device mac (prune_deque (seconds day_seconds) now (reboots_of c mac));
}

unfoldable pub check_day : ℕ → ℕ → List ℕ → Verdict
check_day per_day now [] = allowed
check_day per_day now (oldest ∷ ts) =
    if leb per_day (length (oldest ∷ ts))
    then denied "daily_cap" (oldest + seconds day_seconds - now)
    else allowed

unfoldable day_gate : RebootCooldown → String → ℕ → Verdict → Verdict × RebootCooldown
day_gate c mac now (denied reason retry) = (denied reason retry, c)
day_gate c mac now allowed =
    if ltb 0 c.max_per_device_per_day
    then (
      check_day c.max_per_device_per_day now
          (prune_deque (seconds day_seconds) now (reboots_of c mac)),
      prune c mac now,
    )
    else (allowed, c)

unfoldable pub can_reboot : RebootCooldown → String → ℕ → Verdict × RebootCooldown
unfolding day_gate check_single check_day prune
can_reboot c mac now =
    day_gate c mac now (check_single c.per_device_seconds now (Dict.get c.last_reboot_at mac))

unfoldable pub record_reboot : RebootCooldown → String → ℕ → RebootCooldown
record_reboot c mac now =
    let c' : RebootCooldown = record c { last_reboot_at = Dict.put c.last_reboot_at mac now } in
    if ltb 0 c.max_per_device_per_day
    then record c' { per_device = Dict.put c.per_device mac (reboots_of c mac ++ now ∷ []) }
    else c'

unfoldable pub update_params : RebootCooldown → ℕ → ℕ → RebootCooldown
update_params c per_device per_day = record c {
  per_device_seconds = per_device;
  max_per_device_per_day = per_day;
}
