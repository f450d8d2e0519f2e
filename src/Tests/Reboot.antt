-- ===== src/Tests/Reboot.antt =====
-- The daily sweep at a scheduler with one device.
use wifi_shepard.Prelude.{
  String, List, ◌∷◌, seconds, arith, ℕ, true, false, none, some, [], ◌∷◌, ok, refl, ◌≡◌, ◌⊎◌,
}
use wifi_shepard.Reboot.Cooldown.Spacing
use wifi_shepard.Reboot.Attempt
use wifi_shepard.Reboot.Attempt.{reboots, Fired}
use wifi_shepard.Reboot.Cooldown
use wifi_shepard.Reboot.Resolver.{HaDeviceRegistry}
use wifi_shepard.Reboot.Scheduler.{RebootScheduler, Env, LocalTime, is_due, run_due, attempt}
use wifi_shepard.Reboot.Sweep
use wifi_shepard.Reboot.Sweep.{Swept}
use wifi_shepard.Tests.Fixtures.{config_with}

-- Every device has a restart button.
abbrev buttons : HaDeviceRegistry
buttons mac = ok (
    some (
      record { entity_id = "button.restart"; domain = "button"; device_class = some "restart" }
      ∷ []))

abbrev idle : RebootScheduler
idle = record {
  config = config_with false;
  cooldown = Cooldown.new 3600 1;
  last_fired_date = none;
  ha = false;
  db = [];
  trace = [];
}

abbrev envs : ℕ → Env
envs k = record { gate_now = 5000000000; fired_now = 5001000000; fails = λ call. false }

abbrev scheduled : LocalTime
scheduled = record { date = "2026-01-01"; hhmm = "03:30" }

abbrev later : LocalTime
later = record { date = "2026-01-01"; hhmm = "03:31" }

idle_due : is_due idle scheduled ≡ true
unfolding is_due
idle_due = refl

run_due-Swept_example : Swept idle.config ("aa" ∷ []) idle (run_due buttons envs scheduled idle)
run_due-Swept_example = Sweep.run_due-Swept buttons envs scheduled idle

run_due-same_date_example :
    run_due buttons envs later (run_due buttons envs scheduled idle)
    ≡ run_due buttons envs scheduled idle
run_due-same_date_example =
    Sweep.run_due-same_date buttons envs envs scheduled later idle idle_due refl

attempt-Fired_example :
    (reboots (attempt buttons (envs 0) "aa" "proactive" idle).1 ≡ reboots idle)
    ⊎ Fired buttons (envs 0) "aa" idle (attempt buttons (envs 0) "aa" "proactive" idle).1
attempt-Fired_example = Attempt.attempt-Fired buttons (envs 0) "aa" "proactive" idle

-- Four attempts on two devices, one of them within the cooldown.
abbrev attempts : List (String × ℕ)
attempts = ("aa", 1000000) ∷ ("bb", 2000000) ∷ ("aa", 3000000) ∷ ("aa", 3700000000) ∷ []

new-Spaced_example :
    Spacing.Spaced (seconds 3600) (Spacing.reboot_times (Cooldown.new 3600 2) attempts "aa" [])
new-Spaced_example = Spacing.new-Spaced 3600 2 "aa" attempts (omega arith)
