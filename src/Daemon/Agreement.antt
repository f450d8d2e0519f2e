-- ===== src/Daemon/Agreement.antt =====
-- Which configuration the parts of a daemon read.
use wifi_shepard.Config.{Config}
use wifi_shepard.Controller.{ClientSnapshot}
use wifi_shepard.Daemon.{
  Daemon, reload_config, watch_tick, watched, on_sighup, on_sigterm, scheduler_tick, retuned, swept,
  is_seen,
}
use wifi_shepard.Daemon.Loop.{
  Running, Phase, Event, scanning, pausing, over, turn, watch, sweep, sighup, sigterm, nth, replace,
  scan_turn, main_turn, step, run,
}
use wifi_shepard.Prelude.{
  ℕ, zero, suc, String, Option, none, some, List, [], ◌∷◌, map, ◌≡◌, refl, ◌∙◌, Result, ok, raise,
  All, if_intro, subst,
}
use wifi_shepard.Reboot.Resolver.{HaDeviceRegistry}
use wifi_shepard.Reboot.Scheduler
use wifi_shepard.Reboot.Scheduler.{RebootScheduler, LocalTime}
use wifi_shepard.Reboot.Sweep.{run_due-Swept}
use wifi_shepard.Scanner
use wifi_shepard.Scanner.{Scanner, CycleEnv, run_once}
use wifi_shepard.Scanner.Following.{Follows, run_once-Follows, update_config-Follows}

abbrev pub Obeys : Config → Option RebootScheduler → Type 0
Obeys config none = Unit
Obeys config (some s) = s.config ≡ config

-- All the parts read the daemon's configuration.
pub record Consistent (d : Daemon) : Type 0 where
  pub scanners : All (Follows d.config) d.scanners
  pub scheduler : Obeys d.config d.scheduler

All-update_config :
    (config : Config) (ss : List Scanner)
    → All (Follows config) (map (Scanner.update_config config) ss)
All-update_config config [] = tt
All-update_config config (s ∷ ss) = (update_config-Follows config s, All-update_config config ss)

Obeys-retuned : (config : Config) (s : Option RebootScheduler) → Obeys config (retuned config s)
unfolding Scheduler.update_config
Obeys-retuned config none = tt
Obeys-retuned config (some s) = refl

reload_config-Consistent :
    (loaded : Result Config) (d : Daemon) → Consistent d → Consistent (reload_config loaded d).1
unfolding reload_config
reload_config-Consistent (raise e) d c = record { scanners = c.scanners; scheduler = c.scheduler }
reload_config-Consistent (ok config) d c = record {
  scanners = All-update_config config d.scanners;
  scheduler = Obeys-retuned config d.scheduler;
}

watched-Consistent :
    (digest : Option String) (loaded : Result Config) (d : Daemon)
    → Consistent d
    → Consistent (watched digest loaded d)
watched-Consistent none loaded d c = c
watched-Consistent (some digest) loaded d c =
    let d' : Daemon = record d { config_digest_seen = some digest } in
    if_intro Consistent (is_seen digest d.config_digest_seen) d (reload_config loaded d').1 (λ _. c)
      (λ _.
        reload_config-Consistent loaded d'
          (record { scanners = c.scanners; scheduler = c.scheduler }))

watch_tick-Consistent :
    (digest : Option String) (loaded : Result Config) (d : Daemon)
    → Consistent d
    → Consistent (watch_tick digest loaded d)
unfolding watch_tick
watch_tick-Consistent digest loaded d c =
    if_intro Consistent d.shut_down d (watched digest loaded d) (λ _. c)
      (λ _. watched-Consistent digest loaded d c)

Obeys-swept :
    (registry : HaDeviceRegistry) (envs : ℕ → Scheduler.Env) (now : LocalTime) (config : Config)
    (s : Option RebootScheduler)
    → Obeys config s
    → Obeys config (swept registry envs now s)
Obeys-swept registry envs now config none o = tt
Obeys-swept registry envs now config (some s) o =
    (run_due-Swept registry envs now s).config_kept ∙ o

scheduler_tick-Consistent :
    (registry : HaDeviceRegistry) (envs : ℕ → Scheduler.Env) (now : LocalTime) (d : Daemon)
    → Consistent d
    → Consistent (scheduler_tick registry envs now d)
unfolding scheduler_tick
scheduler_tick-Consistent registry envs now d c =
    if_intro Consistent d.shut_down d (record d { scheduler = swept registry envs now d.scheduler })
      (λ _. c)
      (λ _. record {
        scanners = c.scanners;
        scheduler = Obeys-swept registry envs now d.config d.scheduler c.scheduler;
      })

module _ (config : Config) where
  pub All-nth :
      (k : ℕ) (ss : List Scanner) (s : Scanner)
      → All (Follows config) ss
      → nth k ss ≡ some s
      → Follows config s
  All-nth k [] s fs e = cc
  All-nth zero (t ∷ ss) s fs e = let q : t ≡ s = cc in subst (Follows config) q (fs.0)
  All-nth (suc k) (t ∷ ss) s fs e = All-nth k ss s (fs.1) e

  All-replace :
      (k : ℕ) (ss : List Scanner) (s : Scanner)
      → All (Follows config) ss
      → Follows config s
      → All (Follows config) (replace k s ss)
  All-replace k [] s fs f = tt
  All-replace zero (t ∷ ss) s fs f = (f, fs.1)
  All-replace (suc k) (t ∷ ss) s fs f = (fs.0, All-replace k ss s (fs.1) f)

module _ (local_time : String → ℕ → Result ℕ) where
  scan_turn-Consistent :
      (e : CycleEnv) (answer : Result (List ClientSnapshot)) (k : ℕ) (o : Option Scanner)
      (d : Daemon)
      → nth k d.scanners ≡ o
      → Consistent d
      → Consistent (scan_turn local_time e answer k o d).daemon
  scan_turn-Consistent e answer k none d eq c = record {
    scanners = c.scanners;
    scheduler = c.scheduler;
  }
  scan_turn-Consistent e answer k (some s) d eq c = record {
    scanners = All-replace d.config k d.scanners (run_once local_time e answer s).1 c.scanners (
        run_once-Follows local_time e answer d.config s
          (All-nth d.config k d.scanners s c.scanners eq));
    scheduler = c.scheduler;
  }

  main_turn-Consistent :
      (e : CycleEnv) (answer : Result (List ClientSnapshot)) (phase : Phase) (d : Daemon)
      → Consistent d
      → Consistent (main_turn local_time e answer phase d).daemon
  unfolding main_turn
  main_turn-Consistent e answer (scanning k) d c =
      scan_turn-Consistent e answer k (nth k d.scanners) d refl c
  main_turn-Consistent e answer pausing d c = c
  main_turn-Consistent e answer over d c = c

  step-Consistent :
      (e : Event) (r : Running) → Consistent r.daemon → Consistent (step local_time e r).daemon
  unfolding step on_sighup on_sigterm
  step-Consistent (turn e answer) r c = main_turn-Consistent e answer r.phase r.daemon c
  step-Consistent (watch digest loaded) r c = watch_tick-Consistent digest loaded r.daemon c
  step-Consistent (sweep registry envs now) r c =
      scheduler_tick-Consistent registry envs now r.daemon c
  step-Consistent (sighup loaded) r c = reload_config-Consistent loaded r.daemon c
  step-Consistent sigterm r c = record { scanners = c.scanners; scheduler = c.scheduler }

  pub run-Consistent :
      (events : List Event) (r : Running)
      → Consistent r.daemon
      → Consistent (run local_time events r).daemon
  unfolding run
  run-Consistent [] r c = c
  run-Consistent (e ∷ events) r c =
      run-Consistent events (step local_time e r) (step-Consistent e r c)
