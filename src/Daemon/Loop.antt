-- ===== src/Daemon/Loop.antt =====
-- wifi_shepard/main.py: `Daemon.run`, as the steps of its tasks in any order. The loop over the scanners
-- gives way between two scans here. In the program it also does at each await of a scan: a reload that
-- falls into a scan is not modelled.
use wifi_shepard.Config.{Config}
use wifi_shepard.Controller.{ClientSnapshot}
use wifi_shepard.Daemon.{Daemon, build_scanners, watch_tick, on_sighup, on_sigterm, scheduler_tick}
use wifi_shepard.Prelude.{
  ℕ, zero, suc, String, true, Option, none, some, List, [], ◌∷◌, if◌then◌else◌, Result,
}
use wifi_shepard.Reboot.Resolver.{HaDeviceRegistry}
use wifi_shepard.Reboot.Scheduler
use wifi_shepard.Reboot.Scheduler.{LocalTime}
use wifi_shepard.Scanner.{Scanner, CycleEnv, run_once}

-- Where the main task stands: at the scanner of an index in a pass, at the wait between two passes,
-- or past the loop.
pub data Phase : Type 0 where
  scanning : ℕ → Phase
  pausing over : Phase

pub record Running : Type 0 where
  pub daemon : Daemon
  pub phase : Phase

-- A step of the main task, of the watch and of the scheduler, and the two signals; each with what it
-- reads.
pub data Event : Type 0 where
  turn : CycleEnv → Result (List ClientSnapshot) → Event
  watch : Option String → Result Config → Event
  sweep : HaDeviceRegistry → (ℕ → Scheduler.Env) → LocalTime → Event
  sighup : Result Config → Event
  sigterm : Event

-- `self._scanners[k]`, and the list with that scanner replaced
abbrev pub nth : ℕ → List Scanner → Option Scanner
nth k [] = none
nth zero (s ∷ rest) = some s
nth (suc k) (s ∷ rest) = nth k rest

abbrev pub replace : ℕ → Scanner → List Scanner → List Scanner
replace k t [] = []
replace zero t (s ∷ rest) = t ∷ rest
replace (suc k) t (s ∷ rest) = s ∷ replace k t rest

module _ (local_time : String → ℕ → Result ℕ) where
  -- The scan of one scanner, whose exception is logged; after the last one the pass is over.
  abbrev pub scan_turn :
      CycleEnv → Result (List ClientSnapshot) → ℕ → Option Scanner → Daemon → Running
  scan_turn e answer k (some s) d = record {
    daemon = record d { scanners = replace k (run_once local_time e answer s).1 d.scanners };
    phase = scanning (suc k);
  }
  scan_turn e answer k none d = record {
    daemon = record d { first_cycle_started = true };
    phase = pausing;
  }

  -- The main task: the head of the loop, or a scan.
  unfoldable pub main_turn : CycleEnv → Result (List ClientSnapshot) → Phase → Daemon → Running
  main_turn e answer (scanning k) d = scan_turn e answer k (nth k d.scanners) d
  main_turn e answer pausing d = record {
    daemon = d;
    phase = if d.shut_down then over else scanning 0;
  }
  main_turn e answer over d = record { daemon = d; phase = over }

  unfoldable pub step : Event → Running → Running
  unfolding main_turn
  step (turn e answer) r = main_turn e answer r.phase r.daemon
  step (watch digest loaded) r = record r { daemon = watch_tick digest loaded r.daemon }
  step (sweep registry envs now) r = record r { daemon = scheduler_tick registry envs now r.daemon }
  step (sighup loaded) r = record r { daemon = on_sighup loaded r.daemon }
  step sigterm r = record r { daemon = on_sigterm r.daemon }

  unfoldable pub run : List Event → Running → Running
  run [] r = r
  run (e ∷ rest) r = run rest (step e r)

-- `run` once the controllers are logged in: the scanners are built, and the loop's head comes first.
unfoldable pub start : Daemon → Running
start d = record { daemon = record d { scanners = build_scanners d }; phase = pausing }
