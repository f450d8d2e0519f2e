-- ===== src/Daemon.antt =====
-- wifi_shepard/main.py: the daemon's state, how it is built, and the handlers that change it. A reading
-- of the configuration's file is an argument: its digest, `none` where it cannot be read, and what
-- `load_config_from_path` answers.
pub mod Loop
pub mod Agreement
pub mod Started
pub mod Kept
pub mod Stops
pub mod Closing
use wifi_shepard.Config.{Config, ControllerSpec}
use wifi_shepard.Dns.Detector
use wifi_shepard.Dns.Detector.{DnsThrashDetector}
use wifi_shepard.Dns.Factory.{PiholeSource, build_dns_sources}
use wifi_shepard.Pipeline
use wifi_shepard.Prelude.{
  ℕ, String, Bool, true, false, not, ◌&&◌, ◌||◌, Option, none, some, List, [], ◌∷◌, map, ◌==◌,
  if◌then◌else◌, Result, ok, raise, ◌>>=◌, value_error, each, is_some,
}
use wifi_shepard.Reboot.Cooldown
use wifi_shepard.Reboot.Resolver.{HaDeviceRegistry}
use wifi_shepard.Reboot.Scheduler
use wifi_shepard.Reboot.Scheduler.{RebootScheduler, LocalTime}
use wifi_shepard.Scanner
use wifi_shepard.Scanner.{Scanner}
use wifi_shepard.Unifi.Session.{UniFiController, build_controller}

-- The keyword arguments of `build_daemon`; the ones that are other objects appear as whether they are
-- given. `database` is whether `create_database` raises.
pub record Injected : Type 0 where
  pub controllers : Option (List UniFiController)
  pub ha : Bool
  pub rebooter : Bool
  pub registry : Option HaDeviceRegistry
  pub database : Result (Unit {0})

pub record Daemon : Type 0 where
  pub config : Config
  pub controllers : List UniFiController
  pub ha : Bool
  pub registry : Option HaDeviceRegistry
  pub dns_source : Option (List PiholeSource)
  pub scanners : List Scanner
  pub scheduler : Option RebootScheduler
  pub config_digest_seen : Option String
  pub first_cycle_started : Bool
  pub config_reloaded : Bool
  pub config_reload_attempted : Bool
  pub shut_down : Bool

abbrev pub controllers_of :
    Option (List UniFiController) → List ControllerSpec → Result (List UniFiController)
controllers_of (some cs) specs = ok cs
controllers_of none [] = raise value_error
controllers_of none (spec ∷ rest) = each build_controller (spec ∷ rest)

abbrev new_scheduler : Config → Bool → RebootScheduler
new_scheduler config ha = record {
  config = config;
  cooldown =
      Cooldown.new config.reboot.cooldown.per_device_seconds
        config.reboot.cooldown.max_per_device_per_day;
  last_fired_date = none;
  ha = ha;
  db = [];
  trace = [];
}

unfoldable pub build_scheduler : Config → Injected → Bool → Option RebootScheduler
build_scheduler config injected ha =
    if config.reboot.enabled && config.reboot.proactive.enabled
    then (if injected.rebooter && is_some injected.registry
        then some (new_scheduler config ha)
        else none)
    else none

-- `Daemon.__init__`
unfoldable pub init : Injected → Result Config → Option String → Result Daemon
unfolding each
init injected loaded digest = do
  config ← loaded
  controllers ← controllers_of injected.controllers config.controllers
  _ ← injected.database
  source ← build_dns_sources config.dns_sources
  let ha = injected.ha || is_some config.home_assistant
  ok (record {
    config = config;
    controllers = controllers;
    ha = ha;
    registry = injected.registry;
    dns_source = source;
    scanners = [];
    scheduler = build_scheduler config injected ha;
    config_digest_seen = digest;
    first_cycle_started = false;
    config_reloaded = false;
    config_reload_attempted = false;
    shut_down = false;
  })

unfoldable pub build_dns_detector : Daemon → Option DnsThrashDetector
build_dns_detector d =
    if is_some d.config.detection.dns_thrash && is_some d.dns_source
    then some (Detector.new d.config)
    else none

-- The scanner of each controller.
unfoldable pub build_scanners : Daemon → List Scanner
build_scanners d =
    map
      (λ (c : UniFiController). record {
        config = d.config;
        pipeline = Pipeline.build_pipeline d.config d.ha;
        detector = build_dns_detector d;
      })
      d.controllers

abbrev pub retuned : Config → Option RebootScheduler → Option RebootScheduler
retuned config none = none
retuned config (some s) = some (Scheduler.update_config config s)

-- `_reload_config`, with what the loader answers
unfoldable pub reload_config : Result Config → Daemon → Bool × Daemon
reload_config (raise e) d = (false, record d { config_reload_attempted = true })
reload_config (ok config) d = (
  true,
  record d {
    config_reload_attempted = true;
    config = config;
    scanners = map (Scanner.update_config config) d.scanners;
    scheduler = retuned config d.scheduler;
    config_reloaded = true;
  },
)

abbrev pub is_seen : String → Option String → Bool
is_seen digest none = false
is_seen digest (some seen) = digest == seen

abbrev watched : Option String → Result Config → Daemon → Daemon
watched none loaded d = d
watched (some digest) loaded d =
    if is_seen digest d.config_digest_seen
    then d
    else (reload_config loaded (record d { config_digest_seen = some digest })).1

-- One tick of `_watch_config`, from the end of its wait.
unfoldable pub watch_tick : Option String → Result Config → Daemon → Daemon
watch_tick digest loaded d = if d.shut_down then d else watched digest loaded d

unfoldable pub on_sighup : Result Config → Daemon → Daemon
on_sighup loaded d = (reload_config loaded d).1

unfoldable pub on_sigterm : Daemon → Daemon
on_sigterm d = record d { shut_down = true }

abbrev pub swept :
    HaDeviceRegistry
    → (ℕ → Scheduler.Env)
    → LocalTime
    → Option RebootScheduler
    → Option RebootScheduler
swept registry envs now none = none
swept registry envs now (some s) = some (Scheduler.run_due registry envs now s)

-- One tick of `_run_scheduler`; a daemon with no scheduler has no such task.
unfoldable pub scheduler_tick : HaDeviceRegistry → (ℕ → Scheduler.Env) → LocalTime → Daemon → Daemon
scheduler_tick registry envs now d =
    if d.shut_down then d else record d { scheduler = swept registry envs now d.scheduler }
