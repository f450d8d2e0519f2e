-- ===== src/Daemon/Started.antt =====
-- Every state that a started daemon reaches.
use wifi_shepard.Config.{Config}
use wifi_shepard.Controller.{ClientSnapshot}
use wifi_shepard.Daemon.{
  Daemon, Injected, init, build_scheduler, new_scheduler, build_scanners, build_dns_detector,
  controllers_of,
}
use wifi_shepard.Daemon.Agreement.{Consistent, Obeys, All-nth, run-Consistent}
use wifi_shepard.Daemon.Loop.{Event, nth, run, start}
use wifi_shepard.Dns.Detector
use wifi_shepard.Dns.Detector.{DnsThrashDetector}
use wifi_shepard.Dns.Factory.{build_dns_sources}
use wifi_shepard.Pipeline
use wifi_shepard.Prelude.{
  ℕ, String, Bool, ◌||◌, ◌&&◌, Option, none, some, List, [], ◌∷◌, map, ◌≡◌, refl, Result, ok, All,
  Ok, returned, ◌▹◌, trivially, Ok-holds, is_some, if◌then◌else◌, if_intro,
}
use wifi_shepard.Scanner.{Scanner, CycleEnv, run_once}
use wifi_shepard.Scanner.Clients.{Safe}
use wifi_shepard.Scanner.Cycle.{run_once-Safe}
use wifi_shepard.Scanner.Steady.{Detects}
use wifi_shepard.Scanner.Following.{Follows, Follows-Agrees}
use wifi_shepard.Unifi.Session.{UniFiController}

build_scanners-Follows :
    (config : Config) (ha : Bool) (detector : Option DnsThrashDetector) (cs : List UniFiController)
    → Detects config detector
    → All (Follows config) (
        map
          (λ (c : UniFiController). record {
            config = config;
            pipeline = Pipeline.build_pipeline config ha;
            detector = detector;
          })
          cs)
unfolding Pipeline.build_pipeline
build_scanners-Follows config ha detector [] own = tt
build_scanners-Follows config ha detector (c ∷ cs) own = (
  record {
    own = refl;
    scorer = refl;
    inactivity = refl;
    actor = refl;
    threshold = refl;
    limits = refl;
    detector = own;
  },
  build_scanners-Follows config ha detector cs own,
)

build_dns_detector-Detects : (d : Daemon) → Detects d.config (build_dns_detector d)
unfolding build_dns_detector
build_dns_detector-Detects d =
    if_intro (Detects d.config) (is_some d.config.detection.dns_thrash && is_some d.dns_source)
      (some (Detector.new d.config)) none (λ _. refl) (λ _. tt)

build_scheduler-Obeys :
    (config : Config) (injected : Injected) (ha : Bool)
    → Obeys config (build_scheduler config injected ha)
unfolding build_scheduler
build_scheduler-Obeys config injected ha =
    let fresh =
      if injected.rebooter && is_some injected.registry
      then some (new_scheduler config ha)
      else none in
    if_intro (Obeys config) (config.reboot.enabled && config.reboot.proactive.enabled) fresh none
      (λ _.
        if_intro (Obeys config) (injected.rebooter && is_some injected.registry)
          (some (new_scheduler config ha)) none (λ _. refl) (λ _. tt))
      (λ _. tt)

init-Consistent :
    (injected : Injected) (loaded : Result Config) (digest : Option String)
    → Ok (λ d. Consistent (start d).daemon) (init injected loaded digest)
unfolding init start build_scanners
init-Consistent injected loaded digest = trivially loaded ▹ λ config _.
    trivially (controllers_of injected.controllers config.controllers) ▹ λ controllers _.
    trivially injected.database ▹ λ _ _.
    trivially (build_dns_sources config.dns_sources) ▹ λ source _. returned _ (record {
      scanners =
          build_scanners-Follows config (injected.ha || is_some config.home_assistant) _ controllers
            (build_dns_detector-Detects _);
      scheduler =
          build_scheduler-Obeys config injected (injected.ha || is_some config.home_assistant);
    })

module _ (local_time : String → ℕ → Result ℕ) (injected : Injected) (loaded : Result Config)
    (digest : Option String) (d : Daemon) (events : List Event) where
  -- A daemon that was built and started, after any whole scans, ticks and signals in any order, so that
  -- no reload falls into a scan, and whatever edits of the configuration were made, valid or broken:
  -- every scanner, both detectors of its pipeline, its actor, its DNS detector where it has one, and
  -- the scheduler where there is one hold the daemon's one configuration; the kick counters have its
  -- threshold, and the limiters its gap, cap and window.
  pub started-Consistent :
      init injected loaded digest ≡ ok d → Consistent (run local_time events (start d)).daemon
  started-Consistent built =
      run-Consistent local_time events (start d)
        (Ok-holds (init-Consistent injected loaded digest) built)

  -- In every state that a built and started daemon reaches by whole scans, ticks and signals in any
  -- order, so that no reload falls into a scan: the next poll cycle of each of its scanners, where no
  -- reload falls into it either, whatever it is answered and however it ends, makes wire calls only to
  -- clients that are not on the allowlist of the daemon's configuration.
  pub started-Safe :
      (k : ℕ) (s : Scanner) (e : CycleEnv) (answer : Result (List ClientSnapshot))
      → init injected loaded digest ≡ ok d
      → nth k (run local_time events (start d)).daemon.scanners ≡ some s
      → Safe
          (run local_time events (start d)).daemon.config.allowlist
          s.pipeline
          (run_once local_time e answer s).1.pipeline
  started-Safe k s e answer built found =
      let r = run local_time events (start d) in
      run_once-Safe r.daemon.config.allowlist local_time e answer s (
        Follows-Agrees r.daemon.config s
          (All-nth r.daemon.config k r.daemon.scanners s (started-Consistent built).scanners found))
