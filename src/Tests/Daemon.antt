-- ===== src/Tests/Daemon.antt =====
-- The daemon at one controller.

use wifi_shepard.Daemon.{
  Daemon, Injected, init, build_scanners, build_dns_detector, watch_tick, build_scheduler,
}
use wifi_shepard.Daemon.Agreement.{Consistent}
use wifi_shepard.Daemon.Closing
use wifi_shepard.Daemon.Closing.{Calls, open_all, close_all}
use wifi_shepard.Daemon.Kept
use wifi_shepard.Daemon.Kept.{ticks}
use wifi_shepard.Daemon.Loop.{
  Running, Event, turn, watch, sighup, sigterm, over, pausing, run, start, step, main_turn,
}
use wifi_shepard.Daemon.Started
use wifi_shepard.Daemon.Stops
use wifi_shepard.Dns.Factory
use wifi_shepard.Pipeline.{build_pipeline}
use wifi_shepard.Prelude.{
  true, false, none, some, List, [], ◌∷◌, ok, raise, value_error, ◌≡◌, refl, inl, inr, All, arith,
}
use wifi_shepard.Scanner.{Scanner, run_once}
use wifi_shepard.Scanner.Clients.{Safe}
use wifi_shepard.Tests.Fixtures.{config_with, weak}
use wifi_shepard.Tests.Scanner.{cycle, midnight, protected_client}
use wifi_shepard.Tests.Unifi.{session}
use wifi_shepard.Unifi.Session.Closed.{Refuses}

abbrev injected : Injected
injected = record {
  controllers = some (session ∷ []);
  ha = true;
  rebooter = false;
  registry = none;
  database = ok tt;
}

abbrev daemon : Daemon
daemon = record {
  config = config_with false;
  controllers = session ∷ [];
  ha = true;
  registry = none;
  dns_source = none;
  scanners = [];
  scheduler = none;
  config_digest_seen = some "d1";
  first_cycle_started = false;
  config_reloaded = false;
  config_reload_attempted = false;
  shut_down = false;
}

-- A broken edit, a valid one, and three steps of the main task.
abbrev edits : List Event
edits =
    turn cycle (ok (weak ∷ []))
    ∷ watch (some "d2") (raise value_error)
    ∷ turn cycle (ok (weak ∷ protected_client ∷ []))
    ∷ sighup (ok (config_with true))
    ∷ []

built : init injected (ok (config_with false)) (some "d1") ≡ ok daemon
unfolding init Factory.build_dns_sources Factory.all_sources build_scheduler
built = refl

started-Consistent_example : Consistent (run midnight edits (start daemon)).daemon
started-Consistent_example =
    Started.started-Consistent midnight injected (ok (config_with false)) (some "d1") daemon edits
      built

abbrev fresh : Scanner
fresh = record {
  config = config_with false;
  pipeline = build_pipeline (config_with false) true;
  detector = none;
}

started-Safe_example :
    Safe
      (run midnight (turn cycle (ok []) ∷ []) (start daemon)).daemon.config.allowlist
      fresh.pipeline
      (run_once midnight cycle (ok (weak ∷ protected_client ∷ [])) fresh).1.pipeline
unfolding run step main_turn start build_scanners build_dns_detector
started-Safe_example =
    Started.started-Safe midnight injected (ok (config_with false)) (some "d1") daemon [] 0 fresh
      cycle (ok (weak ∷ protected_client ∷ [])) built refl

abbrev running : Running
running = record { daemon = daemon; phase = pausing }

ticks-settled_example :
    ticks
      ((none, raise value_error) ∷ (some "d2", ok (config_with true)) ∷ [])
      (watch_tick (some "d2") (raise value_error) daemon)
    ≡ watch_tick (some "d2") (raise value_error) daemon
ticks-settled_example =
    Kept.ticks-settled "d2" (raise value_error)
      ((none, raise value_error) ∷ (some "d2", ok (config_with true)) ∷ []) daemon
      (inl refl, (inr refl, tt))

run-stops_example :
    (run midnight
      (sigterm ∷ turn cycle (ok []) ∷ sighup (ok (config_with true)) ∷ turn cycle (ok []) ∷ [])
      running).phase
    ≡ over
run-stops_example =
    Stops.run-stops midnight
      (turn cycle (ok []) ∷ sighup (ok (config_with true)) ∷ turn cycle (ok []) ∷ []) running
      (omega arith)

abbrev calls : Calls
calls = record {
  connect_fails = false;
  login_fails = λ k. true;
  db_close_fails = false;
  close_fails = λ k. true;
}

close_all-Refuses_example : All Refuses (close_all calls (open_all calls daemon).1).1.controllers
close_all-Refuses_example = Closing.close_all-Refuses calls daemon refl
