-- ===== src/Lib.antt =====
-- wifi-shepard: a daemon that watches the clients of a wireless network, and moves those that cling to
-- a bad link by asking or forcing them to reconnect.
--
-- A poll cycle (Scanner, src/wifi_shepard/scanner.py) takes the controller's clients. Each one first
-- settles the outcome of its last kick, then passes two detectors: Scorer (scorer.py, thresholds from
-- resolution.py) and Inactivity (inactivity.py). After them Dns.Detector (dns_thrash.py) reads the
-- queries that Dns.Source (dns_sources/) merges. A flag becomes a `Decision` for Actor (actor.py),
-- which consults Backoff (backoff.py, on the rows of Kicks, db.py), RateLimit (rate_limit.py) and
-- Pending (pending.py) before it calls the controller. Pipeline (pipeline.py) builds and retunes the
-- detectors and the actor. The Reboot modules (reboot/) are a second, daily path with gates of its own.
--
-- How the files correspond to the code, paths below src/wifi_shepard/ but for Ui:
--   Config             the dataclasses of config.py
--   Resolution         resolution.py, function by function
--   Mac                normalize_mac of reboot/__init__.py
--   Controller         the dataclasses of controllers/base.py
--   Unifi              controllers/unifi.py: Schema the reading of one field, Devices the access points,
--                      Clients list_wireless_clients, Session the controller and its calls
--   Scorer             scorer.py: is_bad_state and Scorer.ingest
--   Inactivity         inactivity.py: InactivityScorer.ingest
--   Window             the pruned deques and filtered lists that several files share
--   Verdict            the answer of a gate: allowed, or a reason and the time to wait
--   RateLimit          rate_limit.py: KickRateLimiter; its children relate it to the complete history
--   Backoff            backoff.py: BackoffManager and evaluate_backoff
--   Kicks              the table kick_events of db.py, insert_kick and recent_kick_timestamps
--   Pending            pending.py: PendingKicks
--   Rationale          build_kick_rationale of actor.py
--   Actor              Actor.handle and Actor.check_post_kick_outcome of actor.py
--   Pipeline           pipeline.py
--   Dns                dns_thrash.py and dns_sources/
--   Scanner            scanner.py
--   Reboot             reboot/eligibility.py, ha_resolver.py, cooldown.py, scheduler.py and oui.py
--   Load               the loader of config.py: Yaml what the parser answers, Checks the shared checks,
--                      Rails, Hours, RebootBlock and Sources the builders of the blocks, Build
--                      build_config, Mapping build_config_from_mapping, Redact _redact and _describe,
--                      Env the ${VAR} references;
--                      Valid what a loaded configuration satisfies, Typed its form for the detectors
--   Daemon             main.py: the state and its handlers, Loop the tasks of run as steps in any order,
--                      Closing what run opens and closes
--   Store              db.py: Database and the migrations of its tables
--   Ui                 src/wifi_shepard_ui: Document and Device the edits of device_config.py, Schema
--                      the table of settings_schema.py, Form build_mapping of config_io.py, Save and
--                      Allowlist its write_config and read_allowlist
--   Prelude, Dict      shared helpers, and Python's insertion-ordered dict
--   Tests              concrete inputs
--
-- State is passed on explicitly: an operation takes the object as a record and returns it changed. The
-- actor's methods are functions of the monad `Act`, in which an exception keeps the state that was
-- written before it; each awaited call may raise, as the `fails` of an `Env` says. A loop over a list
-- is structural recursion, so no fuel is used.
--
-- Instants are natural numbers of microseconds, where the source has floats of seconds; a comparison
-- with `now - window` is written with the window added to the other side. A retry percentage is
-- compared by multiplying out. Rounding errors of floats are not modelled. Signed quantities are ℤ.
--
-- Not modelled: reading the configuration's file and the YAML parser, the HTTP clients of the
-- controller, of Pi-hole and of Home Assistant, the SQL text of db.py, db_mysql.py, migrate.py, and
-- of the web interface (src/wifi_shepard_ui) the pages, the pre-filled form and the rows of
-- overrides; and a reload of the configuration that falls into a scan (Daemon.Loop takes a scan as one
-- step). What they answer is a parameter: `local_time` for time zones, `respond` for an
-- instance of Pi-hole, `HaDeviceRegistry` for the device registry, `zone_ok` for ZoneInfo, and
-- `show` and `repr` for Python's own printing.
pub mod Prelude
pub mod Dict
pub mod Config
pub mod Resolution
pub mod Mac
pub mod Controller
pub mod Scorer
pub mod Inactivity
pub mod Window
pub mod Verdict
pub mod RateLimit
pub mod Backoff
pub mod Pending
pub mod Rationale
pub mod Kicks
pub mod Actor
pub mod Reboot
pub mod Dns
pub mod Pipeline
pub mod Scanner
pub mod Load
pub mod Unifi
pub mod Daemon
pub mod Store
pub mod Ui
pub mod Tests
