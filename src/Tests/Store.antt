-- ===== src/Tests/Store.antt =====
-- The store at a table of an older version, and at two samples.
use wifi_shepard.Prelude.{some, none, List, [], ◌∷◌, true, false, refl, All, arith, seconds}
use wifi_shepard.Store.{Database, connect}
use wifi_shepard.Store.Current
use wifi_shepard.Store.Current.{IsCurrent}
use wifi_shepard.Store.Retention
use wifi_shepard.Store.Retention.{Op, insert_at, prune_at, perform, perform_all, IsRecent}
use wifi_shepard.Tests.Fixtures.{weak}

abbrev old : Database
old = record {
  connected = true;
  closed = false;
  last_client_prune = 0;
  tables = record {
    kick_events = some ("id" ∷ "ts" ∷ "mac" ∷ "dry_run" ∷ []);
    client_samples = none;
  };
  client_samples = record { ts = 5; row = weak } ∷ [];
  ap_samples = [];
  ap_radio_samples = [];
  kick_events = [];
  reboot_events = [];
  dns_source_samples = [];
  dns_thrash_observations = [];
}

connect-IsCurrent_example : IsCurrent old (connect old)
connect-IsCurrent_example = Current.connect-IsCurrent old (refl, (refl, (refl, (refl, tt)))) tt

abbrev cycles : List Op
cycles =
    insert_at (seconds 4000) weak
    ∷ prune_at false (seconds 5000)
    ∷ insert_at (seconds 5030) weak
    ∷ []

perform_all-Recent_example :
    All
      (IsRecent (seconds 6000))
      (perform (prune_at false (seconds 6000)) (perform_all cycles old)).client_samples
perform_all-Recent_example =
    Retention.perform_all-Recent cycles (seconds 6000) old refl refl (tt, (refl, (tt, tt)))
      (omega arith, (omega arith, (omega arith, tt))) (omega arith)
