-- ===== src/Store.antt =====
-- wifi_shepard/db.py: the SQLite store, as the columns of its tables and their rows in the order of
-- insertion. `time.time()` is an argument; the file and the driver are left out. `kick_events` has its
-- insert and its query in Kicks.
pub mod Columns
pub mod Current
pub mod Retention
use wifi_shepard.Controller.{ClientSnapshot, ApStats, RadioStats}
use wifi_shepard.Dns.Detector.{Standing}
use wifi_shepard.Kicks
use wifi_shepard.Kicks.{KickRow}
use wifi_shepard.Prelude.{
  ℕ, ◌+◌, ◌*◌, ◌-◌, String, Bool, true, false, Option, none, some, List, [], ◌∷◌, ◌++◌, map, filter,
  length, ltb, leb, if◌then◌else◌, Result, ok, raise, runtime_error, external_error, seconds,
}
use wifi_shepard.Reboot.Scheduler.{RebootRow}
use wifi_shepard.Store.Columns.{Tables, migrate_all}

pub record Stamped {ℓ} (A : Type ℓ) : Type ℓ where
  pub ts : ℕ
  pub row : A

pub record SourceSample : Type 0 where
  pub source_name : String
  pub is_ok : Bool
  pub query_count : ℕ
  pub error : Option String

pub record Database : Type 0 where
  pub connected : Bool
  pub closed : Bool
  pub last_client_prune : ℕ
  pub tables : Tables
  pub client_samples : List (Stamped ClientSnapshot)
  pub ap_samples : List (Stamped ApStats)
  pub ap_radio_samples : List (Stamped (String × RadioStats))
  pub kick_events : List KickRow
  pub reboot_events : List (Stamped RebootRow)
  pub dns_source_samples : List (Stamped SourceSample)
  pub dns_thrash_observations : List (Stamped Standing)

abbrev pub dns_retention_seconds : ℕ
dns_retention_seconds = 7 * 86400

abbrev pub client_samples_retention_seconds : ℕ
client_samples_retention_seconds = 30 * 86400

abbrev pub client_samples_prune_interval_seconds : ℕ
client_samples_prune_interval_seconds = 3600

-- The tables are created where they are missing, and the older ones get their missing columns.
unfoldable pub connect : Database → Database
unfolding migrate_all
connect d = record d { connected = true; tables = migrate_all d.tables }

-- A method before `connect`, or after `close`, raises.
abbrev opened {ℓ} : {A : Type ℓ} → Database → (Database → Result A × Database) → Result A × Database
opened d k = if d.connected then k d else (raise runtime_error, d)

abbrev pub Write : Type 0
Write = Result (Unit {0}) × Database

unfoldable pub insert_sample : ℕ → ClientSnapshot → Database → Write
insert_sample now client d = opened d (λ d. (
  ok tt,
  record d { client_samples = d.client_samples ++ record { ts = now; row = client } ∷ [] },
))

-- `DELETE … WHERE ts < now - retention`
abbrev pub younger {ℓ} : {A : Type ℓ} → ℕ → ℕ → List (Stamped A) → List (Stamped A)
younger retention now rows = filter (λ r. leb now (r.ts + seconds retention)) rows

-- The number of the rows that are deleted. The time is noted before the DELETE, which may raise.
unfoldable pub prune_client_samples : Bool → ℕ → Database → Result ℕ × Database
prune_client_samples fails now d = opened d (λ d.
    if ltb now (d.last_client_prune + seconds client_samples_prune_interval_seconds)
    then (ok 0, d)
    else if fails
    then (raise external_error, record d { last_client_prune = now })
    else let kept = younger client_samples_retention_seconds now d.client_samples in
      (
        ok (length d.client_samples - length kept),
        record d { last_client_prune = now; client_samples = kept },
      ))

unfoldable pub insert_ap_stats : ℕ → ApStats → Database → Write
insert_ap_stats now ap d = opened d (λ d. (
  ok tt,
  record d {
    ap_samples = d.ap_samples ++ record { ts = now; row = ap } ∷ [];
    ap_radio_samples =
        d.ap_radio_samples
        ++ map (λ (r : RadioStats). record { ts = now; row = (ap.id, r) }) ap.radios;
  },
))

unfoldable pub insert_kick : KickRow → Database → Write
insert_kick row d =
    opened d (λ d. (ok tt, record d { kick_events = Kicks.insert_kick d.kick_events row }))

unfoldable pub insert_reboot : ℕ → RebootRow → Database → Write
insert_reboot now row d = opened d (λ d.
    (ok tt, record d { reboot_events = d.reboot_events ++ record { ts = now; row = row } ∷ [] }))

unfoldable pub insert_dns_source_sample : ℕ → SourceSample → Database → Write
insert_dns_source_sample now sample d = opened d (λ d. (
  ok tt,
  record d {
    dns_source_samples =
        younger dns_retention_seconds now
          (d.dns_source_samples ++ record { ts = now; row = sample } ∷ []);
  },
))

abbrev observed : ℕ → List Standing → Database → Database
observed now [] d = d
observed now (s ∷ rest) d = record d {
  dns_thrash_observations = younger dns_retention_seconds now (
      d.dns_thrash_observations ++ map (λ (x : Standing). record { ts = now; row = x }) (s ∷ rest));
}

-- An empty batch writes nothing, and prunes nothing.
unfoldable pub insert_dns_thrash_observations : ℕ → List Standing → Database → Write
insert_dns_thrash_observations now rows d = opened d (λ d. (ok tt, observed now rows d))

unfoldable pub recent_kick_timestamps : String → ℕ → ℕ → Database → Result (List ℕ) × Database
recent_kick_timestamps mac now lookback d =
    opened d (λ d. (ok (Kicks.recent_kick_timestamps d.kick_events mac now lookback), d))

unfoldable pub close : Database → Database
close d = record d { connected = false; closed = true }
