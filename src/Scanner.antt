-- ===== src/Scanner.antt =====
-- wifi_shepard/scanner.py: one poll cycle, from the controller's clients to the actor. The display-only
-- tables (samples, access point health, DNS observations) hold nothing that a later cycle reads; of
-- their inserts a cycle sees whether they raise.
pub mod Calls
pub mod Clients
pub mod Cycle
pub mod Following
pub mod Steady
use wifi_shepard.Prelude.{
  ℕ, ◌+◌, String, Bool, Option, none, some, List, [], ◌∷◌, ◌==◌, ltb, leb, if◌then◌else◌, Result,
  ok, raise, external_error, attribute_error, filter, contains,
}
use Prim.Native.Nat.{suc, zero, ◌/◌}
use wifi_shepard.Actor
use wifi_shepard.Actor.{Actor}
use wifi_shepard.Config.{Config, DnsThrashConfig}
use wifi_shepard.Controller.{ClientSnapshot}
use wifi_shepard.Dns.Detector
use wifi_shepard.Dns.Detector.{DnsThrashDetector, Standing}
use wifi_shepard.Dns.Source.{DnsQuery}
use wifi_shepard.Inactivity
use wifi_shepard.Inactivity.{Flatline}
use wifi_shepard.Mac.{normalize_mac}
use wifi_shepard.Pipeline
use wifi_shepard.Pipeline.{DetectionPipeline}
use wifi_shepard.Rationale.{Decision, DnsEvidence, rf, inactivity, dns_thrash}
use wifi_shepard.Resolution.{Thresholds}
use wifi_shepard.Scorer

-- What the round of one client reads: whether its sample's insert raises, the wall clock of the
-- scorer, and the readings of the two calls of the actor.
pub record ClientEnv : Type 0 where
  pub sample_fails : Bool
  pub score_now : ℕ
  pub rf_env : Actor.Env
  pub idle_env : Actor.Env

abbrev pub Step : Type 0
Step = Result (Unit {0}) × DetectionPipeline

-- `await pipeline.actor.handle(client, decision)`
abbrev pub act : Actor.Env → ClientSnapshot → Decision → DetectionPipeline → Step
act env client ctx p =
    let (r, a) = Actor.handle env client ctx p.actor in (r, record p { actor = a })

abbrev idle_act : Actor.Env → ClientSnapshot → Option Flatline × DetectionPipeline → Step
idle_act env client (none, p) = (ok tt, p)
idle_act env client (some f, p) = act env client (inactivity f) p

-- The independent inactivity path.
unfoldable pub idle_path : ClientEnv → ClientSnapshot → DetectionPipeline → Step
idle_path e client p =
    let (flag, s) = Inactivity.ingest p.inactivity client in
    idle_act e.idle_env client (flag, record p { inactivity = s })

abbrev go_on : Step → (DetectionPipeline → Step) → Step
go_on (ok _, p) k = k p
go_on (raise e, p) k = (raise e, p)

abbrev rf_act : Actor.Env → ClientSnapshot → Result (Option Thresholds) × DetectionPipeline → Step
rf_act env client (raise e, p) = (raise e, p)
rf_act env client (ok none, p) = (ok tt, p)
rf_act env client (ok (some t), p) = act env client (rf t) p

unfoldable pub rf_path :
    (String → ℕ → Result ℕ) → ClientEnv → ClientSnapshot → DetectionPipeline → Step
rf_path local_time e client p =
    let (decision, s) = Scorer.ingest local_time e.score_now p.scorer client in
    rf_act e.rf_env client (decision, record p { scorer = s })

-- The loop's body for one client.
unfoldable pub scan_client :
    (String → ℕ → Result ℕ) → ClientEnv → ClientSnapshot → DetectionPipeline → Step
unfolding rf_path idle_path
scan_client local_time e client p =
    if e.sample_fails
    then (raise external_error, p)
    else let p' : DetectionPipeline = record p {
      actor = Actor.check_post_kick_outcome client p.actor;
    } in
      go_on (rf_path local_time e client p') (idle_path e client)

-- An exception ends the cycle; the environments are given by position.
unfoldable pub scan_clients :
    (String → ℕ → Result ℕ) → (ℕ → ClientEnv) → List ClientSnapshot → DetectionPipeline → Step
scan_clients local_time envs [] p = (ok tt, p)
scan_clients local_time envs (c ∷ cs) p =
    go_on (scan_client local_time (envs 0) c p) (scan_clients local_time (λ k. envs (suc k)) cs)

-- `{client.mac: client for client in clients}.get(mac)`: the last client of the MAC
unfoldable pub client_by_mac : String → List ClientSnapshot → Option ClientSnapshot
client_by_mac mac [] = none
client_by_mac mac (c ∷ cs) = elim (client_by_mac mac cs) [
  | some later ↦ some later
  | none ↦ if c.mac == mac then some c else none
]

abbrev louder : Option Standing → Standing → Option Standing
louder none s = some s
louder (some top) s = if ltb top.count s.count then some s else some top

-- The first of the loudest standings of a MAC.
loudest_from : String → Option Standing → List Standing → Option Standing
loudest_from mac top [] = top
loudest_from mac top (s ∷ rest) = loudest_from mac (if s.mac == mac then louder top s else top) rest

unfoldable pub loudest : String → List Standing → Option Standing
unfolding loudest_from
loudest mac standings = loudest_from mac none standings

abbrev evidence_of : Option Standing → Option DnsEvidence
evidence_of none = none
evidence_of (some s) =
    some (record { domain = s.domain; query_count = s.count; threshold = s.threshold })

unfoldable pub dns_act :
    Actor.Env → List Standing → Option ClientSnapshot → DetectionPipeline → Step
unfolding loudest
dns_act env standings none p = (ok tt, p)
dns_act env standings (some client) p =
    act env client (dns_thrash (evidence_of (loudest client.mac standings))) p

-- The loop over the flagged MACs: never an allowlisted one, and only a present one.
unfoldable pub act_on_flagged :
    (ℕ → Actor.Env)
    → List String
    → List ClientSnapshot
    → List Standing
    → List String
    → DetectionPipeline
    → Step
unfolding dns_act client_by_mac
act_on_flagged envs allowlist clients standings [] p = (ok tt, p)
act_on_flagged envs allowlist clients standings (mac ∷ rest) p =
    let later = act_on_flagged (λ k. envs (suc k)) allowlist clients standings rest in
    go_on
      (if contains (normalize_mac mac) allowlist
        then (ok tt, p)
        else dns_act (envs 0) standings (client_by_mac mac clients) p)
      later

-- The contenders of `_persist_dns_observability`: at least half the threshold, rounded up, the
-- loudest first, 20 at most.
insert_loud : Standing → List Standing → List Standing
insert_loud s [] = s ∷ []
insert_loud s (u ∷ us) = if leb u.count s.count then s ∷ u ∷ us else u ∷ insert_loud s us

sort_loud : List Standing → List Standing
sort_loud [] = []
sort_loud (s ∷ rest) = insert_loud s (sort_loud rest)

take : ℕ → List Standing → List Standing
take zero ss = []
take (suc n) [] = []
take (suc n) (s ∷ ss) = s ∷ take n ss

abbrev pub dns_observation_top_n : ℕ
dns_observation_top_n = 20

unfoldable pub contenders : List Standing → List Standing
unfolding insert_loud sort_loud take
contenders standings =
    take dns_observation_top_n
      (sort_loud (filter (λ s. leb ((s.threshold + 1) / 2) s.count) standings))

-- A scanner with its pipeline; `detector` is `None` where the feature is off.
pub record Scanner : Type 0 where
  pub config : Config
  pub pipeline : DetectionPipeline
  pub detector : Option DnsThrashDetector

-- What a cycle reads beyond its clients: the source of the DNS queries and its clock.
pub record CycleEnv : Type 0 where
  pub client_envs : ℕ → ClientEnv
  pub dns_now : ℕ
  pub source : ℕ → Result (List DnsQuery)
  pub dns_envs : ℕ → Actor.Env
  -- `list_ap_stats`, its inserts and `prune_client_samples`, after which the cycle is over
  pub ap_stats : Result (Unit {0})

abbrev pub wrap : Scanner → Step → Result (Unit {0}) × Scanner
wrap s (r, p) = (r, record s { pipeline = p })

-- `self.config.detection.dns_thrash` of the detector
abbrev pub settings : Option DnsThrashDetector → Option DnsThrashConfig
settings none = none
settings (some d) = d.config.detection.dns_thrash

-- A detector whose configuration has lost its block fails at the block's first field.
unfoldable pub run_detector :
    CycleEnv
    → List ClientSnapshot
    → Scanner
    → Option DnsThrashDetector
    → Option DnsThrashConfig
    → Result (Unit {0}) × Scanner
unfolding act_on_flagged
run_detector e clients s (some d) (some cfg) =
    let (flagged, d') = Detector.observe cfg e.source e.dns_now clients d in
    wrap (record s { detector = some d' })
      (act_on_flagged e.dns_envs s.config.allowlist clients d'.last_standings flagged s.pipeline)
run_detector e clients s (some d) none = (raise attribute_error, s)
run_detector e clients s none cfg = (ok tt, s)

-- `_run_dns_thrash`; the observations' inserts cannot raise out of it.
unfoldable pub run_dns_thrash :
    CycleEnv → List ClientSnapshot → Scanner → Result (Unit {0}) × Scanner
unfolding run_detector
run_dns_thrash e clients s = run_detector e clients s s.detector (settings s.detector)

unfoldable pub after_clients :
    CycleEnv → List ClientSnapshot → Scanner → Step → Result (Unit {0}) × Scanner
after_clients e clients s (raise x, p) = (raise x, record s { pipeline = p })
after_clients e clients s (ok _, p) = run_dns_thrash e clients (record s { pipeline = p })

unfoldable pub finish_cycle : CycleEnv → Result (Unit {0}) × Scanner → Result (Unit {0}) × Scanner
finish_cycle e (raise x, s) = (raise x, s)
finish_cycle e (ok _, s) = (e.ap_stats, s)

-- `run_once` on the clients that the controller lists, or on its exception.
unfoldable pub run_once :
    (String → ℕ → Result ℕ)
    → CycleEnv
    → Result (List ClientSnapshot)
    → Scanner
    → Result (Unit {0}) × Scanner
unfolding after_clients scan_clients finish_cycle
run_once local_time e (raise x) s = (raise x, s)
run_once local_time e (ok clients) s =
    finish_cycle e
      (after_clients e clients s (scan_clients local_time e.client_envs clients s.pipeline))

abbrev retune_detector : Config → Option DnsThrashDetector → Option DnsThrashDetector
retune_detector config none = none
retune_detector config (some d) = some (record d { config = config })

unfoldable pub update_config : Config → Scanner → Scanner
update_config config s = record {
  config = config;
  pipeline = Pipeline.update_config config s.pipeline;
  detector = retune_detector config s.detector;
}
