-- ===== src/Scanner/Steady.antt =====
-- What the parts of a scanner are configured with, over a poll cycle.
use wifi_shepard.Actor
use wifi_shepard.Actor.Steady.{
  Steady, Steady-refl, Steady-trans, handle-Steady, check_post_kick_outcome-Steady,
}
use wifi_shepard.Config.{Config, DnsThrashConfig}
use wifi_shepard.Controller.{ClientSnapshot}
use wifi_shepard.Dict.{Dict}
use wifi_shepard.Dns.Detector
use wifi_shepard.Dns.Detector.{DnsThrashDetector, Standing}
use wifi_shepard.Dns.Source.{DnsQuery}
use wifi_shepard.Inactivity
use wifi_shepard.Inactivity.{Flatline}
use wifi_shepard.Mac.{normalize_mac}
use wifi_shepard.Pipeline.{DetectionPipeline}
use wifi_shepard.Prelude.{
  ℕ, suc, String, ◌≡◌, refl, ◌∙◌, Option, none, some, List, [], ◌∷◌, Result, ok, raise, contains,
  if_intro, subst, if◌then◌else◌,
}
use wifi_shepard.Rationale.{rf, inactivity, dns_thrash}
use wifi_shepard.Resolution.{Thresholds}
use wifi_shepard.Scanner.{
  Scanner, ClientEnv, CycleEnv, Step, idle_act, idle_path, go_on, rf_act, rf_path, scan_client,
  scan_clients, dns_act, act_on_flagged, client_by_mac, evidence_of, loudest, run_detector,
  run_dns_thrash, after_clients, finish_cycle, run_once, settings,
}
use wifi_shepard.Scanner.Clients.{config-scorer, config-inactivity}
use wifi_shepard.Scorer

-- The same settings in two states of a pipeline.
pub record Even (p q : DetectionPipeline) : Type 0 where
  pub scorer : q.scorer.config ≡ p.scorer.config
  pub inactivity : q.inactivity.config ≡ p.inactivity.config
  pub actor : Steady p.actor q.actor

Even-refl : (p : DetectionPipeline) → Even p p
Even-refl p = record { scorer = refl; inactivity = refl; actor = Steady-refl p.actor }

Even-trans : (p q r : DetectionPipeline) → Even p q → Even q r → Even p r
Even-trans p q r e f = record {
  scorer = f.scorer ∙ e.scorer;
  inactivity = f.inactivity ∙ e.inactivity;
  actor = Steady-trans p.actor q.actor r.actor e.actor f.actor;
}

module _ (client : ClientSnapshot) where
  rf_act-Even :
      (env : Actor.Env) (o : Result (Option Thresholds)) (p : DetectionPipeline)
      → Even p (rf_act env client (o, p)).1
  rf_act-Even env (raise e) p = Even-refl p
  rf_act-Even env (ok none) p = Even-refl p
  rf_act-Even env (ok (some t)) p = record {
    scorer = refl;
    inactivity = refl;
    actor = handle-Steady env client (rf t) p.actor;
  }

  idle_act-Even :
      (env : Actor.Env) (o : Option Flatline) (p : DetectionPipeline)
      → Even p (idle_act env client (o, p)).1
  idle_act-Even env none p = Even-refl p
  idle_act-Even env (some f) p = record {
    scorer = refl;
    inactivity = refl;
    actor = handle-Steady env client (inactivity f) p.actor;
  }

  module _ (local_time : String → ℕ → Result ℕ) (e : ClientEnv) where
    rf_path-Even : (p : DetectionPipeline) → Even p (rf_path local_time e client p).1
    unfolding rf_path
    rf_path-Even p =
        let s = (Scorer.ingest local_time e.score_now p.scorer client).1 in
        let q : DetectionPipeline = record p { scorer = s } in
        Even-trans p q _
          (record {
            scorer = config-scorer local_time e.score_now p.scorer client;
            inactivity = refl;
            actor = Steady-refl p.actor;
          })
          (rf_act-Even e.rf_env (Scorer.ingest local_time e.score_now p.scorer client).0 q)

    idle_path-Even : (p : DetectionPipeline) → Even p (idle_path e client p).1
    unfolding idle_path
    idle_path-Even p =
        let s = (Inactivity.ingest p.inactivity client).1 in
        let q : DetectionPipeline = record p { inactivity = s } in
        Even-trans p q _
          (record {
            scorer = refl;
            inactivity = config-inactivity p.inactivity client;
            actor = Steady-refl p.actor;
          })
          (idle_act-Even e.idle_env (Inactivity.ingest p.inactivity client).0 q)

go_on-Even :
    (p : DetectionPipeline) (x : Step) (k : DetectionPipeline → Step)
    → Even p x.1
    → Even x.1 (k x.1).1
    → Even p (go_on x k).1
go_on-Even p (ok u, q) k e f = Even-trans p q (k q).1 e f
go_on-Even p (raise x, q) k e f = e

module _ (local_time : String → ℕ → Result ℕ) where
  scan_client-Even :
      (e : ClientEnv) (client : ClientSnapshot) (p : DetectionPipeline)
      → Even p (scan_client local_time e client p).1
  unfolding scan_client
  scan_client-Even e client p =
      let p' : DetectionPipeline = record p {
        actor = Actor.check_post_kick_outcome client p.actor;
      } in
      let settled : Even p p' = record {
        scorer = refl;
        inactivity = refl;
        actor = check_post_kick_outcome-Steady client p.actor;
      } in
      if_intro (λ (x : Step). Even p x.1) e.sample_fails _ _ (λ _. Even-refl p)
        (λ _. Even-trans p p' _ settled (
          go_on-Even p' (rf_path local_time e client p') (idle_path e client)
            (rf_path-Even client local_time e p')
            (idle_path-Even client local_time e (rf_path local_time e client p').1)))

  scan_clients-Even :
      (envs : ℕ → ClientEnv) (cs : List ClientSnapshot) (p : DetectionPipeline)
      → Even p (scan_clients local_time envs cs p).1
  unfolding scan_clients
  scan_clients-Even envs [] p = Even-refl p
  scan_clients-Even envs (c ∷ cs) p =
      go_on-Even p (scan_client local_time (envs 0) c p) _ (scan_client-Even (envs 0) c p)
        (scan_clients-Even (λ k. envs (suc k)) cs (scan_client local_time (envs 0) c p).1)

dns_act-Even :
    (env : Actor.Env) (standings : List Standing) (o : Option ClientSnapshot)
    (p : DetectionPipeline)
    → Even p (dns_act env standings o p).1
unfolding dns_act
dns_act-Even env standings none p = Even-refl p
dns_act-Even env standings (some c) p = record {
  scorer = refl;
  inactivity = refl;
  actor = handle-Steady env c (dns_thrash (evidence_of (loudest c.mac standings))) p.actor;
}

act_on_flagged-Even :
    (envs : ℕ → Actor.Env) (allowlist : List String) (clients : List ClientSnapshot)
    (standings : List Standing) (flagged : List String) (p : DetectionPipeline)
    → Even p (act_on_flagged envs allowlist clients standings flagged p).1
unfolding act_on_flagged
act_on_flagged-Even envs allowlist clients standings [] p = Even-refl p
act_on_flagged-Even envs allowlist clients standings (mac ∷ rest) p =
    let acted = dns_act (envs 0) standings (client_by_mac mac clients) p in
    let x : Step = if contains (normalize_mac mac) allowlist then (ok tt, p) else acted in
    go_on-Even p x (act_on_flagged (λ k. envs (suc k)) allowlist clients standings rest)
      (if_intro (λ (y : Step). Even p y.1) (contains (normalize_mac mac) allowlist) (ok tt, p) acted
        (λ _. Even-refl p) (λ _. dns_act-Even (envs 0) standings (client_by_mac mac clients) p))
      (act_on_flagged-Even (λ k. envs (suc k)) allowlist clients standings rest x.1)

-- The configuration of a detector, where there is one.
abbrev pub Detects : Config → Option DnsThrashDetector → Type 0
Detects config none = Unit
Detects config (some d) = d.config ≡ config

finish-config :
    (cfg : DnsThrashConfig) (now : ℕ) (ips : Dict String) (d : DnsThrashDetector)
    (r : Result (List DnsQuery))
    → (Detector.finish cfg now ips d r).1.config ≡ d.config
unfolding Detector.finish
finish-config cfg now ips d (ok queries) = refl
finish-config cfg now ips d (raise e) = refl

observe-config :
    (cfg : DnsThrashConfig) (source : ℕ → Result (List DnsQuery)) (now : ℕ)
    (clients : List ClientSnapshot) (d : DnsThrashDetector)
    → (Detector.observe cfg source now clients d).1.config ≡ d.config
unfolding Detector.observe
observe-config cfg source now clients d = finish-config cfg now _ d _

-- The same settings in two states of a scanner.
pub record Level (config : Config) (s t : Scanner) : Type 0 where
  pub own : t.config ≡ s.config
  pub even : Even s.pipeline t.pipeline
  pub detector : Detects config s.detector → Detects config t.detector

Level-refl : (config : Config) (s : Scanner) → Level config s s
Level-refl config s = record { own = refl; even = Even-refl s.pipeline; detector = λ d. d }

module _ (config : Config) (e : CycleEnv) where
  run_detector-Level :
      (clients : List ClientSnapshot) (s : Scanner) (o : Option DnsThrashDetector)
      (cfg : Option DnsThrashConfig)
      → s.detector ≡ o
      → Level config s (run_detector e clients s o cfg).1
  unfolding run_detector
  run_detector-Level clients s none cfg same = Level-refl config s
  run_detector-Level clients s (some d) none same = Level-refl config s
  run_detector-Level clients s (some d) (some cfg) same =
      let (flagged, d') = Detector.observe cfg e.source e.dns_now clients d in
      record {
        own = refl;
        even =
            act_on_flagged-Even e.dns_envs s.config.allowlist clients d'.last_standings flagged
              s.pipeline;
        detector = λ h.
            let had : Detects config (some d) = subst (Detects config) same h in
            observe-config cfg e.source e.dns_now clients d ∙ had;
      }

  after_clients-Level :
      (clients : List ClientSnapshot) (s : Scanner) (x : Step)
      → Even s.pipeline x.1
      → Level config s (after_clients e clients s x).1
  unfolding after_clients run_dns_thrash
  after_clients-Level clients s (raise x, p) even = record {
    own = refl;
    even = even;
    detector = λ d. d;
  }
  after_clients-Level clients s (ok u, p) even =
      let mid : Scanner = record s { pipeline = p } in
      let l = run_detector-Level clients mid mid.detector (settings mid.detector) refl in
      record { own = l.own; even = Even-trans s.pipeline p _ even l.even; detector = l.detector }

  finish_cycle-Level :
      (s : Scanner) (x : Result (Unit {0}) × Scanner)
      → Level config s x.1
      → Level config s (finish_cycle e x).1
  unfolding finish_cycle
  finish_cycle-Level s (raise x, t) l = l
  finish_cycle-Level s (ok u, t) l = l

  pub run_once-Level :
      (local_time : String → ℕ → Result ℕ) (answer : Result (List ClientSnapshot)) (s : Scanner)
      → Level config s (run_once local_time e answer s).1
  unfolding run_once
  run_once-Level local_time (raise x) s = Level-refl config s
  run_once-Level local_time (ok clients) s =
      let x = scan_clients local_time e.client_envs clients s.pipeline in
      finish_cycle-Level s (after_clients e clients s x) (
        after_clients-Level clients s x
          (scan_clients-Even local_time e.client_envs clients s.pipeline))
