-- ===== src/Scanner/Clients.antt =====
-- The loop over the clients of a poll cycle never touches a client on the allowlist.
use wifi_shepard.Prelude.{
  ◌-◌, ℕ, suc, String, ◌≡◌, refl, sym, ap, ◌∙◌, false, not, ◌||◌, inl, inr, Option, none, some,
  List, [], ◌∷◌, arith, Bool-cases, contains, Result, ok, raise, if_intro, ltb,
}
use wifi_shepard.Actor
use wifi_shepard.Actor.{check_post_kick_outcome}
use wifi_shepard.Config.{Config}
use wifi_shepard.Dict
use wifi_shepard.Controller.{ClientSnapshot}
use wifi_shepard.Inactivity
use wifi_shepard.Inactivity.{InactivityScorer, Flatline}
use wifi_shepard.Inactivity.Flags.{ingest-Idle}
use wifi_shepard.Mac.{normalize_mac}
use wifi_shepard.Pipeline.{DetectionPipeline}
use wifi_shepard.Rationale.{rf, inactivity}
use wifi_shepard.Resolution.{Thresholds}
use wifi_shepard.Scanner.{
  ClientEnv, Step, idle_act, idle_path, go_on, rf_act, rf_path, scan_client, scan_clients,
}
use wifi_shepard.Scanner.Calls.{
  Calls, Calls-none, Calls-trans, handle-Calls, wires-check_post_kick_outcome,
}
use wifi_shepard.Scorer
use wifi_shepard.Scorer.{Scorer, judge, append_sample}
use wifi_shepard.Scorer.Flags.{ingest-Flagged}

config-judge :
    (s : Scorer) (client : ClientSnapshot) (m : Result Thresholds)
    → (judge s client m).1.config ≡ s.config
unfolding judge append_sample
config-judge s client (raise e) = refl
config-judge s client (ok t) = refl

pub config-scorer :
    (local_time : String → ℕ → Result ℕ) (now : ℕ) (s : Scorer) (client : ClientSnapshot)
    → (Scorer.ingest local_time now s client).1.config ≡ s.config
unfolding Scorer.ingest
config-scorer local_time now s client =
    elim (Bool-cases (contains (normalize_mac client.mac) s.config.allowlist)) [
      | inl listed ↦ rw listed refl
      | inr free ↦ rw free (config-judge s client _)
    ]

config-test_window :
    (s : InactivityScorer) (mac : String) (w : Inactivity.Window)
    → (Inactivity.test_window s mac w).1.config ≡ s.config
unfolding Inactivity.test_window Inactivity.drop_window
config-test_window s mac w = ground arith

config-observe_total :
    (s : InactivityScorer) (mac : String) (total : ℕ) (p : Option ℕ)
    → (Inactivity.observe_total s mac total p).1.config ≡ s.config
unfolding Inactivity.observe_total Inactivity.drop_window
config-observe_total s mac total none = refl
config-observe_total s mac total (some p) = elim (Bool-cases (ltb total p)) [
  | inl reset ↦ rw reset refl
  | inr rising ↦
      let s' : InactivityScorer = record s { prev = Dict.put s.prev mac total } in
      rw rising
        (config-test_window s' mac (Inactivity.append (Inactivity.window s' mac) (total - p)))
]

config-counted :
    (s : InactivityScorer) (mac : String) (tx rx : Option ℕ)
    → (Inactivity.counted s mac tx rx).1.config ≡ s.config
unfolding Inactivity.counted Inactivity.clear
config-counted s mac none rx = refl
config-counted s mac (some tx) none = refl
config-counted s mac (some tx) (some rx) = config-observe_total s mac _ _

pub config-inactivity :
    (s : InactivityScorer) (client : ClientSnapshot)
    → (Inactivity.ingest s client).1.config ≡ s.config
unfolding Inactivity.ingest
config-inactivity s client =
    let mac = normalize_mac client.mac in
    if_intro (λ (r : Option Flatline × InactivityScorer). r.1.config ≡ s.config)
      (not (Inactivity.settings s).enabled
        || (contains mac s.config.allowlist || not (contains mac (Inactivity.settings s).macs)))
      (none, s) (Inactivity.counted s mac client.tx_bytes client.rx_bytes) (λ e. refl)
      (λ e. config-counted s mac client.tx_bytes client.rx_bytes)

-- The two detectors read this allowlist.
pub record Reads (allowlist : List String) (p : DetectionPipeline) : Type 0 where
  pub by_scorer : p.scorer.config.allowlist ≡ allowlist
  pub by_inactivity : p.inactivity.config.allowlist ≡ allowlist

-- What a step may do: permitted calls, and no change of what the detectors read.
pub record Safe (allowlist : List String) (p q : DetectionPipeline) : Type 0 where
  pub calls : Calls allowlist p.actor q.actor
  pub reads : Reads allowlist q

module _ (allowlist : List String) where
  pub Safe-trans :
      (p q r : DetectionPipeline) → Safe allowlist p q → Safe allowlist q r → Safe allowlist p r
  Safe-trans p q r s t = record {
    calls = Calls-trans allowlist p.actor q.actor r.actor s.calls t.calls;
    reads = t.reads;
  }

  pub go_on-Safe :
      (p : DetectionPipeline) (x : Step) (k : DetectionPipeline → Step)
      → Safe allowlist p x.1
      → Safe allowlist x.1 (k x.1).1
      → Safe allowlist p (go_on x k).1
  go_on-Safe p (ok u, q) k s t = Safe-trans p q (k q).1 s t
  go_on-Safe p (raise e, q) k s t = s

  module _ (client : ClientSnapshot) where
    rf_act-Safe :
        (env : Actor.Env) (m : Result (Option Thresholds)) (p : DetectionPipeline)
        → Reads allowlist p
        → ((t : Thresholds)
            → m ≡ ok (some t)
            → contains (normalize_mac client.mac) allowlist ≡ false)
        → Safe allowlist p (rf_act env client (m, p)).1
    rf_act-Safe env (raise e) p r free = record { calls = Calls-none allowlist _ _ refl; reads = r }
    rf_act-Safe env (ok none) p r free = record { calls = Calls-none allowlist _ _ refl; reads = r }
    rf_act-Safe env (ok (some t)) p r free = record {
      calls = handle-Calls allowlist env client (rf t) p.actor (free t refl);
      reads = record { by_scorer = r.by_scorer; by_inactivity = r.by_inactivity };
    }

    rf_path-Safe :
        (local_time : String → ℕ → Result ℕ) (e : ClientEnv) (p : DetectionPipeline)
        → Reads allowlist p
        → Safe allowlist p (rf_path local_time e client p).1
    unfolding rf_path
    rf_path-Safe local_time e p r =
        let q : DetectionPipeline = record p {
          scorer = (Scorer.ingest local_time e.score_now p.scorer client).1;
        } in
        let c = config-scorer local_time e.score_now p.scorer client in
        let s =
          rf_act-Safe e.rf_env (Scorer.ingest local_time e.score_now p.scorer client).0 q
            (record {
              by_scorer = ap (λ (d : Config). d.allowlist) c ∙ r.by_scorer;
              by_inactivity = r.by_inactivity;
            })
            (λ t h.
              ap (contains (normalize_mac client.mac)) (sym r.by_scorer)
              ∙ (ingest-Flagged local_time e.score_now p.scorer client t h).listed) in
        record { calls = s.calls; reads = s.reads }

    idle_act-Safe :
        (env : Actor.Env) (o : Option Flatline) (p : DetectionPipeline)
        → Reads allowlist p
        → ((f : Flatline) → o ≡ some f → contains (normalize_mac client.mac) allowlist ≡ false)
        → Safe allowlist p (idle_act env client (o, p)).1
    idle_act-Safe env none p r free = record { calls = Calls-none allowlist _ _ refl; reads = r }
    idle_act-Safe env (some f) p r free = record {
      calls = handle-Calls allowlist env client (inactivity f) p.actor (free f refl);
      reads = record { by_scorer = r.by_scorer; by_inactivity = r.by_inactivity };
    }

    idle_path-Safe :
        (e : ClientEnv) (p : DetectionPipeline)
        → Reads allowlist p
        → Safe allowlist p (idle_path e client p).1
    unfolding idle_path
    idle_path-Safe e p r =
        let q : DetectionPipeline = record p {
          inactivity = (Inactivity.ingest p.inactivity client).1;
        } in
        let c = config-inactivity p.inactivity client in
        let s =
          idle_act-Safe e.idle_env (Inactivity.ingest p.inactivity client).0 q
            (record {
              by_scorer = r.by_scorer;
              by_inactivity = ap (λ (d : Config). d.allowlist) c ∙ r.by_inactivity;
            })
            (λ f h.
              ap (contains (normalize_mac client.mac)) (sym r.by_inactivity)
              ∙ (ingest-Idle p.inactivity client f h).unlisted) in
        record { calls = s.calls; reads = s.reads }

    scan_client-Safe :
        (local_time : String → ℕ → Result ℕ) (e : ClientEnv) (p : DetectionPipeline)
        → Reads allowlist p
        → Safe allowlist p (scan_client local_time e client p).1
    unfolding scan_client
    scan_client-Safe local_time e p r = elim (Bool-cases e.sample_fails) [
      | inl fails ↦ rw fails (record { calls = Calls-none allowlist _ _ refl; reads = r })
      | inr fine ↦
          let q : DetectionPipeline = record p { actor = check_post_kick_outcome client p.actor } in
          let first : Safe allowlist p q = record {
            calls =
                Calls-none allowlist p.actor q.actor (wires-check_post_kick_outcome client p.actor);
            reads = record { by_scorer = r.by_scorer; by_inactivity = r.by_inactivity };
          } in
          let second = rf_path-Safe local_time e q first.reads in
          rw fine (
            Safe-trans p q _ first (
              go_on-Safe q (rf_path local_time e client q) (idle_path e client) second
                (idle_path-Safe e (rf_path local_time e client q).1 second.reads)))
    ]

  -- The loop over the clients, however it ends, calls no client on the allowlist that its detectors
  -- read, and leaves them that allowlist.
  pub scan_clients-Safe :
      (local_time : String → ℕ → Result ℕ) (envs : ℕ → ClientEnv) (clients : List ClientSnapshot)
      (p : DetectionPipeline)
      → Reads allowlist p
      → Safe allowlist p (scan_clients local_time envs clients p).1
  unfolding scan_clients
  scan_clients-Safe local_time envs [] p r = record {
    calls = Calls-none allowlist _ _ refl;
    reads = r;
  }
  scan_clients-Safe local_time envs (c ∷ cs) p r =
      let s = scan_client-Safe c local_time (envs 0) p r in
      go_on-Safe p (scan_client local_time (envs 0) c p)
        (scan_clients local_time (λ k. envs (suc k)) cs) s
        (scan_clients-Safe local_time (λ k. envs (suc k)) cs (scan_client local_time (envs 0) c p).1
          s.reads)
