-- ===== src/Scanner/Cycle.antt =====
-- A whole poll cycle never touches a client on the allowlist.
use wifi_shepard.Prelude.{
  ℕ, suc, String, ◌≡◌, refl, sym, ap, ◌∙◌, Bool, true, false, inl, inr, Option, none, some, List,
  [], ◌∷◌, ◌==◌, eq_iff, Bool-cases, if◌then◌else◌, contains, Result, ok, raise,
}
use wifi_shepard.Actor
use wifi_shepard.Config.{DnsThrashConfig}
use wifi_shepard.Controller.{ClientSnapshot}
use wifi_shepard.Dns.Detector
use wifi_shepard.Dns.Detector.{DnsThrashDetector, Standing}
use wifi_shepard.Mac.{normalize_mac}
use wifi_shepard.Pipeline.{DetectionPipeline}
use wifi_shepard.Rationale.{dns_thrash}
use wifi_shepard.Scanner.{
  Scanner, CycleEnv, Step, client_by_mac, dns_act, act_on_flagged, evidence_of, loudest,
  run_detector, run_dns_thrash, settings, after_clients, finish_cycle, run_once,
}
use wifi_shepard.Scanner.Calls.{Calls-none, handle-Calls}
use wifi_shepard.Scanner.Clients.{Reads, Safe, Safe-trans, go_on-Safe, scan_clients-Safe}

same_mac :
    (b : Bool) (mac : String) (d c : ClientSnapshot)
    → (d.mac == mac) ≡ b
    → (if b then some d else none) ≡ some c
    → c.mac ≡ mac
same_mac true mac d c same e =
    let q : d ≡ c = cc in sym (ap (λ (x : ClientSnapshot). x.mac) q) ∙ (eq_iff d.mac mac).0 same
same_mac false mac d c same e = cc

later_mac :
    (o : Option ClientSnapshot) (mac : String) (d c : ClientSnapshot)
    → ((l : ClientSnapshot) → o ≡ some l → l.mac ≡ mac)
    → elim o [ some later ↦ some later | none ↦ if d.mac == mac then some d else none ] ≡ some c
    → c.mac ≡ mac
later_mac none mac d c h e = same_mac (d.mac == mac) mac d c refl e
later_mac (some l) mac d c h e =
    let q : l ≡ c = cc in sym (ap (λ (x : ClientSnapshot). x.mac) q) ∙ h l refl

-- The client that is found has the MAC that was asked for.
mac-client_by_mac :
    (mac : String) (clients : List ClientSnapshot) (c : ClientSnapshot)
    → client_by_mac mac clients ≡ some c
    → c.mac ≡ mac
unfolding client_by_mac
mac-client_by_mac mac [] c e = cc
mac-client_by_mac mac (d ∷ ds) c e =
    later_mac (client_by_mac mac ds) mac d c (mac-client_by_mac mac ds) e

-- The scanner and its detectors read this allowlist.
pub record Agrees (allowlist : List String) (s : Scanner) : Type 0 where
  pub own : s.config.allowlist ≡ allowlist
  pub reads : Reads allowlist s.pipeline

module _ (allowlist : List String) where
  dns_act-Safe :
      (env : Actor.Env) (standings : List Standing) (o : Option ClientSnapshot)
      (p : DetectionPipeline)
      → Reads allowlist p
      → ((c : ClientSnapshot) → o ≡ some c → contains (normalize_mac c.mac) allowlist ≡ false)
      → Safe allowlist p (dns_act env standings o p).1
  unfolding dns_act
  dns_act-Safe env standings none p r free = record {
    calls = Calls-none allowlist _ _ refl;
    reads = r;
  }
  dns_act-Safe env standings (some c) p r free = record {
    calls =
        handle-Calls allowlist env c (dns_thrash (evidence_of (loudest c.mac standings))) p.actor
          (free c refl);
    reads = record { by_scorer = r.by_scorer; by_inactivity = r.by_inactivity };
  }

  act_on_flagged-Safe :
      (envs : ℕ → Actor.Env) (clients : List ClientSnapshot) (standings : List Standing)
      (flagged : List String) (p : DetectionPipeline)
      → Reads allowlist p
      → Safe allowlist p (act_on_flagged envs allowlist clients standings flagged p).1
  unfolding act_on_flagged
  act_on_flagged-Safe envs clients standings [] p r = record {
    calls = Calls-none allowlist _ _ refl;
    reads = r;
  }
  act_on_flagged-Safe envs clients standings (mac ∷ rest) p r =
      elim (Bool-cases (contains (normalize_mac mac) allowlist)) [
        | inl listed ↦
            rw listed (act_on_flagged-Safe (λ k. envs (suc k)) clients standings rest p r)
        | inr free ↦
            let s = dns_act-Safe (envs 0) standings (client_by_mac mac clients) p r (λ c e.
              ap (λ m. contains (normalize_mac m) allowlist) (mac-client_by_mac mac clients c e)
              ∙ free) in
            rw free (
              go_on-Safe allowlist p (dns_act (envs 0) standings (client_by_mac mac clients) p)
                (act_on_flagged (λ k. envs (suc k)) allowlist clients standings rest) s
                (act_on_flagged-Safe (λ k. envs (suc k)) clients standings rest _ s.reads))
      ]

  run_detector-Safe :
      (e : CycleEnv) (clients : List ClientSnapshot) (s : Scanner) (d : Option DnsThrashDetector)
      (cfg : Option DnsThrashConfig)
      → Agrees allowlist s
      → Safe allowlist s.pipeline (run_detector e clients s d cfg).1.pipeline
  unfolding run_detector
  run_detector-Safe e clients s none cfg a = record {
    calls = Calls-none allowlist _ _ refl;
    reads = a.reads;
  }
  run_detector-Safe e clients s (some d) none a = record {
    calls = Calls-none allowlist _ _ refl;
    reads = a.reads;
  }
  run_detector-Safe e clients s (some d) (some cfg) a =
      let o = Detector.observe cfg e.source e.dns_now clients d in
      rw a.own (act_on_flagged-Safe e.dns_envs clients o.1.last_standings o.0 s.pipeline a.reads)

  after_clients-Safe :
      (e : CycleEnv) (clients : List ClientSnapshot) (s : Scanner) (x : Step)
      → Agrees allowlist s
      → Safe allowlist s.pipeline x.1
      → Safe allowlist s.pipeline (after_clients e clients s x).1.pipeline
  unfolding after_clients run_dns_thrash
  after_clients-Safe e clients s (raise x, p) a f = f
  after_clients-Safe e clients s (ok u, p) a f = Safe-trans allowlist s.pipeline p _ f (
      run_detector-Safe e clients (record s { pipeline = p }) s.detector (settings s.detector)
        (record { own = a.own; reads = f.reads }))

  finish_cycle-Safe :
      (e : CycleEnv) (p : DetectionPipeline) (x : Result (Unit {0}) × Scanner)
      → Safe allowlist p x.1.pipeline
      → Safe allowlist p (finish_cycle e x).1.pipeline
  unfolding finish_cycle
  finish_cycle-Safe e p (ok u, s) f = f
  finish_cycle-Safe e p (raise x, s) f = f

  -- Where the scanner and its detectors read one allowlist, a poll cycle, whatever it is answered and
  -- however it ends, makes wire calls to clients that are not on the allowlist only, and leaves the
  -- detectors their allowlist.
  pub run_once-Safe :
      (local_time : String → ℕ → Result ℕ) (e : CycleEnv) (clients : Result (List ClientSnapshot))
      (s : Scanner)
      → Agrees allowlist s
      → Safe allowlist s.pipeline (run_once local_time e clients s).1.pipeline
  unfolding run_once
  run_once-Safe local_time e (raise x) s a = record {
    calls = Calls-none allowlist _ _ refl;
    reads = a.reads;
  }
  run_once-Safe local_time e (ok clients) s a = finish_cycle-Safe e s.pipeline _ (
      after_clients-Safe e clients s _ a
        (scan_clients-Safe allowlist local_time e.client_envs clients s.pipeline a.reads))
