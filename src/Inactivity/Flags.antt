-- ===== src/Inactivity/Flags.antt =====
-- What a flag of `InactivityScorer.ingest` says about the client.
use wifi_shepard.Prelude.{
  ℕ, ◌+◌, ◌-◌, ◌≤◌, ◌<◌, String, ◌≡◌, refl, sym, ap, Bool, true, false, not, ◌||◌, Option, none,
  some, length, contains, ltb, if◌then◌else◌, arith, Bool-cases, inl, inr,
}
use wifi_shepard.Controller.{ClientSnapshot}
use wifi_shepard.Dict
use wifi_shepard.Inactivity.{
  InactivityScorer, Flatline, Window, settings, window, append, sum, test_window, observe_total,
  counted, ingest,
}
use wifi_shepard.Mac.{normalize_mac}

-- A full window of deltas that add up to less than the configured number of bytes, which the flag
-- tells.
pub record Flat (s : InactivityScorer) (w : Window) (f : Flatline) : Type 0 where
  pub full : w.maxlen ≤ length w.deltas
  pub low : sum w.deltas < (settings s).min_bytes_per_window
  pub told : f.window_bytes ≡ sum w.deltas
  pub told_min : f.min_bytes_per_window ≡ (settings s).min_bytes_per_window
  pub told_samples : f.window_samples ≡ w.maxlen

-- The two counters of this poll and their total at the last one.
pub record Counted (s : InactivityScorer) (client : ClientSnapshot) (f : Flatline) : Type 0 where
  pub tx : ℕ
  pub rx : ℕ
  pub last : ℕ
  pub tx_known : client.tx_bytes ≡ some tx
  pub rx_known : client.rx_bytes ≡ some rx
  pub seen : Dict.get s.prev (normalize_mac client.mac) ≡ some last
  pub rising : last ≤ tx + rx
  pub flat : Flat s (append (window s (normalize_mac client.mac)) (tx + rx - last)) f

pub record Idle (s : InactivityScorer) (client : ClientSnapshot) (f : Flatline) : Type 0 where
  pub enabled : (settings s).enabled ≡ true
  pub unlisted : contains (normalize_mac client.mac) s.config.allowlist ≡ false
  pub opted : contains (normalize_mac client.mac) (settings s).macs ≡ true
  pub counted : Counted s client f

tested :
    (short low : Bool) (f g : Flatline) (s s' : InactivityScorer)
    → (if◌then◌else◌ {A = Option Flatline × InactivityScorer} short
        (none, s)
        (if low then (some g, s') else (none, s))).0
      ≡ some f
    → (short ≡ false) × (low ≡ true) × (g ≡ f)
tested true low f g s s' e = cc
tested false true f g s s' e = (refl, refl, cc)
tested false false f g s s' e = cc

test_window-Flat :
    (s : InactivityScorer) (mac : String) (w : Window) (f : Flatline)
    → (test_window s mac w).0 ≡ some f
    → Flat s w f
unfolding test_window
test_window-Flat s mac w f e =
    let t =
      tested (ltb (length w.deltas) w.maxlen) (ltb (sum w.deltas) (settings s).min_bytes_per_window)
        f _ _ _ e in
    record {
      full = ground (arith, t.0);
      low = ground (arith, t.1);
      told = sym (ap (λ (g : Flatline). g.window_bytes) t.2);
      told_min = sym (ap (λ (g : Flatline). g.min_bytes_per_window) t.2);
      told_samples = sym (ap (λ (g : Flatline). g.window_samples) t.2);
    }

-- The part of a flag that lies past the two counters.
record Risen (s : InactivityScorer) (mac : String) (total : ℕ) (prev : Option ℕ) (f : Flatline)
    : Type 0 where
  last : ℕ
  seen : prev ≡ some last
  rising : last ≤ total
  flat : Flat s (append (window s mac) (total - last)) f

observe_total-Risen :
    (s : InactivityScorer) (mac : String) (total : ℕ) (prev : Option ℕ) (f : Flatline)
    → (observe_total s mac total prev).0 ≡ some f
    → Risen s mac total prev f
unfolding observe_total
observe_total-Risen s mac total none f e = cc
observe_total-Risen s mac total (some p) f e = elim (Bool-cases (ltb total p)) [
  | inl reset ↦ ground arith
  | inr rising ↦
      let s' : InactivityScorer = record s { prev = Dict.put s.prev mac total } in
      let h : (test_window s' mac (append (window s' mac) (total - p))).0 ≡ some f = ground arith in
      let w = test_window-Flat s' mac _ f h in
      record {
        last = p;
        seen = refl;
        rising = ground arith;
        flat = record {
          full = w.full;
          low = w.low;
          told = w.told;
          told_min = w.told_min;
          told_samples = w.told_samples;
        };
      }
]

counted-Counted :
    (s : InactivityScorer) (client : ClientSnapshot) (tx rx : Option ℕ) (f : Flatline)
    → client.tx_bytes ≡ tx
    → client.rx_bytes ≡ rx
    → (counted s (normalize_mac client.mac) tx rx).0 ≡ some f
    → Counted s client f
unfolding counted
counted-Counted s client none rx f et er e = cc
counted-Counted s client (some tx) none f et er e = cc
counted-Counted s client (some tx) (some rx) f et er e =
    let r = observe_total-Risen s (normalize_mac client.mac) (tx + rx) _ f e in
    record {
      tx = tx;
      rx = rx;
      last = r.last;
      tx_known = et;
      rx_known = er;
      seen = r.seen;
      rising = r.rising;
      flat = r.flat;
    }

guarded :
    (enabled listed opted : Bool) (s : InactivityScorer) (p : Option Flatline × InactivityScorer)
    (f : Flatline)
    → (if◌then◌else◌ {A = Option Flatline × InactivityScorer}
        (not enabled || (listed || not opted))
        (none, s)
        p).0
      ≡ some f
    → (enabled ≡ true) × (listed ≡ false) × (opted ≡ true) × (p.0 ≡ some f)
guarded false listed opted s p f e = cc
guarded true true opted s p f e = cc
guarded true false false s p f e = cc
guarded true false true s p f e = (refl, refl, refl, e)

-- A flag means that the detector is on, that the client is opted in and not on the allowlist, that
-- both its counters are known and have not gone back since the last poll, and that its window, with
-- the bytes since then, is full and adds up to less than the configured number, as the flag tells.
pub ingest-Idle :
    (s : InactivityScorer) (client : ClientSnapshot) (f : Flatline)
    → (ingest s client).0 ≡ some f
    → Idle s client f
unfolding ingest
ingest-Idle s client f e =
    let g =
      guarded (settings s).enabled (contains (normalize_mac client.mac) s.config.allowlist)
        (contains (normalize_mac client.mac) (settings s).macs) s
        (counted s (normalize_mac client.mac) client.tx_bytes client.rx_bytes) f e in
    record {
      enabled = g.0;
      unlisted = g.1;
      opted = g.2;
      counted = counted-Counted s client client.tx_bytes client.rx_bytes f refl refl g.3;
    }
