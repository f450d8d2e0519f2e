-- ===== src/RateLimit/Safety.antt =====
-- Whatever is attempted, what the limiter lets through is spaced and capped.
use wifi_shepard.RateLimit.Run.{
  Attempt, fresh, fallback, after_fresh, after_fallback, step, run, InOrder, Spaced, between,
  Capped, new,
}
use wifi_shepard.Dict.{get_or-empty}
use mathlib.Core.List.{append-nil, append_assoc}
use wifi_shepard.Prelude.{
  ℕ, ◌+◌, ◌≤◌, ◌<◌, String, ◌≡◌, refl, inl, inr, List, [], ◌∷◌, ◌++◌, arith, ◌==◌, leb, length,
  seconds, Bool-cases, length-append, leb→le, eq_iff, ◌∙◌,
}
use wifi_shepard.RateLimit.{
  KickRateLimiter, Sent, kicked, wired, can_kick, can_wire_call, record_wire_call,
}
use wifi_shepard.RateLimit.Gate.{
  Clear, can_kick_iff, can_wire_call_iff, can_kick-Tracks, SameSettings, can_kick-SameSettings,
  record_kick-SameSettings, later-Tracks,
}
use wifi_shepard.RateLimit.History.{
  instant, kick_times, Tracks, record_kick-Tracks, record_wire_call-Tracks, kick_times-append,
  kick_times_self, kick_times_other, last_instant,
}
use wifi_shepard.Verdict.{Verdict, allowed, denied}
use wifi_shepard.Window.{within, length-within_mono, All-mono}

-- What holds after each attempt.
pub record Safe (gap window cap : ℕ) (l : KickRateLimiter) (h : List Sent) (clock : ℕ)
    : Type 0 where
  pub tracks : Tracks l h clock
  gap_eq : l.min_seconds_between_kicks ≡ gap
  cap_eq : l.max_kicks_per_ap_per_window ≡ cap
  window_eq : l.per_ap_window_seconds ≡ window
  spaced : Spaced (seconds gap) [] h
  capped : Capped (seconds window) cap h

Spaced-append :
    (gap : ℕ) (before h : List Sent) (s : Sent)
    → Spaced gap before h
    → Clear gap (instant s) (before ++ h)
    → Spaced gap before (h ++ s ∷ [])
Spaced-append gap before [] s sp c = (rw append-nil at c, tt)
Spaced-append gap before (u ∷ h) s sp c =
    (sp.0, Spaced-append gap (before ++ u ∷ []) h s sp.1 (rw append_assoc c))

between-append :
    (window start : ℕ) (ts us : List ℕ)
    → between window start (ts ++ us) ≡ between window start ts ++ between window start us
unfolding between
between-append window start [] us = refl
between-append window start (t ∷ ts) us = ground (arith, between-append window start ts us)

-- A window that reaches `now` holds no more than the trailing window at `now`.
between-le-within :
    (window start now : ℕ) (ts : List ℕ)
    → now ≤ start + window
    → length (between window start ts) ≤ length (within window now ts)
unfolding between within
between-le-within window start now [] h = omega arith
between-le-within window start now (t ∷ ts) h =
    ground (arith, between-le-within window start now ts h)

-- One more kick, where the trailing window has room.
between-one :
    (window start now cap : ℕ) (ts : List ℕ)
    → length (within window now ts) < cap
    → length (between window start ts) ≤ cap
    → length (between window start (ts ++ now ∷ [])) ≤ cap
between-one window start now cap ts room le = elim (Bool-cases (leb now (start + window))) [
  | inl e ↦
      let few = between-le-within window start now ts (leb→le _ _ e) in
      rw (between-append, length-append) (unfold between in ground arith)
  | inr e ↦ rw (between-append, length-append) (unfold between in ground arith)
]

between-none :
    (window start cap : ℕ) (ts : List ℕ) → ts ≡ [] → length (between window start ts) ≤ cap
unfolding between
between-none window start cap ts e = rw e (omega arith)

Capped-kick :
    (window cap now : ℕ) (h : List Sent) (ap_id : String)
    → length (within window now (kick_times ap_id h)) < cap
    → Capped window cap h
    → Capped window cap (h ++ kicked ap_id now ∷ [])
Capped-kick window cap now h ap_id room c j start =
    rw kick_times-append (elim (Bool-cases (ap_id == j)) [
      | inl e ↦
          let q : ap_id ≡ j = (eq_iff ap_id j).0 e in
          rw (kick_times_self ap_id j now e)
            (between-one window start now cap (kick_times j h) (rw q at room) (c j start))
      | inr e ↦ rw (kick_times_other ap_id j now e, append-nil) (c j start)
    ])

Capped-wire :
    (window cap now : ℕ) (h : List Sent)
    → Capped window cap h
    → Capped window cap (h ++ wired now ∷ [])
Capped-wire window cap now h c j start =
    rw kick_times-append (unfold kick_times in rw append-nil (c j start))

later-Safe :
    {gap window cap : ℕ} {l : KickRateLimiter} {h : List Sent} (clock now : ℕ)
    → clock ≤ now
    → Safe gap window cap l h clock
    → Safe gap window cap l h now
later-Safe {l = l} {h = h} clock now le s = record {
  tracks = later-Tracks l h clock now le s.tracks;
  gap_eq = s.gap_eq;
  cap_eq = s.cap_eq;
  window_eq = s.window_eq;
  spaced = s.spaced;
  capped = s.capped;
}

module _ {gap window cap : ℕ} (on : 0 < cap) where
  after_fresh-Safe :
      (ap_id : String) (gate wire : ℕ) (h : List Sent) (v : Verdict) (l : KickRateLimiter)
      → gate ≤ wire
      → (v ≡ allowed
          → Clear (seconds gap) gate h
            × (length (within (seconds window) gate (kick_times ap_id h)) < cap))
      → Safe gap window cap l h gate
      → Safe gap window cap
          (after_fresh ap_id wire h (v, l)).0
          (after_fresh ap_id wire h (v, l)).1
          wire
  unfolding after_fresh
  after_fresh-Safe ap_id gate wire h (denied r x) l le room s = later-Safe gate wire le s
  after_fresh-Safe ap_id gate wire h allowed l le room s =
      let (clear, few) = room refl in
      let keep = record_kick-SameSettings l ap_id wire in
      record {
        tracks = record_kick-Tracks l h gate ap_id wire (rw s.cap_eq on) le s.tracks;
        gap_eq = keep.gap ∙ s.gap_eq;
        cap_eq = keep.cap ∙ s.cap_eq;
        window_eq = keep.window ∙ s.window_eq;
        spaced = Spaced-append (seconds gap) [] h (kicked ap_id wire) s.spaced (
            All-mono (λ u. instant u + seconds gap ≤ gate) (λ u. instant u + seconds gap ≤ wire)
              (λ u p. omega arith) h clear);
        capped =
            Capped-kick (seconds window) cap wire h ap_id
              (omega (arith, length-within_mono (seconds window) gate wire (kick_times ap_id h) le))
              s.capped;
      }

  after_fallback-Safe :
      (l : KickRateLimiter) (gate wire : ℕ) (h : List Sent) (v : Verdict)
      → gate ≤ wire
      → (v ≡ allowed → Clear (seconds gap) gate h)
      → Safe gap window cap l h gate
      → Safe gap window cap (after_fallback l wire h v).0 (after_fallback l wire h v).1 wire
  unfolding after_fallback
  after_fallback-Safe l gate wire h (denied r x) le room s = later-Safe gate wire le s
  after_fallback-Safe l gate wire h allowed le room s = record {
    tracks = record_wire_call-Tracks l h gate wire le s.tracks;
    gap_eq = unfold record_wire_call in s.gap_eq;
    cap_eq = unfold record_wire_call in s.cap_eq;
    window_eq = unfold record_wire_call in s.window_eq;
    spaced = Spaced-append (seconds gap) [] h (wired wire) s.spaced (
        All-mono (λ u. instant u + seconds gap ≤ gate) (λ u. instant u + seconds gap ≤ wire)
          (λ u p. omega arith) h (room refl));
    capped = Capped-wire (seconds window) cap wire h s.capped;
  }

  gated-Safe :
      (l k : KickRateLimiter) (h : List Sent) (clock gate : ℕ)
      → SameSettings l k
      → Tracks k h gate
      → Safe gap window cap l h clock
      → Safe gap window cap k h gate
  gated-Safe l k h clock gate same tracks s = record {
    tracks = tracks;
    gap_eq = same.gap ∙ s.gap_eq;
    cap_eq = same.cap ∙ s.cap_eq;
    window_eq = same.window ∙ s.window_eq;
    spaced = s.spaced;
    capped = s.capped;
  }

  run-Safe :
      (attempts : List Attempt) (l : KickRateLimiter) (h : List Sent) (clock : ℕ)
      → InOrder clock attempts
      → Safe gap window cap l h clock
      → (Spaced (seconds gap) [] (run (l, h) attempts).1)
        × Capped (seconds window) cap (run (l, h) attempts).1
  unfolding run step
  run-Safe [] l h clock o s = (s.spaced, s.capped)
  run-Safe (fresh ap_id gate wire ∷ rest) l h clock (o, o', o'') s = run-Safe rest _ _ wire o'' (
      after_fresh-Safe ap_id gate wire h (can_kick l ap_id gate).0 (can_kick l ap_id gate).1 o'
        (λ e.
          let (clear, few) = (can_kick_iff l h clock ap_id gate (rw s.cap_eq on) o s.tracks).0 e in
          (rw (← s.gap_eq) clear, rw (← s.cap_eq, ← s.window_eq) few))
        (gated-Safe l (can_kick l ap_id gate).1 h clock gate (can_kick-SameSettings l ap_id gate)
          (can_kick-Tracks l h clock ap_id gate o s.tracks) s))
  run-Safe (fallback gate wire ∷ rest) l h clock (o, o', o'') s = run-Safe rest _ _ wire o'' (
      after_fallback-Safe l gate wire h (can_wire_call l gate) o'
        (λ e. rw (← s.gap_eq) ((can_wire_call_iff l h clock gate o s.tracks).0 e))
        (later-Safe clock gate o s))

pub new-Safe : (gap cap window : ℕ) → Safe gap window cap (new gap cap window) [] 0
unfolding last_instant kick_times
new-Safe gap cap window = record {
  tracks = record {
    last = refl;
    past = tt;
    newest = λ t e. tt;
    sorted = λ j. rw get_or-empty tt;
    recent = λ j. rw get_or-empty tt;
    same = λ j now le. rw get_or-empty refl;
  };
  gap_eq = refl;
  cap_eq = refl;
  window_eq = refl;
  spaced = tt;
  capped = λ j start. between-none (seconds window) start cap [] refl;
}

-- From a new limiter with a cap, whatever is attempted on a clock that does not go back: every wire
-- call lies at least the configured gap after all before it, and no window of the configured length,
-- wherever it starts, holds more fresh kicks at one access point than the cap.
pub run_safe :
    (gap cap window : ℕ) (attempts : List Attempt)
    → 0 < cap
    → InOrder 0 attempts
    → (Spaced (seconds gap) [] (run (new gap cap window, []) attempts).1)
      × Capped (seconds window) cap (run (new gap cap window, []) attempts).1
run_safe gap cap window attempts on o =
    run-Safe on attempts (new gap cap window) [] 0 o (new-Safe gap cap window)
