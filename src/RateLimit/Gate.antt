-- ===== src/RateLimit/Gate.antt =====
-- What the gates answer, read off the complete history.
use wifi_shepard.Prelude.{
  ℕ, ◌+◌, ◌≤◌, ◌<◌, String, ◌≡◌, refl, true, none, some, List, [], ◌∷◌, arith, length, All, seconds,
  ltb, Bool-cases, inl, inr, lt→ltb, ◌↔◌, Option-cases, ◌∙◌, sym, ap,
}
use wifi_shepard.RateLimit.{
  KickRateLimiter, Sent, kicks_of, check_timer, check_global, check_deque, check_ap, can_kick,
  can_wire_call, after_global, prune, record_kick,
}
use wifi_shepard.RateLimit.History.{instant, kick_times, last_instant, Tracks, prune-Tracks}
use wifi_shepard.Verdict.{Verdict, allowed, denied, is_allowed}
use wifi_shepard.Window.{prune_deque, within, prune_deque-eq-within, All-mono}

-- Every instant of the history lies at least `gap` before `now`.
abbrev pub Clear : ℕ → ℕ → List Sent → Type 0
Clear gap now h = All (λ s. instant s + gap ≤ now) h

last_instant-ne-none : (t : ℕ) (h : List Sent) → last_instant (some t) h ≡ none → ⊥
unfolding last_instant
last_instant-ne-none t [] e = cc
last_instant-ne-none t (s ∷ h) e = last_instant-ne-none (instant s) h e

nothing_sent : (h : List Sent) → last_instant none h ≡ none → h ≡ []
unfolding last_instant
nothing_sent [] e = refl
nothing_sent (s ∷ h) e = absurd (last_instant-ne-none (instant s) h e)

-- A property of all instants holds of the last one.
last_instant_from :
    (P : ℕ → Type 0) (u t : ℕ) (h : List Sent)
    → P u
    → All (λ s. P (instant s)) h
    → last_instant (some u) h ≡ some t
    → P t
unfolding last_instant
last_instant_from P u t [] p a e = let q : u ≡ t = cc in rw (← q) p
last_instant_from P u t (s ∷ h) p a e = last_instant_from P (instant s) t h a.0 a.1 e

last_instant-All :
    (P : ℕ → Type 0) (t : ℕ) (h : List Sent)
    → All (λ s. P (instant s)) h
    → last_instant none h ≡ some t
    → P t
unfolding last_instant
last_instant-All P t [] a e = cc
last_instant-All P t (s ∷ h) a e = last_instant_from P (instant s) t h a.0 a.1 e

timer_open :
    (l : KickRateLimiter) (h : List Sent) (clock now : ℕ)
    → clock ≤ now
    → Tracks l h clock
    → is_allowed (check_global l now) ≡ true
    → Clear (seconds l.min_seconds_between_kicks) now h
unfolding check_global check_timer
timer_open l h clock now le t e = elim (Option-cases (last_instant none h)) [
  | inl q ↦ rw (nothing_sent h q) tt
  | inr (u, q) ↦
      let last : l.last_kick_at ≡ some u = t.last ∙ q in
      let past : u ≤ now =
        last_instant-All (λ v. v ≤ now) u h
          (All-mono (λ s. instant s ≤ clock) (λ s. instant s ≤ now) (λ s p. omega arith) h t.past)
          q in
      let fine : u + seconds l.min_seconds_between_kicks ≤ now = ground arith in
      All-mono (λ s. instant s ≤ u) (λ s. instant s + seconds l.min_seconds_between_kicks ≤ now)
        (λ s p. omega arith) h (t.newest u q)
]

timer_opens :
    (l : KickRateLimiter) (h : List Sent) (clock now : ℕ)
    → Tracks l h clock
    → Clear (seconds l.min_seconds_between_kicks) now h
    → check_global l now ≡ allowed
unfolding check_global check_timer
timer_opens l h clock now t c = elim (Option-cases (last_instant none h)) [
  | inl q ↦ rw (t.last ∙ q) refl
  | inr (u, q) ↦
      let past : u + seconds l.min_seconds_between_kicks ≤ now =
        last_instant-All (λ v. v + seconds l.min_seconds_between_kicks ≤ now) u h c q in
      ground (arith, t.last ∙ q)
]

-- The global gate is open exactly when every wire call of the history lies at least the configured
-- gap in the past.
pub can_wire_call_iff :
    (l : KickRateLimiter) (h : List Sent) (clock now : ℕ)
    → clock ≤ now
    → Tracks l h clock
    → (can_wire_call l now ≡ allowed) ↔ Clear (seconds l.min_seconds_between_kicks) now h
unfolding can_wire_call
can_wire_call_iff l h clock now le t =
    (λ e. timer_open l h clock now le t (rw e), timer_opens l h clock now t)

-- The window of an access point, on the complete history.
abbrev pub window_kicks : KickRateLimiter → List Sent → String → ℕ → List ℕ
window_kicks l h ap_id now = within (seconds l.per_ap_window_seconds) now (kick_times ap_id h)

deque-eq-window :
    (l : KickRateLimiter) (h : List Sent) (clock : ℕ) (ap_id : String) (now : ℕ)
    → clock ≤ now
    → Tracks l h clock
    → prune_deque (seconds l.per_ap_window_seconds) now (kicks_of l ap_id)
      ≡ window_kicks l h ap_id now
deque-eq-window l h clock ap_id now le t =
    prune_deque-eq-within (seconds l.per_ap_window_seconds) now (kicks_of l ap_id) (t.sorted ap_id)
    ∙ t.same ap_id now le

check_deque_iff :
    (l : KickRateLimiter) (now : ℕ) (ts : List ℕ)
    → 0 < l.max_kicks_per_ap_per_window
    → (check_deque l now ts ≡ allowed) ↔ (length ts < l.max_kicks_per_ap_per_window)
unfolding check_deque
check_deque_iff l now [] on = ((λ e. on), (λ e. refl))
check_deque_iff l now (t ∷ ts) on = ground arith

after_global_iff :
    (l : KickRateLimiter) (ap_id : String) (now : ℕ) (v : Verdict)
    → ((after_global l ap_id now v).0 ≡ allowed)
      ↔ ((v ≡ allowed) × ((check_ap l ap_id now).0 ≡ allowed))
unfolding after_global
after_global_iff l ap_id now allowed = ((λ e. (refl, e)), (λ e. e.1))
after_global_iff l ap_id now (denied r x) = ((λ e. cc), (λ e. cc (e.0)))

check_ap-eq-check_deque :
    (l : KickRateLimiter) (h : List Sent) (clock : ℕ) (ap_id : String) (now : ℕ)
    → 0 < l.max_kicks_per_ap_per_window
    → clock ≤ now
    → Tracks l h clock
    → (check_ap l ap_id now).0 ≡ check_deque l now (window_kicks l h ap_id now)
unfolding check_ap
check_ap-eq-check_deque l h clock ap_id now on le t =
    rw (lt→ltb 0 l.max_kicks_per_ap_per_window on)
      (ap (check_deque l now) (deque-eq-window l h clock ap_id now le t))

-- Where a limiter with a cap tracks a history that ends by now, it allows a fresh kick exactly when
-- every wire call of the history lies at least the configured gap in the past and, of the kicks at
-- this access point, fewer than the cap lie in the window.
pub can_kick_iff :
    (l : KickRateLimiter) (h : List Sent) (clock : ℕ) (ap_id : String) (now : ℕ)
    → 0 < l.max_kicks_per_ap_per_window
    → clock ≤ now
    → Tracks l h clock
    → ((can_kick l ap_id now).0 ≡ allowed) ↔ (
        Clear (seconds l.min_seconds_between_kicks) now h
        × (length (window_kicks l h ap_id now) < l.max_kicks_per_ap_per_window))
unfolding can_kick can_wire_call
can_kick_iff l h clock ap_id now on le t =
    let gates = after_global_iff l ap_id now (check_global l now) in
    let global = can_wire_call_iff l h clock now le t in
    let cap = check_deque_iff l now (window_kicks l h ap_id now) on in
    let same = check_ap-eq-check_deque l h clock ap_id now on le t in
    (
      (λ e. let (g, c) = gates.0 e in (global.0 g, cap.0 (sym same ∙ c))),
      (λ e. gates.1 (global.1 e.0, same ∙ cap.1 e.1)),
    )

pub later-Tracks :
    (l : KickRateLimiter) (h : List Sent) (clock now : ℕ)
    → clock ≤ now
    → Tracks l h clock
    → Tracks l h now
later-Tracks l h clock now le t = record {
  last = t.last;
  past = All-mono (λ s. instant s ≤ clock) (λ s. instant s ≤ now) (λ s p. omega arith) h t.past;
  newest = t.newest;
  sorted = t.sorted;
  recent = λ j. All-mono (λ u. u ≤ clock) (λ u. u ≤ now) (λ u p. omega arith) _ (t.recent j);
  same = λ j n m. t.same j n (omega arith);
}

after_global-Tracks :
    (l : KickRateLimiter) (h : List Sent) (clock : ℕ) (ap_id : String) (now : ℕ) (v : Verdict)
    → clock ≤ now
    → Tracks l h clock
    → Tracks (after_global l ap_id now v).1 h now
unfolding after_global check_ap
after_global-Tracks l h clock ap_id now (denied r x) le t = later-Tracks l h clock now le t
after_global-Tracks l h clock ap_id now allowed le t =
    elim (Bool-cases (ltb 0 l.max_kicks_per_ap_per_window)) [
      | inl e ↦ rw e (prune-Tracks l h clock ap_id now le t)
      | inr e ↦ rw e (later-Tracks l h clock now le t)
    ]

-- What the gate keeps of the limiter: its history and its settings.
pub can_kick-Tracks :
    (l : KickRateLimiter) (h : List Sent) (clock : ℕ) (ap_id : String) (now : ℕ)
    → clock ≤ now
    → Tracks l h clock
    → Tracks (can_kick l ap_id now).1 h now
unfolding can_kick
can_kick-Tracks l h clock ap_id now le t =
    after_global-Tracks l h clock ap_id now (check_global l now) le t

-- The three settings, which only a reload changes.
pub record SameSettings (l k : KickRateLimiter) : Type 0 where
  pub gap : k.min_seconds_between_kicks ≡ l.min_seconds_between_kicks
  pub cap : k.max_kicks_per_ap_per_window ≡ l.max_kicks_per_ap_per_window
  pub window : k.per_ap_window_seconds ≡ l.per_ap_window_seconds

after_global-SameSettings :
    (l : KickRateLimiter) (ap_id : String) (now : ℕ) (v : Verdict)
    → SameSettings l (after_global l ap_id now v).1
unfolding after_global check_ap prune
after_global-SameSettings l ap_id now allowed = ground arith
after_global-SameSettings l ap_id now (denied r x) = ground arith

pub can_kick-SameSettings :
    (l : KickRateLimiter) (ap_id : String) (now : ℕ) → SameSettings l (can_kick l ap_id now).1
unfolding can_kick
can_kick-SameSettings l ap_id now = after_global-SameSettings l ap_id now (check_global l now)

pub record_kick-SameSettings :
    (l : KickRateLimiter) (ap_id : String) (now : ℕ) → SameSettings l (record_kick l ap_id now)
unfolding record_kick
record_kick-SameSettings l ap_id now = ground arith
