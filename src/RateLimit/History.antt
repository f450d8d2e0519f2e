-- ===== src/RateLimit/History.antt =====
-- The limiter beside the complete history of what it let through: its timer is the history's last
-- instant, and its pruned deques decide as the whole history would.
use mathlib.Core.List.{append-nil}
use wifi_shepard.Prelude.{
  ℕ, ◌≤◌, ◌<◌, String, ◌≡◌, refl, sym, ap, ◌∙◌, true, false, Option, none, some, List, [], ◌∷◌,
  ◌++◌, arith, ◌==◌, eq_iff, if◌then◌else◌, All, seconds, lt→ltb, if_intro,
}
use wifi_shepard.Dict.{get_or-put}
use wifi_shepard.RateLimit.{
  KickRateLimiter, Sent, kicked, wired, kicks_of, prune, record_kick, record_wire_call,
}
use wifi_shepard.Window.{
  prune_deque, within, Sorted, All-mono, All-append, Sorted-append, prune_deque-All,
  prune_deque-Sorted, prune_deque-eq-within, within-append, within-within,
}

abbrev pub instant : Sent → ℕ
instant (kicked _ t) = t
instant (wired t) = t

-- The instants of the fresh kicks at an access point, in order.
unfoldable pub kick_times : String → List Sent → List ℕ
kick_times ap_id [] = []
kick_times ap_id (kicked a t ∷ h) =
    let rest = kick_times ap_id h in if a == ap_id then t ∷ rest else rest
kick_times ap_id (wired _ ∷ h) = kick_times ap_id h

unfoldable pub last_instant : Option ℕ → List Sent → Option ℕ
last_instant last [] = last
last_instant last (s ∷ h) = last_instant (some (instant s)) h

pub kick_times-append :
    (ap_id : String) (h : List Sent) (s : Sent)
    → kick_times ap_id (h ++ s ∷ []) ≡ kick_times ap_id h ++ kick_times ap_id (s ∷ [])
unfolding kick_times
kick_times-append ap_id [] s = refl
kick_times-append ap_id (kicked a t ∷ h) s = ground (arith, kick_times-append ap_id h s)
kick_times-append ap_id (wired t ∷ h) s = kick_times-append ap_id h s

last_instant-append :
    (last : Option ℕ) (h : List Sent) (s : Sent)
    → last_instant last (h ++ s ∷ []) ≡ some (instant s)
unfolding last_instant
last_instant-append last [] s = refl
last_instant-append last (u ∷ h) s = last_instant-append (some (instant u)) h s

-- What the limiter holds of a history that ended by `clock`.
pub record Tracks (l : KickRateLimiter) (h : List Sent) (clock : ℕ) : Type 0 where
  pub last : l.last_kick_at ≡ last_instant none h
  pub past : All (λ s. instant s ≤ clock) h
  pub newest : (t : ℕ) → last_instant none h ≡ some t → All (λ s. instant s ≤ t) h
  pub sorted : (ap_id : String) → Sorted (kicks_of l ap_id)
  pub recent : (ap_id : String) → All (λ t. t ≤ clock) (kicks_of l ap_id)
  pub same :
      (ap_id : String) (now : ℕ)
      → clock ≤ now
      → within (seconds l.per_ap_window_seconds) now (kicks_of l ap_id)
        ≡ within (seconds l.per_ap_window_seconds) now (kick_times ap_id h)

pub kicks_of-prune :
    (l : KickRateLimiter) (ap_id j : String) (now : ℕ)
    → kicks_of (prune l ap_id now) j ≡ (
        if ap_id == j
        then prune_deque (seconds l.per_ap_window_seconds) now (kicks_of l ap_id)
        else kicks_of l j)
unfolding prune
kicks_of-prune l ap_id j now = rw get_or-put refl

pub kicks_of-record_kick :
    (l : KickRateLimiter) (ap_id j : String) (now : ℕ)
    → 0 < l.max_kicks_per_ap_per_window
    → kicks_of (record_kick l ap_id now) j
      ≡ (if ap_id == j then kicks_of l ap_id ++ now ∷ [] else kicks_of l j)
unfolding record_kick
kicks_of-record_kick l ap_id j now h =
    rw (lt→ltb 0 l.max_kicks_per_ap_per_window h) (rw get_or-put refl)

pub prune-Tracks :
    (l : KickRateLimiter) (h : List Sent) (clock : ℕ) (ap_id : String) (now : ℕ)
    → clock ≤ now
    → Tracks l h clock
    → Tracks (prune l ap_id now) h now
prune-Tracks l h clock ap_id now le t = record {
  last = unfold prune in t.last;
  past = All-mono (λ s. instant s ≤ clock) (λ s. instant s ≤ now) (λ s p. omega arith) h t.past;
  newest = t.newest;
  sorted = λ j. rw kicks_of-prune (
      if_intro Sorted (ap_id == j) _ _
        (λ _. prune_deque-Sorted _ now (kicks_of l ap_id) (t.sorted ap_id)) (λ _. t.sorted j));
  recent = λ j. rw kicks_of-prune (
      if_intro (All (λ u. u ≤ now)) (ap_id == j) _ _
        (λ _. prune_deque-All (λ u. u ≤ now) _ now (kicks_of l ap_id) (later ap_id))
        (λ _. later j));
  same = λ j now' le'.
      unfold prune in
      rw kicks_of-prune (
        if_intro
          (λ ts.
            within (seconds l.per_ap_window_seconds) now' ts
            ≡ within (seconds l.per_ap_window_seconds) now' (kick_times j h))
          (ap_id == j) _ _
          (λ e.
            rw
              (prune_deque-eq-within (seconds l.per_ap_window_seconds) now (kicks_of l ap_id)
                (t.sorted ap_id))
              (within-within (seconds l.per_ap_window_seconds) now now' (kicks_of l ap_id) le'
                ∙ rw ((eq_iff ap_id j).0 e) (t.same j now' (omega arith))))
          (λ _. t.same j now' (omega arith)));
}
  where
    later : (j : String) → All (λ u. u ≤ now) (kicks_of l j)
    later j = All-mono (λ u. u ≤ clock) (λ u. u ≤ now) (λ u p. omega arith) _ (t.recent j)

past-append :
    (l : KickRateLimiter) (h : List Sent) (clock now : ℕ) (s : Sent)
    → clock ≤ now
    → instant s ≤ now
    → Tracks l h clock
    → All (λ u. instant u ≤ now) (h ++ s ∷ [])
past-append l h clock now s le here t =
    All-append (λ u. instant u ≤ now) h s
      (All-mono (λ u. instant u ≤ clock) (λ u. instant u ≤ now) (λ u p. omega arith) h t.past) here

newest-append :
    (l : KickRateLimiter) (h : List Sent) (clock now : ℕ) (s : Sent)
    → clock ≤ now
    → instant s ≡ now
    → Tracks l h clock
    → (u : ℕ) → last_instant none (h ++ s ∷ []) ≡ some u
    → All (λ v. instant v ≤ u) (h ++ s ∷ [])
newest-append l h clock now s le here t u e =
    let now-eq : now ≡ u = ground (arith, last_instant-append none h s) in
    rw (← now-eq) (past-append l h clock now s le (omega arith) t)

window-record_kick :
    (l : KickRateLimiter) (ap_id : String) (now : ℕ)
    → (record_kick l ap_id now).per_ap_window_seconds ≡ l.per_ap_window_seconds
unfolding record_kick
window-record_kick l ap_id now = ground arith

pub kick_times_self :
    (a j : String) (t : ℕ) → (a == j) ≡ true → kick_times j (kicked a t ∷ []) ≡ t ∷ []
unfolding kick_times
kick_times_self a j t e = ground arith

pub kick_times_other :
    (a j : String) (t : ℕ) → (a == j) ≡ false → kick_times j (kicked a t ∷ []) ≡ []
unfolding kick_times
kick_times_other a j t e = ground arith

same-append :
    (W now : ℕ) (ts us vs : List ℕ)
    → within W now ts ≡ within W now us
    → within W now (ts ++ vs) ≡ within W now (us ++ vs)
same-append W now ts us vs e =
    within-append W now ts vs ∙ ap (λ r. r ++ within W now vs) e ∙ sym (within-append W now us vs)

pub record_kick-Tracks :
    (l : KickRateLimiter) (h : List Sent) (clock : ℕ) (ap_id : String) (now : ℕ)
    → 0 < l.max_kicks_per_ap_per_window
    → clock ≤ now
    → Tracks l h clock
    → Tracks (record_kick l ap_id now) (h ++ kicked ap_id now ∷ []) now
record_kick-Tracks l h clock ap_id now on le t = record {
  last =
      rw last_instant-append
        (unfold record_kick in rw (lt→ltb 0 l.max_kicks_per_ap_per_window on) refl);
  past = past-append l h clock now (kicked ap_id now) le (omega arith) t;
  newest = newest-append l h clock now (kicked ap_id now) le refl t;
  sorted = λ j.
      rw (kicks_of-record_kick, on)
        (if_intro Sorted (ap_id == j) _ _
          (λ _. Sorted-append (kicks_of l ap_id) now (t.sorted ap_id) (later ap_id))
          (λ _. t.sorted j));
  recent = λ j.
      rw (kicks_of-record_kick, on)
        (if_intro (All (λ u. u ≤ now)) (ap_id == j) _ _
          (λ _. All-append (λ u. u ≤ now) (kicks_of l ap_id) now (later ap_id) (omega arith))
          (λ _. later j));
  same = λ j now' le'.
      rw (window-record_kick, kicks_of-record_kick, on, kick_times-append)
        (if_intro
          (λ ts.
            within W now' ts
            ≡ within W now' (kick_times j h ++ kick_times j (kicked ap_id now ∷ [])))
          (ap_id == j) _ _
          (λ e. rw (kick_times_self ap_id j now e) (
            same-append W now' (kicks_of l ap_id) (kick_times j h) (now ∷ [])
              (rw ((eq_iff ap_id j).0 e) (t.same j now' (omega arith)))))
          (λ e. rw (kick_times_other ap_id j now e, append-nil) (t.same j now' (omega arith))));
}
  where
    W : ℕ
    W = seconds l.per_ap_window_seconds

    later : (j : String) → All (λ u. u ≤ now) (kicks_of l j)
    later j = All-mono (λ u. u ≤ clock) (λ u. u ≤ now) (λ u p. omega arith) _ (t.recent j)

pub record_wire_call-Tracks :
    (l : KickRateLimiter) (h : List Sent) (clock now : ℕ)
    → clock ≤ now
    → Tracks l h clock
    → Tracks (record_wire_call l now) (h ++ wired now ∷ []) now
record_wire_call-Tracks l h clock now le t = record {
  last = rw last_instant-append (unfold record_wire_call in refl);
  past = past-append l h clock now (wired now) le (omega arith) t;
  newest = newest-append l h clock now (wired now) le refl t;
  sorted = λ j. unfold record_wire_call in t.sorted j;
  recent = λ j.
      unfold record_wire_call in
      All-mono (λ u. u ≤ clock) (λ u. u ≤ now) (λ u p. omega arith) _ (t.recent j);
  same = λ j now' le'.
      unfold record_wire_call kick_times in
      rw (kick_times-append, append-nil) (t.same j now' (omega arith));
}
