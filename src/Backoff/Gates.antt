-- ===== src/Backoff/Gates.antt =====
-- What `evaluate_backoff` permits, said without its order of tests.
use wifi_shepard.Prelude.{
  ℕ, zero, suc, ◌+◌, ◌-◌, ◌≤◌, ◌<◌, String, ◌≡◌, refl, sym, ap, ◌∙◌, subst, List, [], ◌∷◌, arith,
  length, All, seconds, inl, inr, ◌⊎◌, ◌↔◌, ltb, if◌then◌else◌,
}
use Prim.Native.Nat.{min, max}
use wifi_shepard.Backoff.{
  evaluate_backoff, cap_gate, check_cap, cooldown_gate, check_run, rung, maximum,
}
use wifi_shepard.Verdict.{Verdict, allowed, denied, and_then}
use wifi_shepard.Window.{within}

-- The instants that lie no further back than the window.
abbrev pub recently : ℕ → ℕ → List ℕ → List ℕ
recently window now [] = []
recently window now (t ∷ ts) =
    let rest = recently window now ts in if ltb (t + window) now then rest else t ∷ rest

-- Fewer kicks in the window than the cap, or no cap.
abbrev pub Uncapped : ℕ → ℕ → ℕ → List ℕ → Type 0
Uncapped window cap now recent = (cap ≡ 0) ⊎ (length (recently window now recent) < cap)

abbrev pub longest : List ℕ → ℕ
longest [] = 0
longest (c ∷ cs) = max c (longest cs)

-- The entry of an index.
abbrev pub nth : ℕ → List ℕ → ℕ
nth k [] = 0
nth zero (c ∷ cs) = c
nth (suc k) (c ∷ cs) = nth k cs

-- After a run of n kicks the n-th step of the ladder, or its last, has passed since each of them.
abbrev pub Waited : List ℕ → ℕ → List ℕ → Type 0
Waited ladder now run =
    All (λ u. u + seconds (nth (min (length run - 1) (length ladder - 1)) ladder) ≤ now) run

-- The run is what lies within the longest cooldown; no ladder, no wait.
abbrev pub Cooled : List ℕ → ℕ → List ℕ → Type 0
Cooled [] now recent = Unit
Cooled (c ∷ cs) now recent = Waited (c ∷ cs) now (recently (seconds (longest (c ∷ cs))) now recent)

pub within-recently : (window now : ℕ) (ts : List ℕ) → within window now ts ≡ recently window now ts
unfolding within
within-recently window now [] = refl
within-recently window now (t ∷ ts) = ground (arith, within-recently window now ts)

pub maximum-longest : (c : ℕ) (cs : List ℕ) → maximum c cs ≡ longest (c ∷ cs)
unfolding maximum
maximum-longest c [] = omega arith
maximum-longest c (d ∷ ds) = maximum-longest (max c d) ds ∙ omega arith

rung-nth : (n : ℕ) (cs : List ℕ) (c : ℕ) → rung n cs c ≡ nth (min n (length cs)) (c ∷ cs)
unfolding rung
rung-nth n [] c = let e : min n 0 ≡ 0 = omega arith in rw e refl
rung-nth zero (d ∷ ds) c = let e : min 0 (length (d ∷ ds)) ≡ 0 = omega arith in rw e refl
rung-nth (suc n) (d ∷ ds) c =
    let e : min (suc n) (length (d ∷ ds)) ≡ suc (min n (length ds)) = omega arith in
    rw e (rung-nth n ds d)

maximum-All : (r now t : ℕ) (ts : List ℕ) → maximum t ts + r ≤ now → All (λ u. u + r ≤ now) (t ∷ ts)
unfolding maximum
maximum-All r now t [] h = (h, tt)
maximum-All r now t (u ∷ us) h =
    let rest = maximum-All r now (max t u) us h in
    (omega (arith, rest.0), (omega (arith, rest.0), rest.1))

All-maximum : (r now t : ℕ) (ts : List ℕ) → All (λ u. u + r ≤ now) (t ∷ ts) → maximum t ts + r ≤ now
unfolding maximum
All-maximum r now t [] h = h.0
All-maximum r now t (u ∷ us) h = All-maximum r now (max t u) us (omega (arith, h.0, h.1.0), h.1.1)

and_then-allowed : (v w : Verdict) → and_then v w ≡ allowed → (v ≡ allowed) × (w ≡ allowed)
and_then-allowed allowed w e = (refl, e)
and_then-allowed (denied r x) w e = cc

check_cap_iff :
    (reason : String) (window cap now : ℕ) (ts : List ℕ)
    → 0 < cap
    → (check_cap reason window cap now ts ≡ allowed) ↔ (length ts < cap)
check_cap_iff reason window cap now [] pos = (λ e. pos, λ h. refl)
check_cap_iff reason window cap now (t ∷ ts) pos = (λ e. ground arith, λ h. ground arith)

cap_gate_iff :
    (reason : String) (window cap now : ℕ) (recent : List ℕ)
    → (cap_gate reason window cap now recent ≡ allowed) ↔ Uncapped window cap now recent
unfolding cap_gate
cap_gate_iff reason window zero now recent = (λ e. inl refl, λ h. refl)
cap_gate_iff reason window (suc n) now recent = rw (← within-recently window now recent) (
    let both = check_cap_iff reason window (suc n) now (within window now recent) (omega arith) in
    (
      λ e. inr (both.0 (ground arith)),
      λ h. ground (arith, both.1 (elim h [ inl e ↦ omega (arith, e) | inr le ↦ le ])),
    ))

rung_lem :
    (t c : ℕ) (ts cs : List ℕ)
    → nth (min (length (t ∷ ts) - 1) (length (c ∷ cs) - 1)) (c ∷ cs) ≡ rung (length ts) cs c
rung_lem t c ts cs =
    let e : length (t ∷ ts) - 1 ≡ length ts = omega arith in
    let e' : length (c ∷ cs) - 1 ≡ length cs = omega arith in
    ap (λ k. nth (min k (length (c ∷ cs) - 1)) (c ∷ cs)) e
    ∙ ap (λ k. nth (min (length ts) k) (c ∷ cs)) e'
    ∙ sym (rung-nth (length ts) cs c)

check_run_iff :
    (c : ℕ) (cs : List ℕ) (now : ℕ) (ts : List ℕ)
    → (check_run c cs now ts ≡ allowed) ↔ Waited (c ∷ cs) now ts
check_run_iff c cs now [] = (λ e. tt, λ h. refl)
check_run_iff c cs now (t ∷ ts) =
    subst (λ r. (check_run c cs now (t ∷ ts) ≡ allowed) ↔ All (λ u. u + seconds r ≤ now) (t ∷ ts))
      (sym (rung_lem t c ts cs))
      (
        λ e. maximum-All (seconds (rung (length ts) cs c)) now t ts (ground arith),
        λ h.
            let le = All-maximum (seconds (rung (length ts) cs c)) now t ts h in ground (arith, le),
      )

cooldown_gate_iff :
    (cooldowns : List ℕ) (now : ℕ) (recent : List ℕ)
    → (cooldown_gate cooldowns now recent ≡ allowed) ↔ Cooled cooldowns now recent
unfolding cooldown_gate
cooldown_gate_iff [] now recent = (λ e. tt, λ h. refl)
cooldown_gate_iff (c ∷ cs) now recent =
    rw (maximum-longest c cs, within-recently (seconds (longest (c ∷ cs))) now recent)
      (check_run_iff c cs now (recently (seconds (longest (c ∷ cs))) now recent))

-- A kick is permitted exactly when fewer kicks than the daily cap lie in the last 86400 seconds, fewer
-- than the hourly cap in the last 3600, and each kick within the longest cooldown lies as far back
-- as the ladder's entry for their number, or its last entry; a cap of 0 and an empty ladder permit
-- all.
pub evaluate_backoff_iff :
    (recent cooldowns : List ℕ) (now max_per_hour max_per_day : ℕ)
    → (evaluate_backoff recent now cooldowns max_per_hour max_per_day ≡ allowed) ↔ (
        Uncapped (seconds 86400) max_per_day now recent
        × Uncapped (seconds 3600) max_per_hour now recent
        × Cooled cooldowns now recent)
unfolding evaluate_backoff
evaluate_backoff_iff recent cooldowns now hour day =
    let d = cap_gate_iff "per_mac_daily_cap" (seconds 86400) day now recent in
    let h = cap_gate_iff "per_mac_hourly_cap" (seconds 3600) hour now recent in
    let c = cooldown_gate_iff cooldowns now recent in
    (
      λ e.
          let p = and_then-allowed _ _ e in
          let q = and_then-allowed _ _ p.1 in (d.0 p.0, h.0 q.0, c.0 q.1),
      λ s. rw (d.1 s.0, h.1 s.1, c.1 s.2) refl,
    )
