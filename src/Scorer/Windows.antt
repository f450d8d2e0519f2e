-- ===== src/Scorer/Windows.antt =====
-- wifi_shepard/scorer.py: the windows of a scorer after a run of samples.
use mathlib.Core.List.{append-nil, append_assoc}
use wifi_shepard.Prelude.{
  ℕ, zero, suc, ◌+◌, ◌-◌, ◌≤◌, String, Bool, true, false, not, ◌&&◌, ◌==◌, List, [], ◌∷◌, ◌++◌, ◌≡◌,
  refl, sym, ap, ◌∙◌, arith, length, drop, push_bounded, length-append, length-drop, contains,
  if◌then◌else◌, Bool-cases, inl, inr, Result, ok, raise, eq_iff,
}
use wifi_shepard.Config.{Config}
use wifi_shepard.Controller.{ClientSnapshot}
use wifi_shepard.Dict.{get_or-put, get_or-empty}
use wifi_shepard.Mac.{normalize_mac}
use wifi_shepard.Resolution.{Thresholds, resolve_thresholds}
use wifi_shepard.Scorer.{Scorer, new, window, effective, judge, ingest, append_sample}

module _ {ℓ} {A : Type ℓ} where
  -- The last `n` elements.
  abbrev pub latest : ℕ → List A → List A
  latest n xs = drop (length xs - n) xs

  drop-nil : (n : ℕ) → drop {A = A} n [] ≡ []
  drop-nil zero = refl
  drop-nil (suc n) = refl

  length-latest : (n : ℕ) (xs : List A) → length (latest n xs) ≤ n
  length-latest n xs = omega (arith, length-drop (length xs - n) xs)

  drop-append : (k : ℕ) (xs ys : List A) → k ≤ length xs → drop k xs ++ ys ≡ drop k (xs ++ ys)
  drop-append zero xs ys le = refl
  drop-append (suc k) [] ys le = ground arith
  drop-append (suc k) (x ∷ xs) ys le = drop-append k xs ys (ground arith)

  drop-drop : (a b : ℕ) (xs : List A) → drop a (drop b xs) ≡ drop (b + a) xs
  drop-drop a zero xs = ap (λ m. drop m xs) {x = a} {y = 0 + a} (omega arith)
  drop-drop zero (suc b) [] = ap (λ m. drop m []) {x = suc b} {y = suc b + 0} (omega arith)
  drop-drop (suc a) (suc b) [] =
      ap (λ m. drop m []) {x = suc (suc (b + a))} {y = suc b + suc a} (omega arith)
  drop-drop a (suc b) (x ∷ xs) =
      drop-drop a b xs ∙ ap (λ m. drop m (x ∷ xs)) {x = suc (b + a)} {y = suc b + a} (omega arith)

  push_bounded-latest :
      (n : ℕ) (xs : List A) (x : A) → push_bounded n (latest n xs) x ≡ latest n (xs ++ x ∷ [])
  push_bounded-latest n xs x =
      let k = length xs - n in
      let a = suc (length (latest n xs)) - n in
      ap (drop a) (drop-append k xs (x ∷ []) (omega arith))
      ∙ drop-drop a k (xs ++ x ∷ [])
      ∙ ap (λ m. drop m (xs ++ x ∷ [])) (omega (arith, length-drop k xs, length-append xs (x ∷ [])))

abbrev is_ok {ℓ} : {A : Type ℓ} → Result A → Bool
is_ok (ok _) = true
is_ok (raise _) = false

config-judge :
    (s : Scorer) (client : ClientSnapshot) (m : Result Thresholds)
    → ((judge s client m).1).config ≡ s.config
unfolding judge append_sample
config-judge s client (raise e) = refl
config-judge s client (ok t) = refl

window-judge :
    (s : Scorer) (client : ClientSnapshot) (m : Result Thresholds) (mac : String)
    → window ((judge s client m).1) mac ≡ (
        if is_ok m && client.mac == mac
        then push_bounded s.config.scanner.window_samples (window s mac) client
        else window s mac)
unfolding judge append_sample
window-judge s client (raise e) mac = refl
window-judge s client (ok t) mac =
    get_or-put s.windows client.mac mac
      (push_bounded s.config.scanner.window_samples (window s client.mac) client) []
    ∙ (elim (Bool-cases (client.mac == mac)) [
      | inl e ↦ rw e (
          ap (λ m. push_bounded s.config.scanner.window_samples (window s m) client)
            ((eq_iff client.mac mac).0 e))
      | inr e ↦ rw e
    ])

module _ (local_time : String → ℕ → Result ℕ) where
  -- Whether a sample gets as far as the window: its client is not on the allowlist, and the
  -- thresholds in force are computed.
  unfoldable pub is_taken : Config → ℕ → ClientSnapshot → Bool
  is_taken config now client =
      not (contains (normalize_mac client.mac) config.allowlist)
      && is_ok (effective local_time now config.quiet_hours (resolve_thresholds client.mac config))

  -- The samples of a client that get as far, in order.
  unfoldable pub taken : Config → String → List (ℕ × ClientSnapshot) → List ClientSnapshot
  unfolding is_taken
  taken config mac [] = []
  taken config mac ((now, client) ∷ rest) =
      let later = taken config mac rest in
      if is_taken config now client && client.mac == mac then client ∷ later else later

  -- The samples of many cycles, one after the other.
  unfoldable pub run : Scorer → List (ℕ × ClientSnapshot) → Scorer
  run s [] = s
  run s ((now, client) ∷ rest) = run ((ingest local_time now s client).1) rest

  config-ingest :
      (s : Scorer) (now : ℕ) (client : ClientSnapshot)
      → ((ingest local_time now s client).1).config ≡ s.config
  unfolding ingest judge append_sample
  config-ingest s now client =
      elim (Bool-cases (contains (normalize_mac client.mac) s.config.allowlist)) [
        | inl e ↦ rw e refl
        | inr e ↦ rw e (config-judge s client _)
      ]

  window-ingest :
      (s : Scorer) (now : ℕ) (client : ClientSnapshot) (mac : String)
      → window ((ingest local_time now s client).1) mac ≡ (
          if is_taken s.config now client && client.mac == mac
          then push_bounded s.config.scanner.window_samples (window s mac) client
          else window s mac)
  unfolding ingest is_taken
  window-ingest s now client mac =
      elim (Bool-cases (contains (normalize_mac client.mac) s.config.allowlist)) [
        | inl e ↦ rw e refl
        | inr e ↦ rw e (
            window-judge s client
              (effective local_time now s.config.quiet_hours
                (resolve_thresholds client.mac s.config))
              mac)
      ]

  taken_step :
      (s : Scorer) (now : ℕ) (client : ClientSnapshot) (mac : String) (config : Config)
      (before : List ClientSnapshot)
      → s.config ≡ config
      → window s mac ≡ latest config.scanner.window_samples before
      → (is_taken config now client && client.mac == mac) ≡ true
      → window ((ingest local_time now s client).1) mac
        ≡ latest config.scanner.window_samples (before ++ client ∷ [])
  taken_step s now client mac config before same e hit =
      window-ingest s now client mac
      ∙ rw (same, hit, e) (push_bounded-latest config.scanner.window_samples before client)

  passed_step :
      (s : Scorer) (now : ℕ) (client : ClientSnapshot) (mac : String) (config : Config)
      (before : List ClientSnapshot)
      → s.config ≡ config
      → window s mac ≡ latest config.scanner.window_samples before
      → (is_taken config now client && client.mac == mac) ≡ false
      → window ((ingest local_time now s client).1) mac
        ≡ latest config.scanner.window_samples before
  passed_step s now client mac config before same e miss =
      window-ingest s now client mac ∙ rw (same, miss) e

  window-run_onto :
      (xs : List (ℕ × ClientSnapshot)) (config : Config) (s : Scorer) (mac : String)
      (before : List ClientSnapshot)
      → s.config ≡ config
      → window s mac ≡ latest config.scanner.window_samples before
      → window (run s xs) mac ≡ latest config.scanner.window_samples (before ++ taken config mac xs)
  unfolding run taken
  window-run_onto [] config s mac before same e =
      e ∙ ap (latest config.scanner.window_samples) (sym (append-nil before))
  window-run_onto ((now, client) ∷ rest) config s mac before same e =
      let s' = (ingest local_time now s client).1 in
      let same' = config-ingest s now client ∙ same in
      let n = config.scanner.window_samples in
      elim (Bool-cases (is_taken config now client && client.mac == mac)) [
        | inl hit ↦
            rw (hit, ← append_assoc before (client ∷ []) (taken config mac rest))
              (window-run_onto rest config s' mac (before ++ client ∷ []) same'
                (taken_step s now client mac config before same e hit))
        | inr miss ↦ rw miss (
            window-run_onto rest config s' mac before same'
              (passed_step s now client mac config before same e miss))
      ]

  -- After any run of samples from a new scorer, the window of each MAC is the latest `window_samples` of
  -- that MAC's samples, in order, of those that are not on the allowlist and whose thresholds are
  -- computed; other clients' samples do not count. So a window never exceeds its bound.
  pub window-run :
      (config : Config) (xs : List (ℕ × ClientSnapshot)) (mac : String)
      → (window (run (new config) xs) mac
          ≡ latest config.scanner.window_samples (taken config mac xs))
        × (length (window (run (new config) xs) mac) ≤ config.scanner.window_samples)
  window-run config xs mac =
      let samples = taken config mac xs in
      let n = config.scanner.window_samples in
      let start = get_or-empty mac [] ∙ sym (drop-nil (0 - n)) in
      let spec = window-run_onto xs config (new config) mac [] refl start in
      (spec, rw spec (length-latest n samples))
