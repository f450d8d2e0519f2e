-- ===== src/Window.antt =====
-- Trailing windows of instants. The deques of rate_limit.py, reboot/cooldown.py and dns_thrash.py are
-- pruned at their head; backoff.py filters a list. On sorted instants the two agree.
use wifi_shepard.Prelude.{
  ℕ, ◌+◌, ◌≤◌, ◌≡◌, refl, sym, ◌∙◌, ap, inl, inr, List, [], ◌∷◌, ◌++◌, ltb, leb, if◌then◌else◌,
  length, filter, All, arith, Bool-cases, le→leb,
}

-- `while deq and deq[0] < cutoff: deq.popleft()`, with `cutoff = now - window`
unfoldable pub prune_deque : ℕ → ℕ → List ℕ → List ℕ
prune_deque window now [] = []
prune_deque window now (t ∷ ts) =
    let rest = prune_deque window now ts in if ltb (t + window) now then rest else t ∷ ts

-- `[t for t in ts if t >= now - window]`
unfoldable pub within : ℕ → ℕ → List ℕ → List ℕ
within window now = filter (λ t. leb now (t + window))

abbrev pub Sorted : List ℕ → Type 0
Sorted [] = Unit
Sorted (t ∷ ts) = All (λ u. t ≤ u) ts × Sorted ts

pub All-mono {ℓ κ} :
    {A : Type ℓ} (P Q : A → Type κ) → ((x : A) → P x → Q x) → (xs : List A) → All P xs → All Q xs
All-mono P Q f [] h = tt
All-mono P Q f (x ∷ xs) h = (f x h.0, All-mono P Q f xs h.1)

pub All-append {ℓ κ} :
    {A : Type ℓ} (P : A → Type κ) (xs : List A) (x : A) → All P xs → P x → All P (xs ++ x ∷ [])
All-append P [] x h p = (p, tt)
All-append P (y ∷ ys) x h p = (h.0, All-append P ys x h.1 p)

pub Sorted-append : (ts : List ℕ) (t : ℕ) → Sorted ts → All (λ u. u ≤ t) ts → Sorted (ts ++ t ∷ [])
Sorted-append [] t h le = (tt, tt)
Sorted-append (u ∷ us) t h le = (All-append (λ v. u ≤ v) us t h.0 le.0, Sorted-append us t h.1 le.1)

pub within-All :
    (window now : ℕ) (ts : List ℕ) → All (λ t. now ≤ t + window) ts → within window now ts ≡ ts
unfolding within
within-All window now [] h = refl
within-All window now (t ∷ ts) h =
    rw (le→leb now (t + window) h.0) (ap (◌∷◌ t) (within-All window now ts h.1))

-- On sorted instants pruning at the head leaves exactly what lies in the window.
pub prune_deque-eq-within :
    (window now : ℕ) (ts : List ℕ) → Sorted ts → prune_deque window now ts ≡ within window now ts
unfolding prune_deque
prune_deque-eq-within window now [] h = unfold within in refl
prune_deque-eq-within window now (t ∷ ts) h = elim (Bool-cases (ltb (t + window) now)) [
  | inl old ↦ rw old (prune_deque-eq-within window now ts h.1 ∙ unfold within in ground arith)
  | inr new ↦ rw new (
      sym (
        within-All window now (t ∷ ts) (
          ground arith,
          All-mono (λ u. t ≤ u) (λ u. now ≤ u + window) (λ u le. ground arith) ts h.0,
        )))
]

pub within-append :
    (window now : ℕ) (ts us : List ℕ)
    → within window now (ts ++ us) ≡ within window now ts ++ within window now us
unfolding within
within-append window now [] us = refl
within-append window now (t ∷ ts) us = ground (arith, within-append window now ts us)

-- A later window holds no instant that an earlier one has dropped.
pub within-within :
    (window early late : ℕ) (ts : List ℕ)
    → early ≤ late
    → within window late (within window early ts) ≡ within window late ts
unfolding within
within-within window early late [] h = refl
within-within window early late (t ∷ ts) h = ground (arith, within-within window early late ts h)

pub length-within_mono :
    (window early late : ℕ) (ts : List ℕ)
    → early ≤ late
    → length (within window late ts) ≤ length (within window early ts)
unfolding within
length-within_mono window early late [] h = omega arith
length-within_mono window early late (t ∷ ts) h =
    ground (arith, length-within_mono window early late ts h)

pub prune_deque-All {ℓ} :
    (P : ℕ → Type ℓ) (window now : ℕ) (ts : List ℕ) → All P ts → All P (prune_deque window now ts)
unfolding prune_deque
prune_deque-All P window now [] h = tt
prune_deque-All P window now (t ∷ ts) h = elim (Bool-cases (ltb (t + window) now)) [
  | inl old ↦ rw old (prune_deque-All P window now ts h.1)
  | inr new ↦ rw new h
]

pub prune_deque-Sorted :
    (window now : ℕ) (ts : List ℕ) → Sorted ts → Sorted (prune_deque window now ts)
unfolding prune_deque
prune_deque-Sorted window now [] h = tt
prune_deque-Sorted window now (t ∷ ts) h = elim (Bool-cases (ltb (t + window) now)) [
  | inl old ↦ rw old (prune_deque-Sorted window now ts h.1)
  | inr new ↦ rw new h
]
