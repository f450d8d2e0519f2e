-- ===== src/Mac/Idempotent.antt =====
-- wifi_shepard/reboot/__init__.py: `normalize_mac` applied twice.
use Prim.Native.Char.{Char, code}
use Prim.Native.String.{String, [], ◌∷◌, char_at}
use wifi_shepard.Mac.{
  is_upper, is_space, alphabet, lower_char, lower, is_empty, strip_left, strip_right, strip,
  normalize_mac,
}
use wifi_shepard.Prelude.{
  ℕ, zero, suc, ◌-◌, ◌<◌, Bool, true, false, not, ◌&&◌, ◌||◌, ◌≡◌, refl, ap, ◌∙◌, if◌then◌else◌,
  Bool-cases, arith, ltb, inl, inr,
}

-- A test that passes at each number below a bound.
below : ℕ → (ℕ → Bool) → Bool
below zero p = true
below (suc n) p = p n && below n p

below-holds : (n : ℕ) (p : ℕ → Bool) → below n p ≡ true → (i : ℕ) → i < n → p i ≡ true
unfolding below
below-holds zero p e i bound = ground arith
below-holds (suc n) p e i bound = elim (Bool-cases (ltb i n)) [
  | inl less ↦ below-holds n p (ground arith) i (ground arith)
  | inr same ↦ ap p {x = i} {y = n} (ground arith) ∙ ground arith
]

is_letter : ℕ → Bool
unfolding is_upper is_space
is_letter i = let c = code (char_at alphabet i) in not (is_upper c || is_space c)

letters : below 26 is_letter ≡ true
unfolding below is_letter is_upper is_space
letters = refl

letter : (i : ℕ) → i < 26 → is_letter i ≡ true
letter = below-holds 26 is_letter letters

capital-code : (c : ℕ) → is_upper c ≡ true → (c - b'A' < 26) × (is_space c ≡ false)
unfolding is_upper is_space
capital-code c e = (ground arith, ground arith)

abbrev Lowered : Char → Char → Type 0
Lowered c d = (is_upper (code d) ≡ false) × (is_space (code d) ≡ is_space (code c))

capital-Lowered :
    (c : Char) → is_upper (code c) ≡ true → Lowered c (char_at alphabet (code c - b'A'))
unfolding is_letter
capital-Lowered c capital =
    let (near, visible) = capital-code (code c) capital in
    let l = letter (code c - b'A') near in (ground arith, rw visible (ground arith))

-- A lowered character is no capital, and a blank where it was one.
lower_char_lem : (c : Char) → Lowered c (lower_char c)
unfolding lower_char
lower_char_lem c = elim (Bool-cases (is_upper (code c))) [
  | inl capital ↦ rw capital (capital-Lowered c capital)
  | inr small ↦ rw small (small, refl)
]

small_char : (c : Char) → is_upper (code c) ≡ false → lower_char c ≡ c
unfolding lower_char
small_char c small = rw small

lower_char-idempotent : (c : Char) → lower_char (lower_char c) ≡ lower_char c
lower_char-idempotent c = small_char (lower_char c) ((lower_char_lem c).0)

lower-idempotent : (s : String) → lower (lower s) ≡ lower s
unfolding lower
lower-idempotent [] = refl
lower-idempotent (c ∷ s) = rw (lower_char-idempotent c, lower-idempotent s)

lower-is_empty : (s : String) → is_empty (lower s) ≡ is_empty s
unfolding lower
lower-is_empty [] = refl
lower-is_empty (c ∷ s) = refl

lower-if : (b : Bool) (s t : String) → lower (if b then s else t) ≡ (if b then lower s else lower t)
lower-if true s t = refl
lower-if false s t = refl

strip_left-lower : (s : String) → strip_left (lower s) ≡ lower (strip_left s)
unfolding lower strip_left
strip_left-lower [] = refl
strip_left-lower (c ∷ s) =
    rw (
      (lower_char_lem c).1,
      strip_left-lower s,
      lower-if (is_space (code c)) (strip_left s) (c ∷ s),
    )

strip_right-lower : (s : String) → strip_right (lower s) ≡ lower (strip_right s)
unfolding lower strip_right
strip_right-lower [] = refl
strip_right-lower (c ∷ s) = rw (
  (lower_char_lem c).1,
  strip_right-lower s,
  lower-is_empty (strip_right s),
  lower-if (is_space (code c) && is_empty (strip_right s)) [] (c ∷ strip_right s),
)

-- No blank in front.
abbrev Clear : String → Type 0
Clear [] = Unit
Clear (c ∷ s) = is_space (code c) ≡ false

strip_left-Clear : (s : String) → Clear (strip_left s)
unfolding strip_left
strip_left-Clear [] = tt
strip_left-Clear (c ∷ s) = elim (Bool-cases (is_space (code c))) [
  | inl blank ↦ rw blank (strip_left-Clear s)
  | inr clear ↦ rw clear clear
]

strip_left_same : (s : String) → Clear s → strip_left s ≡ s
unfolding strip_left
strip_left_same [] clear = refl
strip_left_same (c ∷ s) clear = rw clear

strip_right-Clear : (s : String) → Clear s → Clear (strip_right s)
unfolding strip_right
strip_right-Clear [] clear = tt
strip_right-Clear (c ∷ s) clear = rw clear clear

strip_right-idempotent : (s : String) → strip_right (strip_right s) ≡ strip_right s
unfolding strip_right
strip_right-idempotent [] = refl
strip_right-idempotent (c ∷ s) = elim (Bool-cases (is_space (code c) && is_empty (strip_right s))) [
  | inl blank ↦ rw blank
  | inr kept ↦ rw (kept, strip_right-idempotent s, kept)
]

strip-idempotent : (s : String) → strip (strip s) ≡ strip s
unfolding strip
strip-idempotent s = rw (
  strip_left_same (strip_right (strip_left s))
      (strip_right-Clear (strip_left s) (strip_left-Clear s)),
  strip_right-idempotent (strip_left s),
)

strip-lower : (s : String) → strip (lower s) ≡ lower (strip s)
unfolding strip
strip-lower s = rw (strip_left-lower s, strip_right-lower (strip_left s))

-- Normalising an address twice is normalising it once, for every text.
pub normalize_mac-idempotent : (s : String) → normalize_mac (normalize_mac s) ≡ normalize_mac s
unfolding normalize_mac
normalize_mac-idempotent s =
    rw (strip-lower (strip s), lower-idempotent (strip (strip s)), strip-idempotent s)
