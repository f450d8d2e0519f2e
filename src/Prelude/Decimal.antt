-- ===== src/Prelude/Decimal.antt =====
-- The decimal digits of Unicode 15, Python 3.12's, which `\d` of a pattern over text matches and `int` reads.
use mathlib.Core.Bool.{true, ◌&&◌}
use mathlib.Core.List.{List, [], ◌∷◌}
use mathlib.Core.Logic.{inl, inr}
use mathlib.Core.Option.{Option, none, some}
use mathlib.Core.Path.{◌≡◌, refl}
use native.Mathlib.Omega.{arith}
use Prim.Native.Nat.{ℕ, ◌+◌, ◌-◌, ◌<◌}
use wifi_shepard.Prelude.Tests.{leb, ltb, Bool-cases, if◌then◌else◌}

-- The zeros past ASCII's: each is followed by the other nine.
abbrev other_zeros : List ℕ
other_zeros =
    1632 ∷ 1776 ∷ 1984 ∷ 2406 ∷ 2534 ∷ 2662 ∷ 2790 ∷ 2918 ∷ 3046 ∷ 3174 ∷ 3302 ∷ 3430 ∷ 3558 ∷ 3664
    ∷ 3792 ∷ 3872 ∷ 4160 ∷ 4240 ∷ 6112 ∷ 6160 ∷ 6470 ∷ 6608 ∷ 6784 ∷ 6800 ∷ 6992 ∷ 7088 ∷ 7232
    ∷ 7248 ∷ 42528 ∷ 43216 ∷ 43264 ∷ 43472 ∷ 43504 ∷ 43600 ∷ 44016 ∷ 65296 ∷ 66720 ∷ 68912 ∷ 69734
    ∷ 69872 ∷ 69942 ∷ 70096 ∷ 70384 ∷ 70736 ∷ 70864 ∷ 71248 ∷ 71360 ∷ 71472 ∷ 71904 ∷ 72016 ∷ 72784
    ∷ 73040 ∷ 73120 ∷ 73552 ∷ 92768 ∷ 92864 ∷ 93008 ∷ 120782 ∷ 120792 ∷ 120802 ∷ 120812 ∷ 120822
    ∷ 123200 ∷ 123632 ∷ 124144 ∷ 125264 ∷ 130032 ∷ []

value_in : List ℕ → ℕ → Option ℕ
value_in [] c = none
value_in (z ∷ zs) c =
    let rest = value_in zs c in if leb z c && ltb c (z + 10) then some (c - z) else rest

-- What a decimal digit counts.
unfoldable pub decimal : ℕ → Option ℕ
unfolding value_in
decimal c = value_in (b'0' ∷ other_zeros) c

value_in-first :
    (z c : ℕ) (zs : List ℕ)
    → (leb z c && ltb c (z + 10)) ≡ true
    → value_in (z ∷ zs) c ≡ some (c - z)
unfolding value_in
value_in-first z c zs e = rw e refl

-- An ASCII digit.
pub decimal-ascii : (c : ℕ) → (leb b'0' c && ltb c b':') ≡ true → decimal c ≡ some (c - b'0')
unfolding decimal
decimal-ascii c e = value_in-first b'0' c other_zeros e

value_in-less : (zs : List ℕ) (c v : ℕ) → value_in zs c ≡ some v → v < 10
unfolding value_in
value_in-less [] c v e = cc
value_in-less (z ∷ zs) c v e = elim (Bool-cases (leb z c && ltb c (z + 10))) [
  | inl hit ↦ let same : c - z ≡ v = ground (arith, hit, e) in ground (arith, hit, same)
  | inr miss ↦ value_in-less zs c v (ground (arith, miss, e))
]

pub decimal-less : (c v : ℕ) → decimal c ≡ some v → v < 10
unfolding decimal
decimal-less c v e = value_in-less (b'0' ∷ other_zeros) c v e
