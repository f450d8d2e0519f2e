-- ===== src/Prelude/Text.antt =====
-- Texts as lists of character codes, and the end of a pattern.
use Prim.Native.Nat.{ℕ, zero, suc}
use Prim.Native.Char.{code}
use Prim.Native.String.{String}
use mathlib.Core.Bool.{Bool, true, false, ◌&&◌}
use mathlib.Core.List.{List, [], ◌∷◌}
use wifi_shepard.Prelude.Tests.{leb}

abbrev pub codes : String → List ℕ
codes String.[] = []
codes (String.◌∷◌ c s) = code c ∷ codes s

abbrev pub is_code : ℕ → ℕ → Bool
is_code c d = leb c d && leb d c

-- `$` in a pattern: the end of the text, or a newline that ends it
abbrev pub at_end : List ℕ → Bool
at_end [] = true
at_end (c ∷ []) = is_code c 10
at_end (_ ∷ _ ∷ _) = false

abbrev pub is_digit : ℕ → Bool
is_digit c = leb b'0' c && leb c b'9'

-- `s == ""`
abbrev pub is_blank : String → Bool
is_blank String.[] = true
is_blank (String.◌∷◌ _ _) = false

-- `s[:n]`
abbrev pub take_text : ℕ → String → String
take_text zero s = String.[]
take_text (suc n) String.[] = String.[]
take_text (suc n) (String.◌∷◌ c s) = String.◌∷◌ c (take_text n s)
