-- ===== src/Mac.antt =====
-- wifi_shepard/reboot/__init__.py: the canonical form of a MAC address. `str.strip` and `str.lower`
-- are written out for ASCII, the characters that an address, however it is printed, consists of.
pub mod Idempotent
use Prim.Native.Char.{Char, code}
use Prim.Native.String.{String, [], ◌∷◌, char_at}
use wifi_shepard.Prelude.{ℕ, ◌-◌, Bool, true, false, ◌&&◌, ◌||◌, leb, if◌then◌else◌}

unfoldable pub is_upper : ℕ → Bool
is_upper c = leb b'A' c && leb c b'Z'

-- tab to carriage return, the four separators, and the blank
unfoldable pub is_space : ℕ → Bool
is_space c = (leb 9 c && leb c 13) || (leb 28 c && leb c 32)

abbrev pub alphabet : String
alphabet = "abcdefghijklmnopqrstuvwxyz"

unfoldable pub lower_char : Char → Char
unfolding is_upper
lower_char c = if is_upper (code c) then char_at alphabet (code c - b'A') else c

unfoldable pub lower : String → String
lower [] = []
lower (c ∷ s) = lower_char c ∷ lower s

abbrev pub is_empty : String → Bool
is_empty [] = true
is_empty (_ ∷ _) = false

unfoldable pub strip_left : String → String
strip_left [] = []
strip_left (c ∷ s) = let rest = strip_left s in if is_space (code c) then rest else c ∷ s

unfoldable pub strip_right : String → String
strip_right [] = []
strip_right (c ∷ s) =
    let rest = strip_right s in if is_space (code c) && is_empty rest then [] else c ∷ rest

unfoldable pub strip : String → String
unfolding strip_left strip_right
strip s = strip_right (strip_left s)

unfoldable pub normalize_mac : String → String
unfolding strip lower lower_char is_space
normalize_mac mac = lower (strip mac)
