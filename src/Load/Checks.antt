-- ===== src/Load/Checks.antt =====
-- wifi_shepard/config.py, lines 50 to 180: the checks that the blocks of the configuration share. An
-- exception carries no message.
use Prim.Native.Nat.{zero, suc}
use wifi_shepard.Load.Yaml.{
  Value, Fields, null, bool, int, float, text, seq, mapping, find, list_of,
}
use wifi_shepard.Mac.{normalize_mac}
use wifi_shepard.Prelude.{
  ℕ, ◌+◌, ◌*◌, ◌-◌, String, Bool, true, false, ◌&&◌, ◌||◌, Option, none, some, List, [], ◌∷◌, leb,
  if◌then◌else◌, ℤ, pos, sub_ℕ, Result, ◌>>=◌, ok, raise, value_error, type_error, codes, is_code,
  at_end, is_digit, is_blank, contains,
}

unfoldable pub is_hex : ℕ → Bool
is_hex c = is_digit c || (leb b'A' c && leb c b'F') || (leb b'a' c && leb c b'f')

-- `_MAC_PATTERN`: groups of two digits with a colon behind, and a last group.
unfoldable pub mac_shape : ℕ → List ℕ → Bool
mac_shape zero (a ∷ b ∷ rest) = is_hex a && is_hex b && at_end rest
mac_shape (suc n) (a ∷ b ∷ c ∷ rest) = is_hex a && is_hex b && is_code c b':' && mac_shape n rest
mac_shape _ _ = false

unfoldable pub is_mac : String → Bool
is_mac s = mac_shape 5 (codes s)

unfoldable pub is_valid_mac : Value → Bool
is_valid_mac (text s) = is_mac s
is_valid_mac _ = false

unfoldable pub require_non_negative_int : Value → Result ℕ
require_non_negative_int (int (pos n)) = ok n
require_non_negative_int _ = raise value_error

optional_int : ℤ → Option Value → Result (Option ℤ)
optional_int default none = ok (some default)
optional_int default (some null) = ok none
optional_int default (some (int i)) = ok (some i)
optional_int default (some _) = raise value_error

unfoldable pub optional_int_field : Fields → String → ℤ → Result (Option ℤ)
unfolding optional_int
optional_int_field fs key default = optional_int default (find fs key)

unfoldable pub require_bool : Value → Result Bool
require_bool (bool b) = ok b
require_bool _ = raise value_error

unfoldable pub require_mac : Value → Result String
require_mac (text s) =
    if is_valid_mac (text (normalize_mac s)) then ok (normalize_mac s) else raise value_error
require_mac _ = raise value_error

unfoldable pub require_sequence : Value → Result (List Value)
require_sequence null = ok []
require_sequence (seq xs) = ok (list_of xs)
require_sequence _ = raise value_error

abbrev pub require_mapping : Value → Result Fields
require_mapping (mapping fs) = ok fs
require_mapping _ = raise value_error

-- `isinstance(value, str) and value`
abbrev pub require_text : Value → Result String
require_text (text s) = if is_blank s then raise value_error else ok s
require_text _ = raise value_error

-- `value in` a frozenset of texts: a list or a mapping has no hash.
unfoldable pub in_closed_set : List String → Value → Result Bool
in_closed_set set (text s) = ok (contains s set)
in_closed_set set (seq _) = raise type_error
in_closed_set set (mapping _) = raise type_error
in_closed_set set _ = ok false

-- `if value not in …: raise ValueError`, where the value goes on as `str(value)`
unfoldable pub require_one_of : List String → Value → Result String
unfolding in_closed_set
require_one_of set (text s) = do
  known ← in_closed_set set (text s)
  if known then ok s else raise value_error
require_one_of set v = do _ ← in_closed_set set v; raise value_error

-- The digits of `int(text)`: a lone underscore may stand between two of them.
digits_from : ℕ → Bool → List ℕ → Result ℕ
digits_from n after_digit [] = if after_digit then ok n else raise value_error
digits_from n after_digit (c ∷ rest) =
    let number = digits_from (n * 10 + (c - b'0')) true rest in
    let gap = digits_from n false rest in
    if is_digit c then number else if is_code c b'_' && after_digit then gap else raise value_error

signed : List ℕ → Result ℤ
unfolding digits_from
signed [] = raise value_error
signed (c ∷ rest) =
    if is_code c b'-'
    then (do n ← digits_from 0 false rest; ok (sub_ℕ 0 n))
    else if is_code c b'+'
    then (do n ← digits_from 0 false rest; ok (pos n))
    else (do n ← digits_from 0 false (c ∷ rest); ok (pos n))

blank_code : ℕ → Bool
blank_code c = (leb 9 c && leb c 13) || (leb 28 c && leb c 32)

skip_blanks : List ℕ → List ℕ
unfolding blank_code
skip_blanks [] = []
skip_blanks (c ∷ rest) = let later = skip_blanks rest in if blank_code c then later else c ∷ rest

keep_last : ℕ → List ℕ → List ℕ
unfolding blank_code
keep_last c [] = if blank_code c then [] else c ∷ []
keep_last c (d ∷ ds) = c ∷ d ∷ ds

drop_blanks : List ℕ → List ℕ
unfolding keep_last
drop_blanks [] = []
drop_blanks (c ∷ rest) = keep_last c (drop_blanks rest)

-- `int(value)`; a truth value is 0 or 1.
unfoldable pub to_int : Value → Result ℤ
unfolding signed skip_blanks drop_blanks
to_int (bool b) = ok (if b then pos 1 else pos 0)
to_int (int i) = ok i
to_int (float _ truncated) = truncated
to_int (text s) = signed (drop_blanks (skip_blanks (codes s)))
to_int _ = raise type_error
