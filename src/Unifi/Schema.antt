-- ===== src/Unifi/Schema.antt =====
-- wifi_shepard/controllers/unifi.py: reading one field of a raw answer. A raw entry is a JSON object;
-- `UniFiSchemaError` is a RuntimeError.
use wifi_shepard.Load.Yaml.{
  Value, Fields, list_of, null, bool, int, text, seq, mapping, find, get, truthy,
}
use wifi_shepard.Mac.{strip}
use wifi_shepard.Prelude.{
  ℕ, String, true, false, Option, none, some, List, [], ◌&&◌, if◌then◌else◌, ℤ, pos, Result, ok,
  raise, ◌>>=◌, runtime_error, type_error, is_blank, is_code,
}
use Prim.Native.Char.{code}

abbrev or_raise {ℓ} : {A : Type ℓ} → Option A → Result A
or_raise none = raise runtime_error
or_raise (some a) = ok a

-- `isinstance(value, str)`, and the value
abbrev pub as_text : Value → Option String
as_text (text s) = some s
as_text _ = none

-- `isinstance(value, int)`, which holds of a Boolean
abbrev pub as_int : Value → Option ℤ
as_int (int n) = some n
as_int (bool true) = some (pos 1)
as_int (bool false) = some (pos 0)
as_int _ = none

typed {ℓ} : {A : Type ℓ} → (Value → Option A) → Option Value → Result A
typed as_type none = raise runtime_error
typed as_type (some v) = or_raise (as_type v)

-- `_require`, with the test of the expected type
unfoldable pub require {ℓ} : {A : Type ℓ} → Fields → String → (Value → Option A) → Result A
unfolding typed
require raw key as_type = typed as_type (find raw key)

-- A negative count, which no byte counter reaches, is read as no count.
unfoldable pub optional_int : Fields → String → Option ℕ
optional_int raw key = elim (get raw key) [ int (pos n) ↦ some n | _ ↦ none ]

-- `text.rstrip("%")`
strip_percent : String → String
strip_percent String.[] = String.[]
strip_percent (String.◌∷◌ c s) =
    let rest = strip_percent s in
    if is_code (code c) b'%' && is_blank rest then String.[] else String.◌∷◌ c rest

-- `str()` and `float()` are parameters; `float` answers `none` for a ValueError.
unfoldable pub parse_pct {ℓ} :
    {F : Type ℓ} → (Value → String) → (String → Option F) → Value → Option F
unfolding strip_percent
parse_pct show float null = none
parse_pct show float v =
    let number = strip (strip_percent (strip (show v))) in
    if is_blank number then none else float number

-- An entry of a table. What is no object raises, and its kinds of exception are not told apart.
abbrev pub entry_of : Value → Result Fields
entry_of (mapping raw) = ok raw
entry_of _ = raise type_error

-- `raw.get(key) or []`, as the values that a loop over it meets
unfoldable pub rows : Fields → String → Result (List Value)
unfolding list_of
rows raw key =
    if truthy (get raw key)
    then elim (get raw key) [ seq items ↦ ok (list_of items) | _ ↦ raise type_error ]
    else ok []

-- A field of one row that `_require` reads.
abbrev pub require_in {ℓ} : {A : Type ℓ} → Value → String → (Value → Option A) → Result A
require_in row key as_type = do raw ← entry_of row; require raw key as_type
