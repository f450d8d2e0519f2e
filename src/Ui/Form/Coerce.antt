-- ===== src/Ui/Form/Coerce.antt =====
-- wifi_shepard_ui/config_io.py: `coerce_scalar` and `_coerce_list`, by the kind of a field. `str()` of a
-- value that is no text is the parameter `show`. A quoted string is a text.
use wifi_shepard.Load.Checks.{to_int}
use wifi_shepard.Load.Yaml.{
  Value, Items, Fields, null, bool, int, text, seq, mapping, nil, item, end, field, list_of, truthy,
}
use wifi_shepard.Mac.{strip}
use wifi_shepard.Prelude.{
  String, Bool, true, false, not, ◌&&◌, Option, none, some, List, [], ◌∷◌, contains, if◌then◌else◌,
  is_blank, Result, ok, raise, ◌>>=◌, value_error, type_error,
}
use wifi_shepard.Ui.Form.Names.{is_env_name, placeholder}
use wifi_shepard.Ui.Schema.Kinds.{Kind, FieldSpec}

abbrev pub required_string_paths : List String
required_string_paths =
    "controllers[].type" ∷ "controllers[].name" ∷ "controllers[].host" ∷ "controllers[].username"
    ∷ "home_assistant.url" ∷ "home_assistant.notify_service" ∷ "reboot.overrides[].mac"
    ∷ "overrides[].mac" ∷ "dns_sources[].instances[].url" ∷ "quiet_hours.start" ∷ "quiet_hours.end"
    ∷ "quiet_hours.timezone" ∷ []

-- `int(str(value).strip())`; only the text of an integer is read as one.
unfoldable pub whole_number : Value → Result Value
whole_number (int i) = ok (int i)
whole_number (text s) = do n ← to_int (text (strip s)); ok (int n)
whole_number _ = raise value_error

-- `value is None`, or a blank text
abbrev is_unset : Value → Bool
is_unset null = true
is_unset (text s) = is_blank (strip s)
is_unset _ = false

abbrev pub blank_int : Kind → FieldSpec → Option Value
blank_int Kind.int_or_null f = if f.blank_writes_null then some null else none
blank_int _ f = none

abbrev pub coerce_int : FieldSpec → Value → Result (Option Value)
coerce_int f value =
    if is_unset value then ok (blank_int f.kind f) else do n ← whole_number value; ok (some n)

-- The characters of a text, and the keys of a mapping, as a loop over it meets them.
unfoldable pub characters : String → List Value
characters String.[] = []
characters (String.◌∷◌ c s) = text (String.◌∷◌ c String.[]) ∷ characters s

unfoldable pub keys_of : Fields → List Value
keys_of end = []
keys_of (field key v rest) = text key ∷ keys_of rest

-- `values or []`, as the values that a loop over it meets; a number or a Boolean raises.
unfoldable pub rows_of : Value → Result (List Value)
unfolding characters keys_of
rows_of values =
    if truthy values
    then elim values [
      | seq items ↦ ok (list_of items)
      | text s ↦ ok (characters s)
      | mapping fs ↦ ok (keys_of fs)
      | _ ↦ raise type_error
    ]
    else ok []

module _ (show : Value → String) where
  -- `str(value)`, and the text that most fields read
  abbrev pub str : Value → String
  str (text s) = s
  str v = show v

  abbrev pub stripped : Value → String
  stripped null = ""
  stripped v = strip (str v)

  abbrev pub coerce_secret : String → Result (Option Value)
  coerce_secret name =
      if is_blank name
      then ok none
      else if is_env_name name
      then ok (some (text (placeholder name)))
      else raise value_error

  abbrev pub coerce_string : FieldSpec → String → Option Value
  coerce_string f s =
      if is_blank s && not (contains f.path required_string_paths) then none else some (text s)

  -- `coerce_scalar`; `none` is OMIT.
  unfoldable pub coerce_as : Kind → FieldSpec → Value → Result (Option Value)
  unfolding whole_number
  coerce_as Kind.secret_ref f value = coerce_secret (stripped value)
  coerce_as Kind.bool f value = ok (some (bool (truthy value)))
  coerce_as Kind.int f value = coerce_int f value
  coerce_as Kind.int_or_null f value = coerce_int f value
  coerce_as Kind.enum f value =
      ok (if is_blank (stripped value) then none else some (text (stripped value)))
  coerce_as _ f value = ok (coerce_string f (stripped value))

  abbrev pub coerce_scalar : FieldSpec → Value → Result (Option Value)
  coerce_scalar f value = coerce_as f.kind f value

  abbrev pub entry_as : Kind → Value → Result Value
  entry_as Kind.int_list v = whole_number v
  entry_as _ v = ok (text (strip (str v)))

  -- The loop of `_coerce_list`.
  unfoldable pub coerce_entries : Kind → List Value → Result Items
  unfolding whole_number
  coerce_entries kind [] = ok nil
  coerce_entries kind (v ∷ rest) =
      let later = coerce_entries kind rest in
      if is_blank (strip (str v))
      then later
      else do w ← entry_as kind v; items ← later; ok (item w items)

  unfoldable pub coerce_list : FieldSpec → Value → Result Value
  coerce_list f values = do vs ← rows_of values; items ← coerce_entries f.kind vs; ok (seq items)
