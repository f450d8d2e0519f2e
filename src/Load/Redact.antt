-- ===== src/Load/Redact.antt =====
-- wifi_shepard/config.py: `_redact` and `_describe`, which a message about a rejected fragment goes
-- through. `repr` and the name of a date's class are parameters. Keys are texts.
pub mod Blind
use wifi_shepard.Load.Yaml.{
  Value, Items, Fields, null, bool, int, float, text, timestamp, seq, mapping, nil, item, end,
  field,
}
use wifi_shepard.Mac.{lower}
use wifi_shepard.Prelude.{String, Bool, List, [], ◌∷◌, contains, ◌<>◌, if◌then◌else◌}

-- `k.lower() in _SECRET_KEYS`
unfoldable pub is_secret : String → Bool
is_secret key = contains (lower key) ("password" ∷ "token" ∷ [])

unfoldable mutual
  pub redact : Value → Value
  redact (seq xs) = seq (redact_items xs)
  redact (mapping fs) = mapping (redact_fields fs)
  redact v = v

  pub redact_items : Items → Items
  redact_items nil = nil
  redact_items (item v rest) = item (redact v) (redact_items rest)

  pub redact_fields : Fields → Fields
  redact_fields end = end
  redact_fields (field key v rest) =
      let kept = redact v in
      field key (if is_secret key then text "***" else kept) (redact_fields rest)

module _ (repr : Value → String) (date_name : String → String) where
  -- `type(value).__name__`
  unfoldable pub type_name : Value → String
  type_name null = "NoneType"
  type_name (bool _) = "bool"
  type_name (int _) = "int"
  type_name (float _ _) = "float"
  type_name (text _) = "str"
  type_name (timestamp s) = date_name s
  type_name (seq _) = "list"
  type_name (mapping _) = "dict"

  unfoldable pub describe : Value → String
  unfolding type_name redact
  describe (seq xs) = type_name (seq xs) <> ": " <> repr (redact (seq xs))
  describe (mapping fs) = type_name (mapping fs) <> ": " <> repr (redact (mapping fs))
  describe v = type_name v
