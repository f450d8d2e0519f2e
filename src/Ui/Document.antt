-- ===== src/Ui/Document.antt =====
-- wifi_shepard_ui/device_config.py: walking a document that has been read, `_node` and
-- `_ensure_parent`, as functions of the document. A comment that the document carries is no part of
-- its value.
pub mod Laws
use wifi_shepard.Load.Yaml.{Value, Fields, null, mapping, end, field, find, get, get_or}
use wifi_shepard.Prelude.{
  String, Bool, true, false, ◌==◌, Option, none, some, List, [], ◌∷◌, if◌then◌else◌, ◌≡◌, refl,
}

-- The entries of a mapping; a value that is none has none.
unfoldable pub fields_of : Value → Fields
fields_of (mapping fs) = fs
fields_of _ = end

-- `_node`: what is missing is `None`.
unfoldable pub node : Value → List String → Value
unfolding fields_of get_or
node v [] = v
node v (part ∷ parts) = node (get (fields_of v) part) parts

-- `mapping[key] = value`: a new key goes to the end.
unfoldable pub put_field : Fields → String → Value → Fields
put_field end key v = field key v end
put_field (field k w rest) key v =
    let later = put_field rest key v in if k == key then field k v rest else field k w later

-- `parent[parts[-1]] = value` behind `_ensure_parent`: a part that is no mapping becomes one.
unfoldable pub put_at : Value → List String → Value → Value
unfolding fields_of put_field get_or
put_at v [] new = new
put_at v (part ∷ parts) new =
    mapping (put_field (fields_of v) part (put_at (get (fields_of v) part) parts new))
