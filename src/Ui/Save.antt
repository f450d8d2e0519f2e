-- ===== src/Ui/Save.antt =====
-- wifi_shepard_ui/config_io.py: what `write_config` makes of the file's document and of the submitted
-- mapping.
pub mod Keys
pub mod Laid
use wifi_shepard.Load.Yaml.{Value, Fields, null, mapping, end, field, find, get, get_or}
use wifi_shepard.Prelude.{
  String, Bool, true, false, ◌==◌, Option, none, some, List, [], ◌∷◌, if◌then◌else◌, is_some,
}
use wifi_shepard.Ui.Document.{fields_of, put_field}

abbrev pub managed_top_level : List String
managed_top_level =
    "detection" ∷ "scanner" ∷ "backoff" ∷ "safety_rails" ∷ "quiet_hours" ∷ "reboot" ∷ "overrides"
    ∷ "allowlist" ∷ "controllers" ∷ "home_assistant" ∷ "dns_sources" ∷ []

-- One round of the loop of `_overlay`, and the loop: `merge` is what a key's value becomes.
unfoldable mutual
  pub merge : Value → Value → Value
  merge (mapping old) (mapping new) = mapping (overlay old new)
  merge old new = new

  pub overlay : Fields → Fields → Fields
  overlay dst end = dst
  overlay dst (field key v rest) = overlay (put_field dst key (merge (get dst key) v)) rest

-- `del doc[key]`
unfoldable pub remove_key : Fields → String → Fields
remove_key end key = end
remove_key (field k v rest) key =
    let later = remove_key rest key in if k == key then later else field k v later

-- The loop over `_MANAGED_TOP_LEVEL`
unfoldable pub drop_managed : List String → Fields → Fields → Fields
unfolding remove_key
drop_managed [] new doc = doc
drop_managed (key ∷ rest) new doc =
    drop_managed rest new (if is_some (find new key) then doc else remove_key doc key)

-- The document that is dumped; an empty file is none.
unfoldable pub saved : Option Value → Fields → Fields
unfolding overlay drop_managed fields_of
saved none new = new
saved (some doc) new = drop_managed managed_top_level new (overlay (fields_of doc) new)
