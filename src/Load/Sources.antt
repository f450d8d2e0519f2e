-- ===== src/Load/Sources.antt =====
-- wifi_shepard/config.py: the lists `controllers` and `dns_sources`, and the block `home_assistant`.
-- `str()` of a value that is no text is the parameter `show`.
use wifi_shepard.Config.{ControllerSpec, HomeAssistantConfig, DnsInstanceSpec, DnsSourceSpec}
use wifi_shepard.Load.Checks.{require_sequence, require_mapping, require_text, require_one_of}
use wifi_shepard.Load.RebootBlock.{require_mapping_items}
use wifi_shepard.Load.Rails.{refuse}
use wifi_shepard.Load.Yaml.{Value, Fields, null, bool, int, text, get, get_or, truthy}
use wifi_shepard.Prelude.{
  ℕ, String, Bool, true, false, not, ◌&&◌, ◌||◌, Option, none, some, List, [], ◌∷◌, leb,
  if◌then◌else◌, pos, Result, ◌>>=◌, ok, raise, value_error, each, starts_with, is_blank, is_some,
}

-- `value in (None, "")`
abbrev is_missing : Value → Bool
is_missing null = true
is_missing (text s) = is_blank s
is_missing _ = false

unfoldable pub require_present : Fields → List String → Result (Unit {0})
require_present raw [] = ok tt
require_present raw (key ∷ rest) =
    let later = require_present raw rest in
    if is_missing (get raw key) then raise value_error else later

-- The port, where one is set: from 1 to 65535.
unfoldable pub require_port : Value → Result (Option ℕ)
require_port null = ok none
require_port (int (pos n)) = if leb 1 n && leb n 65535 then ok (some n) else raise value_error
require_port _ = raise value_error

-- Where a text is set it is not empty.
unfoldable pub optional_password : Value → Result (Option String)
optional_password null = ok none
optional_password v = do s ← require_text v; ok (some s)

unfoldable pub require_url : Value → Result String
require_url v = do
  url ← require_text v
  if starts_with url "http://" || starts_with url "https://" then ok url else raise value_error

module _ (show : Value → String) where
  -- `str(value)`
  abbrev pub str : Value → String
  str (text s) = s
  str v = show v

  unfoldable pub build_controller_spec : Fields → Result ControllerSpec
  build_controller_spec raw = do
    _ ← require_present raw ("type" ∷ "name" ∷ "host" ∷ "username" ∷ "password" ∷ [])
    port ← require_port (get raw "port")
    ok (record {
      type = str (get raw "type");
      name = str (get raw "name");
      host = str (get raw "host");
      username = str (get raw "username");
      password = str (get raw "password");
      site = str (get_or raw "site" (text "default"));
      verify_ssl = truthy (get_or raw "verify_ssl" (bool true));
      port = port;
    })

home_assistant_of : Fields → Result (Option HomeAssistantConfig)
home_assistant_of raw = do
  _ ← require_text (get raw "url")
  token ← require_text (get raw "token")
  service ← require_text (get raw "notify_service")
  url ← require_url (get raw "url")
  ok (some (record { url = url; token = token; notify_service = service }))

unfoldable pub build_home_assistant : Value → Result (Option HomeAssistantConfig)
unfolding home_assistant_of
build_home_assistant null = ok none
build_home_assistant raw = do fields ← require_mapping raw; home_assistant_of fields

-- An instance needs a password, its own or the source's.
unfoldable pub dns_instance_of : Option String → Fields → Result DnsInstanceSpec
dns_instance_of source_password raw = do
  url ← require_url (get raw "url")
  password ← optional_password (get raw "password")
  refuse (not (is_some password || is_some source_password))
      (ok (record { url = url; password = password }))

abbrev pub is_empty {ℓ} : {A : Type ℓ} → List A → Bool
is_empty [] = true
is_empty (_ ∷ _) = false

unfoldable pub dns_source_of : Fields → Result DnsSourceSpec
dns_source_of raw = do
  kind ← require_one_of ("pihole" ∷ []) (get raw "type")
  password ← optional_password (get raw "password")
  items ← require_sequence (get raw "instances")
  rows ← require_mapping_items items
  refuse (is_empty rows) (do
    instances ← each (dns_instance_of password) rows
    ok (record { type = kind; password = password; instances = instances }))

unfoldable pub build_dns_sources : Value → Result (List DnsSourceSpec)
build_dns_sources raw = do
  items ← require_sequence raw
  rows ← require_mapping_items items
  each dns_source_of rows
