-- ===== src/Ui/Schema.antt =====
-- wifi_shepard_ui/settings_schema.py: the table of the settings.
pub mod Kinds
pub mod Detection
pub mod Scanner
pub mod Reboot
pub mod Devices
pub mod Servers
use Prim.Native.Char.{code}
use wifi_shepard.Prelude.{
  String, Bool, true, false, not, ◌&&◌, ◌||◌, Option, none, some, List, [], ◌∷◌, ◌++◌, filter,
  if◌then◌else◌, is_code, starts_with,
}
use wifi_shepard.Ui.Schema.Detection.{detection_fields, inactivity_fields, dns_thrash_fields}
use wifi_shepard.Ui.Schema.Devices.{overrides_fields, allowlist_fields}
use wifi_shepard.Ui.Schema.Kinds.{Kind, FieldSpec}
use wifi_shepard.Ui.Schema.Reboot.{reboot_fields, reboot_gates_fields}
use wifi_shepard.Ui.Schema.Scanner.{
  scanner_fields, backoff_fields, safety_rails_fields, quiet_hours_fields,
}
use wifi_shepard.Ui.Schema.Servers.{controllers_fields, home_assistant_fields, dns_sources_fields}

abbrev pub fields : List FieldSpec
fields =
    detection_fields ++ inactivity_fields ++ dns_thrash_fields ++ scanner_fields ++ backoff_fields
    ++ safety_rails_fields ++ quiet_hours_fields ++ reboot_fields ++ reboot_gates_fields
    ++ overrides_fields ++ allowlist_fields ++ controllers_fields ++ home_assistant_fields
    ++ dns_sources_fields

-- `"[]" in path`
unfoldable pub has_brackets : String → Bool
has_brackets String.[] = false
has_brackets (String.◌∷◌ c s) =
    let later = has_brackets s in is_code (code c) b'[' && starts_with s "]" || later

-- `path[len(prefix):]`, where the path starts with the prefix
unfoldable pub after_prefix : String → String → Option String
after_prefix String.[] path = some path
after_prefix (String.◌∷◌ c prefix) String.[] = none
after_prefix (String.◌∷◌ c prefix) (String.◌∷◌ d path) =
    let rest = after_prefix prefix path in if is_code (code c) (code d) then rest else none

abbrev pub is_list_kind : Kind → Bool
is_list_kind Kind.int_list = true
is_list_kind Kind.string_list = true
is_list_kind Kind.mac_list = true
is_list_kind _ = false

-- `_scalar_fields` and `_scalar_list_fields` of config_io.py
unfoldable pub scalar_fields : List FieldSpec
unfolding has_brackets
scalar_fields = filter (λ f. not (has_brackets f.path) && not (is_list_kind f.kind)) fields

unfoldable pub scalar_list_fields : List FieldSpec
unfolding has_brackets
scalar_list_fields = filter (λ f. not (has_brackets f.path) && is_list_kind f.kind) fields

-- A field directly under a prefix, with its leaf name.
abbrev keep_leaf : FieldSpec → Option String → List (String × FieldSpec) → List (String × FieldSpec)
keep_leaf f none rest = rest
keep_leaf f (some leaf) rest = if has_brackets leaf then rest else (leaf, f) ∷ rest

-- The loop over the fields of an item: `f.path.startswith(prefix)` and no further `[]`.
unfoldable pub leaves : String → List FieldSpec → List (String × FieldSpec)
unfolding after_prefix has_brackets
leaves prefix [] = []
leaves prefix (f ∷ rest) = keep_leaf f (after_prefix prefix f.path) (leaves prefix rest)

-- `ObjectListSpec`, without the labels of its buttons.
pub record ObjectListSpec : Type 0 where
  pub key : String
  pub section : String
  pub item_prefix : String
  pub location : List String
  -- `nested_key` and `nested_prefix`, which the table sets together
  pub nested : Option (String × String)

abbrev pub object_lists : List ObjectListSpec
object_lists =
    record {
      key = "controllers";
      section = "controllers";
      item_prefix = "controllers[].";
      location = "controllers" ∷ [];
      nested = none;
    }
    ∷ record {
      key = "overrides";
      section = "overrides";
      item_prefix = "overrides[].";
      location = "overrides" ∷ [];
      nested = none;
    }
    ∷ record {
      key = "reboot.overrides";
      section = "reboot";
      item_prefix = "reboot.overrides[].";
      location = "reboot" ∷ "overrides" ∷ [];
      nested = none;
    }
    ∷ record {
      key = "dns_sources";
      section = "dns_sources";
      item_prefix = "dns_sources[].";
      location = "dns_sources" ∷ [];
      nested = some ("instances", "dns_sources[].instances[].");
    }
    ∷ []

-- The paths of OPTIONAL_SECTIONS.
abbrev pub optional_sections : List String
optional_sections = "detection.dns_thrash" ∷ "quiet_hours" ∷ "home_assistant" ∷ "dns_sources" ∷ []
