-- ===== src/Tests/Form.antt =====
-- The form of the settings at a submitted secret.
use wifi_shepard.Load.Yaml.{
  Value, Fields, text, bool, seq, item, nil, mapping, field, end, truthy, get_or, find, list_of,
}
use wifi_shepard.Prelude.{
  Option, some, none, ◌==◌, if◌then◌else◌, String, Bool, true, false, ◌≡◌, refl, Result, ok, raise,
  each,
}
use wifi_shepard.Mac.{strip, strip_left, strip_right, is_space}
use wifi_shepard.Ui.Document.{put_field}
use wifi_shepard.Ui.Form.Coerce.{coerce_as, coerce_list, coerce_entries, rows_of}
use wifi_shepard.Ui.Form.Paths.{set_at, split_dots}
use wifi_shepard.Ui.Form.{
  build_mapping, add_scalars, add_lists, add_objects, build_items, build_leaves, add_nested,
  items_of,
}
use wifi_shepard.Ui.Schema.{scalar_fields, scalar_list_fields, leaves, after_prefix, has_brackets}
use wifi_shepard.Load.Env.{interpolate_env, outside}
use wifi_shepard.Load.Env.Resolved
use wifi_shepard.Ui.Form.Names.{env_name, placeholder, is_env_name}
use wifi_shepard.Ui.Form.Sealed.{SealedFields}
use wifi_shepard.Ui.Form.Sealed.Mapping

abbrev plain : Value → String
plain v = "?"

-- A token, and one controller with its password.
abbrev payload : Fields
payload = field "scalars" (mapping (field "home_assistant.token" (text "HA_TOKEN") end)) (
    field "object_lists"
      (mapping (
        field "controllers"
          (seq (
            item
              (mapping
                (field "host" (text "192.168.1.1") (field "password" (text "UNIFI_PASSWORD") end)))
              nil))
          end))
      (field "section_enabled" (mapping (field "home_assistant" (bool true) end)) end))

abbrev answered : Result Fields → Fields
answered (ok m) = m
answered (raise e) = end

abbrev built : Fields
built = answered (build_mapping plain payload)

abbrev is_ok : Result Fields → Bool
is_ok (ok m) = true
is_ok (raise e) = false

ok_answered : (r : Result Fields) → is_ok r ≡ true → r ≡ ok (answered r)
ok_answered (ok m) e = refl
ok_answered (raise x) e = cc

built_ok : is_ok (build_mapping plain payload) ≡ true
unfolding build_mapping truthy get_or find add_scalars scalar_fields coerce_as set_at split_dots
    put_field strip strip_left strip_right is_space is_env_name add_lists scalar_list_fields
    coerce_list rows_of coerce_entries add_objects build_items build_leaves add_nested leaves
    after_prefix has_brackets each items_of list_of
built_ok = refl

build_mapping-Sealed_example : SealedFields built
build_mapping-Sealed_example =
    Mapping.build_mapping-Sealed plain payload built
      (ok_answered (build_mapping plain payload) built_ok)

abbrev environ : String → Option String
environ name = if name == "HA_TOKEN" then some "abc" else none

placeholder-round_trip_example :
    (interpolate_env environ outside (placeholder "HA_TOKEN") ≡ ok "abc")
    × (env_name (text (placeholder "HA_TOKEN")) ≡ "HA_TOKEN")
unfolding is_env_name
placeholder-round_trip_example = Resolved.placeholder-round_trip environ "HA_TOKEN" "abc" refl refl
