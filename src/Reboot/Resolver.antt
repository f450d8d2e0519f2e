-- ===== src/Reboot/Resolver.antt =====
-- wifi_shepard/reboot/ha_resolver.py. The device registry is a parameter: for a MAC, the entities of
-- the device that it matches, `none` where no device does, or an exception.
use wifi_shepard.Prelude.{
  String, ◌&&◌, Option, none, some, List, [], ◌∷◌, ◌==◌, if◌then◌else◌, Bool, true, false, Result,
  ok, raise,
}
use wifi_shepard.Config.{Config, RebootOverride}
use wifi_shepard.Mac.{normalize_mac}
use wifi_shepard.Reboot.Eligibility.{is_reboot_eligible}

pub record HaEntity : Type 0 where
  pub entity_id : String
  pub domain : String
  pub device_class : Option String

pub record RebootTarget : Type 0 where
  pub mac : String
  pub entity_id : String
  pub source : String

abbrev pub HaDeviceRegistry : Type 0
HaDeviceRegistry = String → Result (Option (List HaEntity))

abbrev pub is_class : Option String → String → Bool
is_class none name = false
is_class (some c) name = c == name

-- One of the two loops: the first entity of a domain and a device class.
unfoldable pub find_entity : String → String → List HaEntity → Option String
find_entity domain cls [] = none
find_entity domain cls (e ∷ rest) =
    if e.domain == domain && is_class e.device_class cls
    then some e.entity_id
    else find_entity domain cls rest

-- The entity and the name of its source.
unfoldable pub pick_ha_entity : List HaEntity → Option (String × String)
pick_ha_entity entities = elim (find_entity "button" "restart" entities) [
  | some entity ↦ some (entity, "ha_button")
  | none ↦ elim (find_entity "switch" "outlet" entities) [
    | some entity ↦ some (entity, "ha_switch")
    | none ↦ none
  ]
]

-- `override.ha_entity` as a condition
abbrev is_text : Option String → Bool
is_text none = false
is_text (some String.[]) = false
is_text (some (String.◌∷◌ _ _)) = true

-- The first override of the MAC that names an entity.
unfoldable pub find_target : String → List RebootOverride → Option String
find_target mac [] = none
find_target mac (o ∷ rest) =
    if normalize_mac o.mac == mac && is_text o.ha_entity then o.ha_entity else find_target mac rest

abbrev pub picked : String → Option (String × String) → Option RebootTarget
picked mac none = none
picked mac (some (entity, source)) =
    some (record { mac = mac; entity_id = entity; source = source })

-- An empty list of entities picks nothing, like no device.
unfoldable pub from_registry :
    String → Result (Option (List HaEntity)) → Result (Option RebootTarget)
from_registry mac (raise e) = raise e
from_registry mac (ok none) = ok none
from_registry mac (ok (some entities)) = ok (picked mac (pick_ha_entity entities))

unfoldable pub from_override :
    String → HaDeviceRegistry → Option String → Result (Option RebootTarget)
unfolding from_registry
from_override mac registry none = from_registry mac (registry mac)
from_override mac registry (some entity) =
    ok (some (record { mac = mac; entity_id = entity; source = "override" }))

unfoldable pub resolve_reboot_target :
    String → Config → HaDeviceRegistry → Result (Option RebootTarget)
unfolding from_override find_target
resolve_reboot_target mac config registry =
    if is_reboot_eligible mac config
    then from_override mac registry (find_target (normalize_mac mac) config.reboot.overrides)
    else ok none
