-- ===== src/Ui/Device.antt =====
-- wifi_shepard_ui/device_config.py: the lists of MACs that a device is a member of. An edit answers the
-- document and whether it changed.
use wifi_shepard.Load.Yaml.{Value, Items, Fields, null, text, seq, nil, item, find, truthy}
use wifi_shepard.Mac.{normalize_mac}
use wifi_shepard.Prelude.{
  String, Bool, true, false, ◌==◌, ◌||◌, ◌>>=◌, Option, none, some, List, [], ◌∷◌, if◌then◌else◌,
  Result, ok, raise, value_error,
}
use wifi_shepard.Ui.Document.{node, put_at}
pub mod Members
pub mod Others
pub mod Payload

-- A `MembershipSpec`: the key of a payload, and where the list is.
pub record MembershipSpec : Type 0 where
  pub key : String
  pub path : List String

abbrev pub per_device_memberships : List MembershipSpec
per_device_memberships =
    record { key = "allowlisted"; path = "allowlist" ∷ [] }
    ∷ record { key = "inactivity_watched"; path = "detection" ∷ "inactivity" ∷ "macs" ∷ [] }
    ∷ record { key = "reboot_eligible"; path = "reboot" ∷ "eligible" ∷ [] }
    ∷ []

unfoldable pub mac_matches : Value → String → Bool
mac_matches (text s) mac = normalize_mac s == mac
mac_matches _ mac = false

unfoldable pub any_matches : Items → String → Bool
unfolding mac_matches
any_matches nil mac = false
any_matches (item v rest) mac = mac_matches v mac || any_matches rest mac

-- `_append_keeping_trailing_comment`
unfoldable pub append : Items → Value → Items
append nil v = item v nil
append (item w rest) v = item w (append rest v)

-- `del existing[i]` for the doomed positions
unfoldable pub remove : Items → String → Items
unfolding mac_matches
remove nil mac = nil
remove (item v rest) mac =
    let later = remove rest mac in if mac_matches v mac then later else item v later

module _ (doc : Value) (parts : List String) (mac : String) where
  unfoldable add : Value → Result (Value × Bool)
  unfolding any_matches append put_at
  add null = ok (put_at doc parts (seq (item (text mac) nil)), true)
  add (seq xs) =
      if any_matches xs mac
      then ok (doc, false)
      else ok (put_at doc parts (seq (append xs (text mac))), true)
  add _ = raise value_error

  unfoldable drop : Value → Result (Value × Bool)
  unfolding any_matches remove put_at
  drop null = ok (doc, false)
  drop (seq xs) =
      if any_matches xs mac
      then ok (put_at doc parts (seq (remove xs mac)), true)
      else ok (doc, false)
  drop _ = raise value_error

  unfoldable pub apply_membership : Bool → Result (Value × Bool)
  unfolding add drop node
  apply_membership on = if on then add (node doc parts) else drop (node doc parts)

-- One flag of `read_device_settings`.
unfoldable pub is_listed : Value → String → Bool
is_listed (seq xs) mac = any_matches xs mac
is_listed _ mac = false

unfoldable pub is_member : Value → List String → String → Bool
unfolding is_listed node
is_member doc parts mac = is_listed (node doc parts) mac

-- `if membership.key in payload: …`
unfoldable pub edit : MembershipSpec → Option Value → String → Value → Result (Value × Bool)
edit spec none mac doc = ok (doc, false)
edit spec (some flag) mac doc = apply_membership doc spec.path mac (truthy flag)

-- The loop over PER_DEVICE_MEMBERSHIPS in `apply_device_settings`; `touched` is the last component.
unfoldable pub apply_memberships :
    List MembershipSpec → Fields → String → Value → Result (Value × Bool)
unfolding edit
apply_memberships [] payload mac doc = ok (doc, false)
apply_memberships (spec ∷ rest) payload mac doc = do
  (doc', changed) ← edit spec (find payload spec.key) mac doc
  (doc'', touched) ← apply_memberships rest payload mac doc'
  ok (doc'', changed || touched)
