-- ===== src/Tests/Ui.antt =====
-- Edits of a small document.
use wifi_shepard.Load.Checks.{
  require_sequence, require_mac, is_valid_mac, is_mac, mac_shape, is_hex,
}
use wifi_shepard.Load.Yaml.{
  list_of, Value, Fields, bool, text, seq, nil, item, mapping, end, field, find, get_or, truthy,
}
use wifi_shepard.Load.Env.{walk, interpolate_env}
use wifi_shepard.Mac.{normalize_mac}
use wifi_shepard.Prelude.{
  true, false, String, Option, none, some, [], ◌∷◌, ◌≡◌, refl, ok, each, ◌>>=◌,
}
use wifi_shepard.Ui.Allowlist.{read_allowlist, read_allowlist-same}
use wifi_shepard.Ui.Device.{
  apply_membership, apply_memberships, per_device_memberships, any_matches, append, remove, edit,
}
use wifi_shepard.Ui.Device.Members.{IsEdited, apply_membership-IsEdited}
use wifi_shepard.Ui.Device.Others.{IsBeside, apply_membership-IsBeside}
use wifi_shepard.Ui.Device.Payload.{IsApplied, apply_memberships-IsApplied}
use wifi_shepard.Ui.Document.{node, put_at, put_field, fields_of}
use wifi_shepard.Ui.Document.Laws.{is_apart}
use wifi_shepard.Ui.Save.{saved}
use wifi_shepard.Ui.Save.Laid.{Stands, AreDicts, saved-Stands}

abbrev listed : String → Value
listed s = seq (item (text s) nil)

-- An allowlist, and a key that the interface does not manage.
abbrev read : Value
read = mapping (field "allowlist" (listed "AA:BB:CC:DD:EE:01") (field "site" (text "home") end))

abbrev written : Value
written = mapping (field "allowlist" (seq nil) (field "site" (text "home") end))

abbrev mac : String
mac = "aa:bb:cc:dd:ee:01"

mac-canonical : normalize_mac mac ≡ mac
unfolding normalize_mac
mac-canonical = refl

removed : apply_membership read ("allowlist" ∷ []) mac false ≡ ok (written, true)
unfolding apply_membership any_matches remove put_at put_field get_or find normalize_mac node
removed = refl

apply_membership-IsEdited_example : IsEdited read ("allowlist" ∷ []) mac false (written, true)
apply_membership-IsEdited_example =
    apply_membership-IsEdited read ("allowlist" ∷ []) mac false (written, true) mac-canonical
      removed

apply_membership-IsBeside_example :
    IsBeside read ("allowlist" ∷ []) ("site" ∷ []) "aa:bb:cc:dd:ee:02" (written, true)
unfolding is_apart
apply_membership-IsBeside_example =
    apply_membership-IsBeside read ("allowlist" ∷ []) ("site" ∷ []) mac "aa:bb:cc:dd:ee:02" false
      (written, true) mac-canonical refl refl removed

-- The device leaves the allowlist and becomes eligible for reboots.
abbrev payload : Fields
payload = field "allowlisted" (bool false) (field "reboot_eligible" (bool true) end)

abbrev applied : Value
applied = mapping (
    field "allowlist" (seq nil) (
      field "site" (text "home")
        (field "reboot" (mapping (field "eligible" (listed "aa:bb:cc:dd:ee:01") end)) end)))

applied_run : apply_memberships per_device_memberships payload mac read ≡ ok (applied, true)
unfolding apply_memberships edit apply_membership any_matches remove put_at put_field get_or find
    normalize_mac node truthy append
applied_run = refl

apply_memberships-IsApplied_example :
    IsApplied payload mac per_device_memberships read (applied, true)
apply_memberships-IsApplied_example =
    apply_memberships-IsApplied payload mac read (applied, true) mac-canonical applied_run

abbrev submitted : Fields
submitted = field "scanner" (mapping (field "dry_run" (bool true) end)) end

saved-Stands_example :
    Stands "site"
      (find submitted "site")
      (fields_of read)
      (find (saved (some read) submitted) "site")
unfolding AreDicts find
saved-Stands_example = saved-Stands read submitted "site" ((refl, tt), (((refl, tt), (tt, tt)), tt))

-- Printed in capitals, with a blank in front.
abbrev entries : Value
entries = seq (item (text " AA:BB:CC:DD:EE:01") nil)

abbrev unprinted : Value → String
unprinted v = "?"

accepted : require_sequence entries >>= each require_mac ≡ ok (mac ∷ [])
unfolding require_sequence each require_mac is_valid_mac is_mac mac_shape is_hex list_of
    normalize_mac
accepted = refl

abbrev unset : String → Option String
unset name = none

entries_plain : walk unset entries ≡ ok entries
unfolding walk interpolate_env
entries_plain = refl

entries_accepted :
    (walk unset entries >>= λ w. require_sequence w >>= each require_mac) ≡ ok (mac ∷ [])
entries_accepted = rw entries_plain accepted

read_allowlist-same_example : read_allowlist unprinted entries ≡ mac ∷ []
read_allowlist-same_example =
    read_allowlist-same unprinted unset entries (mac ∷ []) entries_plain entries_accepted
