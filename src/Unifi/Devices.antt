-- ===== src/Unifi/Devices.antt =====
-- wifi_shepard/controllers/unifi.py: the access points in the controller's table of devices.
pub mod Lookup
pub mod Listing
use wifi_shepard.Controller.{ApSnapshot, ApStats, RadioStats}
use wifi_shepard.Dict
use wifi_shepard.Dict.{Dict}
use wifi_shepard.Load.Yaml.{Value, Fields, int, text, mapping, end, get, get_or, truthy}
use wifi_shepard.Prelude.{
  String, Bool, false, Option, List, [], ◌∷◌, ◌==◌, if◌then◌else◌, ℤ, pos, Result, ok, raise, ◌>>=◌,
  attribute_error, each, filter,
}
use wifi_shepard.Unifi.Schema.{as_text, as_int, require, rows, entry_of, parse_pct}

-- `value == name`
abbrev pub is_named : Value → String → Bool
is_named (text s) name = s == name
is_named _ name = false

-- `raw.get("type") == "uap"`
unfoldable pub is_ap : Fields → Bool
is_ap raw = is_named (get raw "type") "uap"

-- The channel utilization by access point and radio.
abbrev pub CuLookup : Type 0
CuLookup = Dict (Dict ℤ)

-- `cu_lookup.get((ap_mac, radio), 0)`
unfoldable pub cu_of : CuLookup → String → String → ℤ
cu_of lookup ap_mac radio = Dict.get_or (Dict.get_or lookup ap_mac Dict.empty) radio (pos 0)

-- `lookup[(ap_mac, radio)] = cu_total`
unfoldable pub note_cu : CuLookup → String → String → ℤ → CuLookup
note_cu lookup ap_mac radio cu_total =
    Dict.put lookup ap_mac (Dict.put (Dict.get_or lookup ap_mac Dict.empty) radio cu_total)

-- The radio and the utilization of one row.
unfoldable pub utilization : Value → Result (String × ℤ)
utilization row = do
  entry ← entry_of row
  radio ← require entry "radio" as_text
  cu_total ← require entry "cu_total" as_int
  ok (radio, cu_total)

unfoldable pub note_rows : String → List Value → CuLookup → Result CuLookup
note_rows ap_mac [] lookup = ok lookup
note_rows ap_mac (row ∷ rest) lookup = do
  entry ← utilization row
  note_rows ap_mac rest (note_cu lookup ap_mac (entry.0) (entry.1))

unfoldable pub note_ap : Fields → CuLookup → Result CuLookup
note_ap raw lookup = do
  ap_mac ← require raw "mac" as_text
  stats ← rows raw "radio_table_stats"
  note_rows ap_mac stats lookup

-- The loop over the devices; one that is no access point is passed over.
unfoldable pub note_devices : List Fields → CuLookup → Result CuLookup
note_devices [] lookup = ok lookup
note_devices (raw ∷ rest) lookup = do
  lookup' ← if is_ap raw then note_ap raw lookup else ok lookup
  note_devices rest lookup'

unfoldable pub build_cu_lookup : List Fields → Result CuLookup
build_cu_lookup devices = note_devices devices Dict.empty

unfoldable pub radio_stats_of : Value → Result RadioStats
radio_stats_of row = do
  entry ← entry_of row
  radio ← require entry "radio" as_text
  cu_total ← require entry "cu_total" as_int
  ok (record {
    radio = radio;
    cu_total = cu_total;
    bssid = get_or entry "bssid" (text "");
    channel = get_or entry "channel" (int (pos 0));
  })

-- A device's `radio_table_stats`.
unfoldable pub radios_of : Fields → Result (List RadioStats)
radios_of raw = do stats ← rows raw "radio_table_stats"; each radio_stats_of stats

unfoldable pub ap_of : Fields → Result ApSnapshot
ap_of raw = do
  mac ← require raw "mac" as_text
  ok (record { id = mac; name = get_or raw "name" (text ""); mac = mac })

unfoldable pub list_aps : List Fields → Result (List ApSnapshot)
list_aps devices = each ap_of (filter is_ap devices)

-- The radios of the first device of that MAC.
unfoldable pub get_ap_radio_stats : String → List Fields → Result (List RadioStats)
get_ap_radio_stats ap_id [] = ok []
get_ap_radio_stats ap_id (raw ∷ rest) =
    let later = get_ap_radio_stats ap_id rest in
    if is_named (get raw "mac") ap_id then radios_of raw else later

-- `system_stats.get`, where `system_stats` is the value or `{}`
abbrev pub system_stats : Value → Result Fields
system_stats v =
    if truthy v then elim v [ mapping raw ↦ ok raw | _ ↦ raise attribute_error ] else ok end

module _ (show : Value → String) (float : String → Option Value) where
  unfoldable pub ap_stats_of : Fields → Result ApStats
  ap_stats_of raw = do
    mac ← require raw "mac" as_text
    radios ← radios_of raw
    system ← system_stats (get raw "system-stats")
    ok (record {
      id = mac;
      name = get_or raw "name" (text "");
      mac = mac;
      cpu_pct = parse_pct show float (get system "cpu");
      mem_pct = parse_pct show float (get system "mem");
      radios = radios;
    })

  unfoldable pub list_ap_stats : List Fields → Result (List ApStats)
  list_ap_stats devices = each ap_stats_of (filter is_ap devices)
