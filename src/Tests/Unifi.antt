-- ===== src/Tests/Unifi.antt =====
-- The UniFi controller at a small table.
use wifi_shepard.Controller.{ClientSnapshot}
use wifi_shepard.Dict
use wifi_shepard.Unifi.Schema.{require, optional_int}
use wifi_shepard.Load.Yaml.{
  truthy, get_or, Value, Fields, text, int, null, field, end, seq, item, nil, mapping,
}
use wifi_shepard.Prelude.{
  String, Bool, true, false, Option, none, [], ◌∷◌, All, pos, negsuc, Result, ok, refl, ◌≡◌, ap,
  ◌==◌, inl, inr, each, filter, ◌>>=◌,
}
use wifi_shepard.Unifi.Clients.{
  Warned, list_entries, is_statless, ident_of, snapshot, name_of, ip_of,
}
use wifi_shepard.Unifi.Clients.Complete
use wifi_shepard.Unifi.Clients.Complete.{Pairs, is_active}
use wifi_shepard.Unifi.Clients.Warnings
use wifi_shepard.Unifi.Clients.Warnings.{Silent}
use wifi_shepard.Unifi.Devices.{CuLookup, build_cu_lookup, cu_of, note_cu}
use wifi_shepard.Unifi.Devices.Lookup
use wifi_shepard.Unifi.Devices.Lookup.{readings, latest}
use wifi_shepard.Unifi.Session.{UniFiController}

abbrev plain : Value → String
plain v = "?"

abbrev no_float : String → Option Value
no_float s = none

abbrev radio_row : Value
radio_row = mapping (field "radio" (text "ng") (field "cu_total" (int (pos 50)) end))

abbrev access_point : Fields
access_point =
    field "type" (text "uap")
      (field "mac" (text "ap1") (field "radio_table_stats" (seq (item radio_row nil)) end))

abbrev asleep : Fields
asleep = field "mac" (text "bb") end

abbrev awake : Fields
awake = field "mac" (text "aa") (
    field "ap_mac" (text "ap1") (
      field "radio" (text "ng") (
        field "signal" (int (negsuc 79)) (
          field "tx_rate" (int (pos 6000))
            (field "tx_retries" (int (pos 40)) (field "wifi_tx_attempts" (int (pos 100)) end))))))

abbrev lookup : CuLookup
lookup = note_cu Dict.empty "ap1" "ng" (pos 50)

abbrev untold : Warned
untold = record { incomplete = []; log = [] }

abbrev told : Warned
told = record { incomplete = "bb" ∷ []; log = "bb" ∷ [] }

abbrev seen : ClientSnapshot
seen = record {
  mac = "aa";
  signal = negsuc 79;
  tx_rate_kbps = pos 6000;
  tx_retries = pos 40;
  wifi_tx_attempts = pos 100;
  radio = "ng";
  ap_id = "ap1";
  ap_cu_total = pos 50;
  name = null;
  tx_bytes = none;
  rx_bytes = none;
  ip = none;
}

list_entries-Complete_example : Pairs lookup (filter is_active (asleep ∷ awake ∷ [])) (seen ∷ [])
unfolding list_entries truthy get_or is_statless ident_of require snapshot cu_of note_cu name_of
    optional_int ip_of Dict.get_or Dict.put Dict.empty each
list_entries-Complete_example =
    Complete.list_entries-Complete lookup plain (asleep ∷ awake ∷ []) untold (seen ∷ []) refl

abbrev is_bb : Result String → Bool
is_bb (ok mac) = mac == "bb"
is_bb _ = true

spared : All (Warnings.Spares "bb") (asleep ∷ awake ∷ [])
unfolding is_statless truthy get_or require
spared = (inl refl, (inr (λ e. let clash : false ≡ true = ap is_bb e in cc), tt))

list_entries-Silent_example :
    Silent "bb" told (list_entries plain lookup (asleep ∷ awake ∷ []) told).1
list_entries-Silent_example =
    Warnings.list_entries-Silent "bb" plain lookup (asleep ∷ awake ∷ []) told spared refl

build_cu_lookup-latest_example :
    (build_cu_lookup (access_point ∷ []) >>= λ l. ok (cu_of l "ap1" "ng"))
    ≡ (readings (access_point ∷ []) >>= λ rs. ok (latest "ap1" "ng" (pos 0) rs))
build_cu_lookup-latest_example = Lookup.build_cu_lookup-latest (access_point ∷ []) "ap1" "ng"

abbrev pub session : UniFiController
session = record {
  name = "home";
  host = "192.168.1.1";
  username = "u";
  password = "p";
  site = "default";
  verify_ssl = true;
  port = 8443;
  session = true;
  unifi = true;
  warned = untold;
  requests = [];
}
