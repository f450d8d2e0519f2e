-- ===== src/Unifi/Session.antt =====
-- wifi_shepard/controllers/unifi.py: the controller with its session, and the calls that it passes on;
-- and wifi_shepard/controllers/__init__.py, which builds one.
pub mod Closed
use wifi_shepard.Config.{ControllerSpec}
use wifi_shepard.Controller.{ApSnapshot, ApStats, ClientSnapshot, RadioStats}
use wifi_shepard.Load.Yaml.{Value, Fields, field, end, text}
use wifi_shepard.Mac.{lower}
use wifi_shepard.Prelude.{
  ℕ, String, Bool, true, false, Option, none, some, List, [], ◌∷◌, ◌++◌, ◌==◌, if◌then◌else◌,
  Result, ok, raise, ◌>>=◌, runtime_error, value_error, external_error,
}
use wifi_shepard.Unifi.Clients.{Warned, list_entries}
use wifi_shepard.Unifi.Devices
use wifi_shepard.Unifi.Devices.{build_cu_lookup}

-- What the controller's library is asked for.
pub data Request : Type 0 where
  session_opened session_closed logged_in : Request
  reconnect : String → Request
  post : String → Fields → Request

pub record UniFiController : Type 0 where
  pub name : String
  pub host : String
  pub username : String
  pub password : String
  pub site : String
  pub verify_ssl : Bool
  pub port : ℕ
  pub session : Bool
  pub unifi : Bool
  pub warned : Warned
  pub requests : List Request

abbrev pub default_port : ℕ
default_port = 8443

abbrev port_or_default : Option ℕ → ℕ
port_or_default none = default_port
port_or_default (some port) = port

unfoldable pub build_controller : ControllerSpec → Result UniFiController
build_controller spec =
    if spec.type == "unifi"
    then ok (record {
      name = spec.name;
      host = spec.host;
      username = spec.username;
      password = spec.password;
      site = spec.site;
      verify_ssl = spec.verify_ssl;
      port = port_or_default spec.port;
      session = false;
      unifi = false;
      warned = record { incomplete = []; log = [] };
      requests = [];
    })
    else raise value_error

abbrev request : Request → UniFiController → UniFiController
request r c = record c { requests = c.requests ++ r ∷ [] }

-- `unifi` is set before the controller has answered the login.
unfoldable pub login : Bool → UniFiController → Result (Unit {0}) × UniFiController
login fails c =
    if c.unifi
    then (ok tt, c)
    else let c' = record (request session_opened c) { session = true; unifi = true } in
      if fails then (raise external_error, c') else (ok tt, request logged_in c')

unfoldable pub close : Bool → UniFiController → Result (Unit {0}) × UniFiController
close fails c =
    let c' : UniFiController = record c { session = false; unifi = false } in
    if c.session
    then (if fails then (raise external_error, c') else (ok tt, request session_closed c'))
    else (ok tt, c')

-- `_controller()`
abbrev pub controller : UniFiController → Result (Unit {0})
controller c = if c.unifi then ok tt else raise runtime_error

-- What the updates of the two tables answer.
pub record Tables : Type 0 where
  pub clients : Result (List Fields)
  pub devices : Result (List Fields)

abbrev kept :
    UniFiController
    → Result (List ClientSnapshot) × Warned
    → Result (List ClientSnapshot) × UniFiController
kept c (r, w) = (r, record c { warned = w })

abbrev listed :
    (Value → String)
    → UniFiController
    → Result (List Fields × Devices.CuLookup)
    → Result (List ClientSnapshot) × UniFiController
listed show c (raise e) = (raise e, c)
listed show c (ok (raws, lookup)) = kept c (list_entries show lookup raws c.warned)

unfoldable pub list_wireless_clients :
    (Value → String) → Tables → UniFiController → Result (List ClientSnapshot) × UniFiController
list_wireless_clients show tables c = listed show c (do
  _ ← controller c
  raws ← tables.clients
  devices ← tables.devices
  lookup ← build_cu_lookup devices
  ok (raws, lookup))

module _ (tables : Tables) (c : UniFiController) where
  unfoldable pub list_aps : Result (List ApSnapshot)
  list_aps = do _ ← controller c; devices ← tables.devices; Devices.list_aps devices

  unfoldable pub get_ap_radio_stats : String → Result (List RadioStats)
  get_ap_radio_stats ap_id = do
    _ ← controller c
    devices ← tables.devices
    Devices.get_ap_radio_stats ap_id devices

  unfoldable pub list_ap_stats : (Value → String) → (String → Option Value) → Result (List ApStats)
  list_ap_stats show float = do
    _ ← controller c
    devices ← tables.devices
    Devices.list_ap_stats show float devices

abbrev send :
    Request → Bool → UniFiController → Result (Unit {0}) → Result (Unit {0}) × UniFiController
send r fails c (raise e) = (raise e, c)
send r fails c (ok _) = if fails then (raise external_error, c) else (ok tt, request r c)

unfoldable pub force_reconnect_client :
    Bool → String → UniFiController → Result (Unit {0}) × UniFiController
force_reconnect_client fails mac c = send (reconnect mac) fails c (controller c)

-- `_BTMRequest.create`
abbrev target_field : Option String → Fields
target_field none = end
target_field (some bssid) = field "target_bssid" (text (lower bssid)) end

unfoldable pub btm_request : String → Option String → Request
btm_request mac target =
    post "/cmd/devmgr"
      (field "cmd" (text "bss-transition") (field "mac" (text (lower mac)) (target_field target)))

unfoldable pub send_btm_request :
    Bool → String → Option String → UniFiController → Result (Unit {0}) × UniFiController
send_btm_request fails mac target c = send (btm_request mac target) fails c (controller c)
