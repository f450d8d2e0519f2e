-- ===== src/Unifi/Session/Closed.antt =====
-- A controller that is not logged in.
use wifi_shepard.Load.Yaml.{Value}
use wifi_shepard.Prelude.{arith, String, Bool, false, Option, ◌≡◌, refl, raise, runtime_error}
use wifi_shepard.Unifi.Session.{
  UniFiController, Tables, close, list_wireless_clients, list_aps, get_ap_radio_stats,
  list_ap_stats, force_reconnect_client, send_btm_request,
}

-- Every call raises RuntimeError, and the controller stays as it is: nothing is sent.
pub record Refuses (c : UniFiController) : Type 0 where
  pub clients :
      (show : Value → String) (t : Tables)
      → list_wireless_clients show t c ≡ (raise runtime_error, c)
  pub aps : (t : Tables) → list_aps t c ≡ raise runtime_error
  pub radios : (t : Tables) (ap_id : String) → get_ap_radio_stats t c ap_id ≡ raise runtime_error
  pub health :
      (t : Tables) (show : Value → String) (float : String → Option Value)
      → list_ap_stats t c show float ≡ raise runtime_error
  pub reconnect :
      (fails : Bool) (mac : String) → force_reconnect_client fails mac c ≡ (raise runtime_error, c)
  pub btm :
      (fails : Bool) (mac : String) (target : Option String)
      → send_btm_request fails mac target c ≡ (raise runtime_error, c)

out-Refuses : (c : UniFiController) → c.unifi ≡ false → Refuses c
unfolding list_wireless_clients list_aps get_ap_radio_stats list_ap_stats force_reconnect_client
    send_btm_request
out-Refuses c out = record {
  clients = λ show t. rw out refl;
  aps = λ t. rw out refl;
  radios = λ t ap_id. rw out refl;
  health = λ t show float. rw out refl;
  reconnect = λ fails mac. rw out refl;
  btm = λ fails mac target. rw out refl;
}

unifi-close : (fails : Bool) (c : UniFiController) → (close fails c).1.unifi ≡ false
unfolding close
unifi-close fails c = ground arith

-- After `close`, even one whose session raised, every call of the controller raises RuntimeError and
-- sends nothing.
pub close-Refuses : (fails : Bool) (c : UniFiController) → Refuses (close fails c).1
close-Refuses fails c = out-Refuses (close fails c).1 (unifi-close fails c)
