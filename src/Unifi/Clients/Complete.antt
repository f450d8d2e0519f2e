-- ===== src/Unifi/Clients/Complete.antt =====
-- The snapshots that `list_wireless_clients` answers, against the fields of the controller's table.
use mathlib.Core.Path.{fun_ext}
use wifi_shepard.Controller.{ClientSnapshot}
use wifi_shepard.Load.Yaml.{Value, Fields, bool, int, text, find, get, truthy}
use wifi_shepard.Prelude.{
  String, Bool, true, false, not, ◌&&◌, ◌||◌, ◌⊎◌, inl, inr, Option, none, some, List, [], ◌∷◌, ℤ,
  pos, ◌≡◌, refl, ap, subst, all, filter, is_some, each, ok, runtime_error, Ok, raised, returned,
  ◌▹◌, Ok-holds, arith,
}
use wifi_shepard.Unifi.Clients.{Warned, is_statless, list_entries, snapshot}
use wifi_shepard.Unifi.Clients.Reporting.{is_reporting, entry_snapshot, list_entries-reporting}
use wifi_shepard.Unifi.Devices.{CuLookup, cu_of}
use wifi_shepard.Unifi.Schema.{as_text, as_int, require}

abbrev any_found : Fields → List String → Bool
any_found raw [] = false
any_found raw (key ∷ keys) = is_some (find raw key) || any_found raw keys

-- A wireless entry with one of the six statistics at least.
abbrev pub is_active : Fields → Bool
is_active raw =
    not (truthy (get raw "is_wired"))
    && any_found raw
        ("ap_mac" ∷ "radio" ∷ "signal" ∷ "tx_rate" ∷ "tx_retries" ∷ "wifi_tx_attempts" ∷ [])

-- A field that is a whole number, or a Boolean that is read as one.
abbrev pub Number : Fields → String → ℤ → Type 0
Number raw key n =
    (find raw key ≡ some (int n))
    ⊎ ((find raw key ≡ some (bool true)) × (n ≡ pos 1))
    ⊎ ((find raw key ≡ some (bool false)) × (n ≡ pos 0))

-- A snapshot holds what the entry holds: each field is there, of its type.
pub record Holds (lookup : CuLookup) (raw : Fields) (c : ClientSnapshot) : Type 0 where
  pub mac : find raw "mac" ≡ some (text c.mac)
  pub ap_id : find raw "ap_mac" ≡ some (text c.ap_id)
  pub radio : find raw "radio" ≡ some (text c.radio)
  pub signal : Number raw "signal" c.signal
  pub tx_rate : Number raw "tx_rate" c.tx_rate_kbps
  pub tx_retries : Number raw "tx_retries" c.tx_retries
  pub wifi_tx_attempts : Number raw "wifi_tx_attempts" c.wifi_tx_attempts
  pub ap_cu_total : c.ap_cu_total ≡ cu_of lookup c.ap_id c.radio

-- One snapshot for each entry, in order.
abbrev pub Pairs : CuLookup → List Fields → List ClientSnapshot → Type 0
Pairs lookup [] [] = Unit
Pairs lookup (raw ∷ raws) (c ∷ cs) = Holds lookup raw c × Pairs lookup raws cs
Pairs lookup _ _ = false ≡ true

any_found-all :
    (raw : Fields) (keys : List String)
    → not (all (λ key. not (is_some (find raw key))) keys) ≡ any_found raw keys
any_found-all raw [] = refl
any_found-all raw (key ∷ keys) = ground (arith, any_found-all raw keys)

is_reporting-active : (raw : Fields) → is_reporting raw ≡ is_active raw
unfolding is_statless
is_reporting-active raw =
    ap (λ b. not (truthy (get raw "is_wired")) && b)
      (any_found-all raw
        ("ap_mac" ∷ "radio" ∷ "signal" ∷ "tx_rate" ∷ "tx_retries" ∷ "wifi_tx_attempts" ∷ []))

module _ (raw : Fields) (key : String) where
  text_found :
      (o : Option Value)
      → find raw key ≡ o
      → Ok (λ s. find raw key ≡ some (text s)) (require raw key as_text)
  unfolding require
  text_found (some (text s)) e = rw e (returned s refl)
  text_found none e = rw e (raised runtime_error)
  text_found (some _) e = rw e (raised runtime_error)

  whole_found : (o : Option Value) → find raw key ≡ o → Ok (Number raw key) (require raw key as_int)
  unfolding require
  whole_found (some (int n)) e = rw e (returned n (inl e))
  whole_found (some (bool true)) e = rw e (returned (pos 1) (inr (inl (e, refl))))
  whole_found (some (bool false)) e = rw e (returned (pos 0) (inr (inr (e, refl))))
  whole_found none e = rw e (raised runtime_error)
  whole_found (some _) e = rw e (raised runtime_error)

module _ (lookup : CuLookup) where
  entry_snapshot-Ok : (raw : Fields) → Ok (Holds lookup raw) (entry_snapshot lookup raw)
  unfolding snapshot
  entry_snapshot-Ok raw = text_found raw "mac" (find raw "mac") refl ▹ λ mac has_mac.
      text_found raw "ap_mac" (find raw "ap_mac") refl ▹ λ ap_mac has_ap.
      text_found raw "radio" (find raw "radio") refl ▹ λ radio has_radio.
      whole_found raw "signal" (find raw "signal") refl ▹ λ signal has_signal.
      whole_found raw "tx_rate" (find raw "tx_rate") refl ▹ λ rate has_rate.
      whole_found raw "tx_retries" (find raw "tx_retries") refl ▹ λ retries has_retries.
      whole_found raw "wifi_tx_attempts" (find raw "wifi_tx_attempts") refl
      ▹ λ attempts has_attempts. returned _ (record {
        mac = has_mac;
        ap_id = has_ap;
        radio = has_radio;
        signal = has_signal;
        tx_rate = has_rate;
        tx_retries = has_retries;
        wifi_tx_attempts = has_attempts;
        ap_cu_total = refl;
      })

  each-Pairs : (raws : List Fields) → Ok (Pairs lookup raws) (each (entry_snapshot lookup) raws)
  unfolding each
  each-Pairs [] = returned [] tt
  each-Pairs (raw ∷ raws) = entry_snapshot-Ok raw ▹ λ c holds.
      each-Pairs raws ▹ λ cs pairs. returned (c ∷ cs) (holds, pairs)

  -- Where `list_wireless_clients` answers, it answers one snapshot for each wireless entry that has one
  -- of the six statistics, in the table's order, and none for the others; each of those entries has
  -- its MAC and all six, of their types, and the snapshot holds them, with the channel utilization of
  -- its access point and radio. So a reporting entry with a field missing fails the whole listing.
  pub list_entries-Complete :
      (show : Value → String) (raws : List Fields) (w : Warned) (out : List ClientSnapshot)
      → (list_entries show lookup raws w).0 ≡ ok out
      → Pairs lookup (filter is_active raws) out
  list_entries-Complete show raws w out e =
      subst (λ (test : Fields → Bool). Pairs lookup (filter test raws) out)
        (fun_ext is_reporting-active)
        (Ok-holds (each-Pairs (filter is_reporting raws))
          (list_entries-reporting lookup show raws w out e))
