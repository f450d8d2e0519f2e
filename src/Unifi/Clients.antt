-- ===== src/Unifi/Clients.antt =====
-- wifi_shepard/controllers/unifi.py: `list_wireless_clients`, with the set of the clients that were
-- warned about and the warnings that were logged.
pub mod Complete
pub mod Reporting
pub mod Warnings
use wifi_shepard.Controller.{ClientSnapshot}
use wifi_shepard.Load.Yaml.{Value, Fields, null, text, seq, mapping, find, get, truthy}
use wifi_shepard.Prelude.{
  String, Bool, true, false, not, Option, none, some, List, [], ◌∷◌, ◌++◌, ◌==◌, ◌&&◌,
  if◌then◌else◌, contains, filter, Result, ok, raise, ◌>>=◌, type_error, is_blank, is_some, all,
}
use wifi_shepard.Unifi.Devices.{CuLookup, cu_of}
use wifi_shepard.Unifi.Schema.{as_text, as_int, require, optional_int}

abbrev pub client_stat_keys : List String
client_stat_keys =
    "ap_mac" ∷ "radio" ∷ "signal" ∷ "tx_rate" ∷ "tx_retries" ∷ "wifi_tx_attempts" ∷ []

-- `key not in raw` for every key of the statistics
unfoldable pub is_statless : Fields → Bool
is_statless raw = all (λ key. not (is_some (find raw key))) client_stat_keys

-- `_incomplete_warned`, and the clients of the warnings `client_snapshot_incomplete`.
pub record Warned : Type 0 where
  pub incomplete : List String
  pub log : List String

-- `a or b`
abbrev pub or_else : Value → Value → Value
or_else a b = if truthy a then a else b

unfoldable pub name_of : Fields → Value
name_of raw = or_else (or_else (get raw "name") (get raw "hostname")) null

unfoldable pub ip_of : Fields → Option String
ip_of raw = elim (get raw "ip") [ text s ↦ (if is_blank s then none else some s) | _ ↦ none ]

-- The snapshot of an entry whose MAC was read.
unfoldable pub snapshot : CuLookup → Fields → String → Result ClientSnapshot
snapshot lookup raw mac = do
  ap_mac ← require raw "ap_mac" as_text
  radio ← require raw "radio" as_text
  signal ← require raw "signal" as_int
  tx_rate ← require raw "tx_rate" as_int
  tx_retries ← require raw "tx_retries" as_int
  wifi_tx_attempts ← require raw "wifi_tx_attempts" as_int
  ok (record {
    mac = mac;
    signal = signal;
    tx_rate_kbps = tx_rate;
    tx_retries = tx_retries;
    wifi_tx_attempts = wifi_tx_attempts;
    radio = radio;
    ap_id = ap_mac;
    ap_cu_total = cu_of lookup ap_mac radio;
    name = name_of raw;
    tx_bytes = optional_int raw "tx_bytes";
    rx_bytes = optional_int raw "rx_bytes";
    ip = ip_of raw;
  })

-- `set.add` and `set.discard`
abbrev pub discard : String → Warned → Warned
discard mac w = record w { incomplete = filter (λ x. not (x == mac)) w.incomplete }

unfoldable pub warn : String → Warned → Warned
warn ident w =
    if contains ident w.incomplete
    then w
    else record { incomplete = ident ∷ w.incomplete; log = w.log ++ ident ∷ [] }

abbrev pub Answer : Type 0
Answer = Result (List ClientSnapshot) × Warned

abbrev pub warned : Result String → Warned → (Warned → Answer) → Answer
warned (raise e) w next = (raise e, w)
warned (ok ident) w next = next (warn ident w)

abbrev pub appended : Result ClientSnapshot → Warned → (Warned → Answer) → Answer
appended (raise e) w next = (raise e, w)
appended (ok c) w next = let (r, w') = next w in ((do cs ← r; ok (c ∷ cs)), w')

abbrev pub listed : CuLookup → Fields → Result String → Warned → (Warned → Answer) → Answer
listed lookup raw (raise e) w next = (raise e, w)
listed lookup raw (ok mac) w next = appended (snapshot lookup raw mac) (discard mac w) next

module _ (show : Value → String) where
  -- An element of the set: a list or an object has no hash, and a scalar that is no text is told
  -- apart by the parameter `show`.
  abbrev pub element : Value → Result String
  element (text s) = ok s
  element (seq _) = raise type_error
  element (mapping _) = raise type_error
  element v = ok (show v)

  unfoldable pub ident_of : Fields → Result String
  ident_of raw = element (or_else (or_else (get raw "mac") (get raw "hostname")) (text "<unknown>"))

  -- The loop over the entries, with what follows an entry as its continuation.
  unfoldable pub list_entries : CuLookup → List Fields → Warned → Answer
  list_entries lookup [] w = (ok [], w)
  list_entries lookup (raw ∷ rest) w =
      let next = list_entries lookup rest in
      if truthy (get raw "is_wired")
      then next w
      else if is_statless raw
      then warned (ident_of raw) w next
      else listed lookup raw (require raw "mac" as_text) w next
