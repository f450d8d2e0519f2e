-- ===== src/Unifi/Clients/Reporting.antt =====
-- Which entries of the controller's table `list_wireless_clients` answers.
use wifi_shepard.Controller.{ClientSnapshot}
use wifi_shepard.Load.Yaml.{Value, Fields, get, truthy}
use wifi_shepard.Prelude.{
  String, Bool, true, false, not, ◌&&◌, List, [], ◌∷◌, ◌≡◌, refl, Result, ok, raise, ◌>>=◌, each,
  filter, Ok, raised, returned, Ok-holds, if◌then◌else◌,
}
use wifi_shepard.Unifi.Clients.{
  Answer, Warned, appended, discard, is_statless, list_entries, listed, snapshot, warned, ident_of,
  warn,
}
use wifi_shepard.Unifi.Devices.{CuLookup}
use wifi_shepard.Unifi.Schema.{as_text, require}

-- A wireless entry with one of the statistics at least.
abbrev pub is_reporting : Fields → Bool
is_reporting raw = not (truthy (get raw "is_wired")) && not (is_statless raw)

abbrev pub entry_snapshot : CuLookup → Fields → Result ClientSnapshot
entry_snapshot lookup raw = do mac ← require raw "mac" as_text; snapshot lookup raw mac

module _ (lookup : CuLookup) where
  abbrev Answers : List Fields → List ClientSnapshot → Type 0
  Answers raws out = each (entry_snapshot lookup) (filter is_reporting raws) ≡ ok out

  warned-Ok :
      {P : List ClientSnapshot → Type 0}
      → (r : Result String) (w : Warned) (next : Warned → Answer)
      → ((w' : Warned) → Ok P (next w').0)
      → Ok P (warned r w next).0
  warned-Ok (raise e) w next k = raised e
  warned-Ok (ok ident) w next k = k (warn ident w)

  collect-Ok :
      (c : ClientSnapshot) (raws : List Fields) (r : Result (List ClientSnapshot))
      → Ok (Answers raws) r
      → Ok
          (λ out.
            (do cs ← each (entry_snapshot lookup) (filter is_reporting raws); ok (c ∷ cs)) ≡ ok out)
          (do cs ← r; ok (c ∷ cs))
  collect-Ok c raws (raise e) k = raised e
  collect-Ok c raws (ok cs) k = returned (c ∷ cs) (rw (Ok-holds k refl) refl)

  appended-Ok :
      (r : Result ClientSnapshot) (raws : List Fields) (w : Warned) (next : Warned → Answer)
      → ((w' : Warned) → Ok (Answers raws) (next w').0)
      → Ok
          (λ out.
            (do c ← r; cs ← each (entry_snapshot lookup) (filter is_reporting raws); ok (c ∷ cs))
            ≡ ok out)
          (appended r w next).0
  appended-Ok (raise e) raws w next k = raised e
  appended-Ok (ok c) raws w next k = collect-Ok c raws (next w).0 (k w)

  listed-Ok :
      (raw : Fields) (r : Result String) (raws : List Fields) (w : Warned) (next : Warned → Answer)
      → ((w' : Warned) → Ok (Answers raws) (next w').0)
      → Ok
          (λ out.
            (do
              c ← (do mac ← r; snapshot lookup raw mac)
              cs ← each (entry_snapshot lookup) (filter is_reporting raws)
              ok (c ∷ cs))
            ≡ ok out)
          (listed lookup raw r w next).0
  listed-Ok raw (raise e) raws w next k = raised e
  listed-Ok raw (ok mac) raws w next k =
      appended-Ok (snapshot lookup raw mac) raws (discard mac w) next k

  module _ (show : Value → String) (raw : Fields) (rest : List Fields) where
    entry-Ok :
        (wired bare : Bool) (w : Warned)
        → ((w' : Warned) → Ok (Answers rest) (list_entries show lookup rest w').0)
        → Ok
            (λ out.
              each (entry_snapshot lookup) (
                if not wired && not bare
                then raw ∷ filter is_reporting rest
                else filter is_reporting rest)
              ≡ ok out)
            (if wired
              then list_entries show lookup rest w
              else if bare
              then warned (ident_of show raw) w (list_entries show lookup rest)
              else listed lookup raw
                  (require raw "mac" as_text)
                  w
                  (list_entries show lookup rest)).0
    unfolding each
    entry-Ok true bare w next = next w
    entry-Ok false true w next =
        warned-Ok (ident_of show raw) w (list_entries show lookup rest) next
    entry-Ok false false w next =
        listed-Ok raw (require raw "mac" as_text) rest w (list_entries show lookup rest) next

  list_entries-Ok :
      (show : Value → String) (raws : List Fields) (w : Warned)
      → Ok (Answers raws) (list_entries show lookup raws w).0
  unfolding list_entries each
  list_entries-Ok show [] w = returned [] refl
  list_entries-Ok show (raw ∷ rest) w =
      entry-Ok show raw rest (truthy (get raw "is_wired")) (is_statless raw) w
        (list_entries-Ok show rest)

  -- What `list_wireless_clients` answers is the snapshots of exactly the wireless entries with a
  -- statistic, in the table's order: where one of them lacks a field or has one of a wrong type,
  -- nothing is answered.
  pub list_entries-reporting :
      (show : Value → String) (raws : List Fields) (w : Warned) (out : List ClientSnapshot)
      → (list_entries show lookup raws w).0 ≡ ok out
      → each (entry_snapshot lookup) (filter is_reporting raws) ≡ ok out
  list_entries-reporting show raws w out e = Ok-holds (list_entries-Ok show raws w) e
