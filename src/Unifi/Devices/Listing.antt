-- ===== src/Unifi/Devices/Listing.antt =====
-- The two listings of the access points.
use wifi_shepard.Controller.{ApSnapshot, ApStats}
use wifi_shepard.Load.Yaml.{Value, Fields, get}
use wifi_shepard.Prelude.{
  String, Option, List, [], ◌∷◌, map, ◌≡◌, refl, ok, each, filter, Ok, returned, ◌▹◌, trivially,
  Ok-holds, known-Ok,
}
use wifi_shepard.Unifi.Devices.{
  ap_of, ap_stats_of, list_aps, list_ap_stats, is_ap, radios_of, system_stats,
}
use wifi_shepard.Unifi.Schema.{as_text, require}

abbrev pub identity : ApStats → ApSnapshot
identity a = record { id = a.id; name = a.name; mac = a.mac }

module _ (show : Value → String) (float : String → Option Value) where
  ap_stats_of-Ok :
      (raw : Fields) → Ok (λ a. ap_of raw ≡ ok (identity a)) (ap_stats_of show float raw)
  unfolding ap_stats_of ap_of
  ap_stats_of-Ok raw = known-Ok (require raw "mac" as_text) ▹ λ mac e.
      trivially (radios_of raw) ▹ λ radios _.
      trivially (system_stats (get raw "system-stats")) ▹ λ system _. returned _ (rw e refl)

  each-Ok :
      (raws : List Fields)
      → Ok (λ out. each ap_of raws ≡ ok (map identity out)) (each (ap_stats_of show float) raws)
  unfolding each
  each-Ok [] = returned [] refl
  each-Ok (raw ∷ rest) =
      ap_stats_of-Ok raw ▹ λ a e. each-Ok rest ▹ λ found e'. returned (a ∷ found) (rw (e, e') refl)

  -- Where the health of the access points is listed, `list_aps` on the same table lists the same
  -- access points in the same order, with the same ids, names and MACs.
  pub list_ap_stats-list_aps :
      (devices : List Fields) (out : List ApStats)
      → list_ap_stats show float devices ≡ ok out
      → list_aps devices ≡ ok (map identity out)
  unfolding list_aps list_ap_stats
  list_ap_stats-list_aps devices out e = Ok-holds (each-Ok (filter is_ap devices)) e
