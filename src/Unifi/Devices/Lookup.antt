-- ===== src/Unifi/Devices/Lookup.antt =====
-- The lookup of the channel utilization, beside the rows that the access points report.
use wifi_shepard.Dict
use wifi_shepard.Load.Yaml.{Value, Fields}
use wifi_shepard.Prelude.{
  String, Bool, true, false, ◌&&◌, List, [], ◌∷◌, ◌++◌, map, ◌==◌, if◌then◌else◌, ℤ, pos, ◌≡◌, refl,
  sym, ap, ◌∙◌, Result, ok, ◌>>=◌, each, bind_assoc, bind_ext, Bool-cases, inl, inr, eq_iff,
}
use wifi_shepard.Unifi.Devices.{
  CuLookup, cu_of, note_cu, note_rows, note_ap, note_devices, build_cu_lookup, utilization, is_ap,
}
use wifi_shepard.Unifi.Schema.{as_text, require, rows}

-- One row of a device: the access point, the radio and the utilization.
abbrev pub Reading : Type 0
Reading = String × String × ℤ

abbrev tag : String → String × ℤ → Reading
tag ap_mac (radio, cu_total) = (ap_mac, radio, cu_total)

abbrev ap_readings : Fields → Result (List Reading)
ap_readings raw = do
  ap_mac ← require raw "mac" as_text
  stats ← rows raw "radio_table_stats"
  us ← each utilization stats
  ok (map (tag ap_mac) us)

-- All the rows of all the access points, in order.
unfoldable pub readings : List Fields → Result (List Reading)
readings [] = ok []
readings (raw ∷ rest) = do
  rs ← if is_ap raw then ap_readings raw else ok []
  later ← readings rest
  ok (rs ++ later)

-- The last utilization that is reported for a radio of an access point.
unfoldable pub latest : String → String → ℤ → List Reading → ℤ
latest ap_mac radio cu [] = cu
latest ap_mac radio cu ((a, r, n) ∷ rest) =
    latest ap_mac radio (if a == ap_mac && r == radio then n else cu) rest

note_all : List Reading → CuLookup → CuLookup
note_all [] lookup = lookup
note_all ((a, r, n) ∷ rest) lookup = note_all rest (note_cu lookup a r n)

cu_of-note_cu :
    (lookup : CuLookup) (a r : String) (n : ℤ) (ap_mac radio : String)
    → cu_of (note_cu lookup a r n) ap_mac radio
      ≡ (if a == ap_mac && r == radio then n else cu_of lookup ap_mac radio)
unfolding cu_of note_cu
cu_of-note_cu lookup a r n ap_mac radio = elim (Bool-cases (a == ap_mac)) [
  | inl e ↦ rw (Dict.get_or-put, e, Dict.get_or-put, (eq_iff a ap_mac).0 e) refl
  | inr e ↦ rw (Dict.get_or-put, e) refl
]

cu_of-empty : (ap_mac radio : String) → cu_of Dict.empty ap_mac radio ≡ pos 0
unfolding cu_of
cu_of-empty ap_mac radio = rw (Dict.get_or-empty, Dict.get_or-empty) refl

cu_of-note_all :
    (rs : List Reading) (lookup : CuLookup) (ap_mac radio : String)
    → cu_of (note_all rs lookup) ap_mac radio ≡ latest ap_mac radio (cu_of lookup ap_mac radio) rs
unfolding note_all latest
cu_of-note_all [] lookup ap_mac radio = refl
cu_of-note_all ((a, r, n) ∷ rest) lookup ap_mac radio =
    cu_of-note_all rest (note_cu lookup a r n) ap_mac radio
    ∙ ap (λ cu. latest ap_mac radio cu rest) (cu_of-note_cu lookup a r n ap_mac radio)

note_all-append :
    (rs later : List Reading) (lookup : CuLookup)
    → note_all (rs ++ later) lookup ≡ note_all later (note_all rs lookup)
unfolding note_all
note_all-append [] later lookup = refl
note_all-append ((a, r, n) ∷ rest) later lookup = note_all-append rest later (note_cu lookup a r n)

note_rows-each :
    (ap_mac : String) (stats : List Value) (lookup : CuLookup)
    → note_rows ap_mac stats lookup
      ≡ (each utilization stats >>= λ us. ok (note_all (map (tag ap_mac) us) lookup))
unfolding note_rows each note_all
note_rows-each ap_mac [] lookup = refl
note_rows-each ap_mac (row ∷ rest) lookup =
    bind_ext (utilization row) (λ u.
      note_rows-each ap_mac rest (note_cu lookup ap_mac (u.0) (u.1))
      ∙ sym (
          bind_assoc (each utilization rest) (λ us. ok (u ∷ us))
            (λ us. ok (note_all (map (tag ap_mac) us) lookup))))
    ∙ sym (bind_assoc (utilization row) _ _)

note_ap-readings :
    (raw : Fields) (lookup : CuLookup)
    → note_ap raw lookup ≡ (ap_readings raw >>= λ rs. ok (note_all rs lookup))
unfolding note_ap
note_ap-readings raw lookup =
    bind_ext (require raw "mac" as_text) (λ ap_mac.
      bind_ext (rows raw "radio_table_stats") (λ stats.
        note_rows-each ap_mac stats lookup ∙ sym (bind_assoc (each utilization stats) _ _))
      ∙ sym (bind_assoc (rows raw "radio_table_stats") _ _))
    ∙ sym (bind_assoc (require raw "mac" as_text) _ _)

device-readings :
    (b : Bool) (raw : Fields) (lookup : CuLookup)
    → (if b then note_ap raw lookup else ok lookup)
      ≡ ((if b then ap_readings raw else ok []) >>= λ rs. ok (note_all rs lookup))
unfolding note_all
device-readings true raw lookup = note_ap-readings raw lookup
device-readings false raw lookup = refl

note_devices-readings :
    (devices : List Fields) (lookup : CuLookup)
    → note_devices devices lookup ≡ (readings devices >>= λ rs. ok (note_all rs lookup))
unfolding note_devices readings note_all
note_devices-readings [] lookup = refl
note_devices-readings (raw ∷ rest) lookup =
    let own = if is_ap raw then ap_readings raw else ok [] in
    ap (λ r. r >>= note_devices rest) (device-readings (is_ap raw) raw lookup)
    ∙ bind_assoc own (λ rs. ok (note_all rs lookup)) (note_devices rest)
    ∙ bind_ext own (λ rs.
      note_devices-readings rest (note_all rs lookup)
      ∙ bind_ext (readings rest) (λ later. ap ok (sym (note_all-append rs later lookup)))
      ∙ sym (
          bind_assoc (readings rest) (λ later. ok (rs ++ later)) (λ all. ok (note_all all lookup))))
    ∙ sym (bind_assoc own _ _)

-- For every access point and radio, the channel utilization that a scan looks up is the last one
-- that the table of devices reports for them, 0 where it reports none; a malformed table raises the
-- exception of its first fault.
pub build_cu_lookup-latest :
    (devices : List Fields) (ap_mac radio : String)
    → (build_cu_lookup devices >>= λ lookup. ok (cu_of lookup ap_mac radio))
      ≡ (readings devices >>= λ rs. ok (latest ap_mac radio (pos 0) rs))
unfolding build_cu_lookup
build_cu_lookup-latest devices ap_mac radio =
    ap (λ r. r >>= λ lookup. ok (cu_of lookup ap_mac radio))
      (note_devices-readings devices Dict.empty)
    ∙ bind_assoc (readings devices) _ _
    ∙ bind_ext (readings devices) (λ rs. ap ok (
        cu_of-note_all rs Dict.empty ap_mac radio
        ∙ ap (λ cu. latest ap_mac radio cu rs) (cu_of-empty ap_mac radio)))
