-- ===== src/Load/Rails.antt =====
-- wifi_shepard/config.py: the blocks `safety_rails`, `detection.inactivity` and
-- `detection.dns_thrash`.
use wifi_shepard.Config.{SafetyRailsConfig, InactivityConfig, DnsThrashConfig}
use wifi_shepard.Load.Checks.{
  require_non_negative_int, require_bool, require_mac, require_sequence, require_mapping,
}
use wifi_shepard.Load.Yaml.{Value, Fields, null, bool, int, mapping, get, get_or}
use wifi_shepard.Prelude.{
  ℕ, String, Bool, true, false, ◌&&◌, Option, none, some, [], ltb, pos, Result, ◌>>=◌, ok, raise,
  value_error, attribute_error, each,
}

-- `_require_non_negative_int(raw.get(key, default), …)`
unfoldable pub count_field : Fields → String → ℕ → Result ℕ
count_field raw key default = require_non_negative_int (get_or raw key (int (pos default)))

-- `if condition: raise ValueError`
abbrev pub refuse {ℓ} : {A : Type ℓ} → Bool → Result A → Result A
refuse true next = raise value_error
refuse false next = next

abbrev pub reject : Bool → Result (Unit {0})
reject condition = refuse condition (ok tt)

unfoldable pub safety_rails_of : Fields → Result SafetyRailsConfig
unfolding count_field
safety_rails_of raw = do
  seconds ← count_field raw "min_seconds_between_kicks" 0
  kicks ← count_field raw "max_kicks_per_ap_per_window" 0
  window ← count_field raw "per_ap_window_seconds" 600
  refuse (ltb 0 kicks && ltb window 1) (
      ok (record {
        min_seconds_between_kicks = seconds;
        max_kicks_per_ap_per_window = kicks;
        per_ap_window_seconds = window;
      }))

-- A block that is no mapping has no `get`.
unfoldable pub build_safety_rails : Value → Result SafetyRailsConfig
unfolding safety_rails_of
build_safety_rails null = ok (record {
  min_seconds_between_kicks = 0;
  max_kicks_per_ap_per_window = 0;
  per_ap_window_seconds = 600;
})
build_safety_rails (mapping raw) = safety_rails_of raw
build_safety_rails _ = raise attribute_error

unfoldable pub inactivity_of : Fields → Result InactivityConfig
unfolding count_field
inactivity_of raw = do
  enabled ← require_bool (get_or raw "enabled" (bool false))
  bytes ← count_field raw "min_bytes_per_window" 1024
  samples ← count_field raw "window_samples" 30
  refuse (enabled && ltb samples 1) (do
    items ← require_sequence (get raw "macs")
    macs ← each require_mac items
    ok (record {
      enabled = enabled;
      min_bytes_per_window = bytes;
      window_samples = samples;
      macs = macs;
    }))

unfoldable pub build_inactivity : Value → Result InactivityConfig
unfolding inactivity_of
build_inactivity null =
    ok (record { enabled = false; min_bytes_per_window = 1024; window_samples = 30; macs = [] })
build_inactivity raw = do fields ← require_mapping raw; inactivity_of fields

unfoldable pub dns_thrash_of : Fields → Result (Option DnsThrashConfig)
unfolding count_field
dns_thrash_of raw = do
  queries ← count_field raw "same_domain_queries_max" 20
  minutes ← count_field raw "window_minutes" 60
  windows ← count_field raw "sustain_windows" 2
  refuse (ltb minutes 1) (
      refuse (ltb windows 1) (
        ok (
          some (record {
            same_domain_queries_max = queries;
            window_minutes = minutes;
            sustain_windows = windows;
          }))))

unfoldable pub build_dns_thrash : Value → Result (Option DnsThrashConfig)
unfolding dns_thrash_of
build_dns_thrash null = ok none
build_dns_thrash raw = do fields ← require_mapping raw; dns_thrash_of fields
