-- ===== src/Load/Hours.antt =====
-- wifi_shepard/config.py: the block `quiet_hours`, and the schedule of `reboot.proactive`. Whether
-- `ZoneInfo` knows a zone is the parameter `zone_ok`.
use wifi_shepard.Config.{QuietHoursConfig, RebootProactiveConfig}
use wifi_shepard.Load.Checks.{require_bool, require_mapping, require_text}
use wifi_shepard.Load.Yaml.{Value, Fields, null, bool, int, text, end, field, get, get_or, truthy}
use wifi_shepard.Prelude.{
  ℕ, String, Bool, false, ◌&&◌, ◌||◌, Option, none, some, List, ◌∷◌, ◌==◌, leb, if◌then◌else◌, ℤ,
  pos, negsuc, Result, ◌>>=◌, ok, raise, value_error, codes, is_code, at_end, is_some, decimal,
}

-- `_SCHEDULE_PATTERN`
unfoldable pub is_schedule_code : List ℕ → Bool
is_schedule_code (h ∷ h' ∷ colon ∷ m ∷ m' ∷ rest) =
    (((is_code h b'0' || is_code h b'1') && is_some (decimal h'))
      || (is_code h b'2' && (leb b'0' h' && leb h' b'3')))
    && is_code colon b':'
    && (leb b'0' m && leb m b'5')
    && is_some (decimal m')
    && at_end rest
is_schedule_code _ = false

unfoldable pub is_schedule : String → Bool
is_schedule s = is_schedule_code (codes s)

unfoldable pub require_schedule : Value → Result String
require_schedule (text s) = if is_schedule s then ok s else raise value_error
require_schedule _ = raise value_error

unfoldable pub proactive_of : Fields → Result RebootProactiveConfig
proactive_of raw = do
  schedule ← require_schedule (get_or raw "schedule" (text "03:30"))
  enabled ← require_bool (get_or raw "enabled" (bool false))
  ok (record { enabled = enabled; schedule = schedule })

unfoldable pub build_reboot_proactive : Value → Result RebootProactiveConfig
unfolding proactive_of
build_reboot_proactive null = ok (record { enabled = false; schedule = "03:30" })
build_reboot_proactive raw = do fields ← require_mapping raw; proactive_of fields

-- The dict `thresholds`.
pub record OverrideThresholds : Type 0 where
  pub tx_rate_kbps_max : Option ℤ
  pub retry_pct_max : Option ℤ
  pub signal_dbm_max : Option ℤ

-- One round of the loop over `override_threshold`; only the signal may be negative.
unfoldable pub set_threshold : String → Value → OverrideThresholds → Result OverrideThresholds
set_threshold key (int (pos n)) t =
    if key == "tx_rate_kbps_max"
    then ok (record t { tx_rate_kbps_max = some (pos n) })
    else if key == "retry_pct_max"
    then ok (record t { retry_pct_max = some (pos n) })
    else if key == "signal_dbm_max"
    then ok (record t { signal_dbm_max = some (pos n) })
    else raise value_error
set_threshold key (int (negsuc n)) t =
    if key == "signal_dbm_max"
    then ok (record t { signal_dbm_max = some (negsuc n) })
    else raise value_error
set_threshold key _ t = raise value_error

unfoldable pub set_thresholds : Fields → OverrideThresholds → Result OverrideThresholds
set_thresholds end t = ok t
set_thresholds (field key value rest) t = do t' ← set_threshold key value t; set_thresholds rest t'

-- `raw.get("override_threshold") or {}`
override_fields : Value → Result Fields
override_fields v = if truthy v then require_mapping v else ok end

module _ (zone_ok : String → Bool) where
  -- `ZoneInfo(timezone)`, then the dict of the thresholds
  unfoldable pub known_zone : String → Value → Result Fields
  unfolding override_fields
  known_zone zone v = if zone_ok zone then override_fields v else raise value_error

  unfoldable pub quiet_hours_of : Fields → Result (Option QuietHoursConfig)
  unfolding known_zone
  quiet_hours_of raw = do
    start ← require_text (get raw "start")
    stop ← require_text (get raw "end")
    zone ← require_text (get raw "timezone")
    first ← require_schedule (text start)
    last ← require_schedule (text stop)
    fields ← known_zone zone (get raw "override_threshold")
    t ←
        set_thresholds fields
          (record { tx_rate_kbps_max = none; retry_pct_max = none; signal_dbm_max = none })
    ok (
        some (record {
          start_time = first;
          end_time = last;
          timezone = zone;
          tx_rate_kbps_max = t.tx_rate_kbps_max;
          retry_pct_max = t.retry_pct_max;
          signal_dbm_max = t.signal_dbm_max;
        }))

  unfoldable pub build_quiet_hours : Value → Result (Option QuietHoursConfig)
  unfolding quiet_hours_of
  build_quiet_hours null = ok none
  build_quiet_hours raw = do fields ← require_mapping raw; quiet_hours_of fields
