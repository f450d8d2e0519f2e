-- ===== src/Load/RebootBlock.antt =====
-- wifi_shepard/config.py: the block `reboot` with its sub-blocks. `str()` of a value of a closed set
-- is the value itself.
use wifi_shepard.Config.{
  RebootConfig, RebootOverride, RebootCooldownConfig, RebootProbeConfig, RebootReactiveConfig,
}
use wifi_shepard.Load.Checks.{
  require_bool, require_sequence, require_mapping, require_text, require_one_of, is_mac,
}
use wifi_shepard.Load.Hours.{build_reboot_proactive}
use wifi_shepard.Load.Rails.{count_field}
use wifi_shepard.Load.Yaml.{Value, Fields, null, bool, text, get, get_or}
use wifi_shepard.Prelude.{
  String, true, false, Option, none, some, List, [], ◌∷◌, if◌then◌else◌, Result, ◌>>=◌, ok, raise,
  value_error, each,
}

cooldown_of : Fields → Result RebootCooldownConfig
unfolding count_field
cooldown_of raw = do
  seconds ← count_field raw "per_device_seconds" 3600
  per_day ← count_field raw "max_per_device_per_day" 4
  ok (record { per_device_seconds = seconds; max_per_device_per_day = per_day })

unfoldable pub build_reboot_cooldown : Value → Result RebootCooldownConfig
unfolding cooldown_of
build_reboot_cooldown null = ok (record { per_device_seconds = 3600; max_per_device_per_day = 4 })
build_reboot_cooldown raw = do fields ← require_mapping raw; cooldown_of fields

probe_of : Fields → Result RebootProbeConfig
unfolding count_field
probe_of raw = do
  method ← require_one_of ("ping" ∷ "http" ∷ []) (get_or raw "method" (text "ping"))
  interval ← count_field raw "interval_seconds" 60
  samples ← count_field raw "window_samples" 5
  loss ← count_field raw "loss_pct_min" 30
  ok (record {
    method = method;
    interval_seconds = interval;
    window_samples = samples;
    loss_pct_min = loss;
  })

abbrev pub default_probe : RebootProbeConfig
default_probe = record {
  method = "ping";
  interval_seconds = 60;
  window_samples = 5;
  loss_pct_min = 30;
}

build_probe : Value → Result RebootProbeConfig
unfolding probe_of
build_probe null = ok default_probe
build_probe raw = do fields ← require_mapping raw; probe_of fields

reactive_of : Fields → Result RebootReactiveConfig
unfolding build_probe count_field
reactive_of raw = do
  probe ← build_probe (get raw "probe")
  enabled ← require_bool (get_or raw "enabled" (bool false))
  adequate ← require_bool (get_or raw "require_signal_adequate" (bool true))
  kicks ← count_field raw "after_failed_kicks" 2
  ok (record {
    enabled = enabled;
    probe = probe;
    require_signal_adequate = adequate;
    after_failed_kicks = kicks;
  })

unfoldable pub build_reboot_reactive : Value → Result RebootReactiveConfig
unfolding reactive_of
build_reboot_reactive null = ok (record {
  enabled = false;
  probe = default_probe;
  require_signal_adequate = true;
  after_failed_kicks = 2;
})
build_reboot_reactive raw = do fields ← require_mapping raw; reactive_of fields

-- A valid MAC, kept as it is written.
unfoldable pub require_raw_mac : Value → Result String
require_raw_mac (text s) = if is_mac s then ok s else raise value_error
require_raw_mac _ = raise value_error

abbrev pub require_optional_text : Value → Result (Option String)
require_optional_text null = ok none
require_optional_text (text s) = ok (some s)
require_optional_text _ = raise value_error

unfoldable pub reboot_override_of : Value → Result RebootOverride
reboot_override_of row = do
  raw ← require_mapping row
  mac ← require_raw_mac (get raw "mac")
  entity ← require_text (get raw "ha_entity")
  name ← require_optional_text (get raw "name")
  ok (record { mac = mac; name = name; ha_entity = some entity })

-- `_require_mapping_items`, which looks at all rows before the first one is read
unfoldable pub require_mapping_items : List Value → Result (List Fields)
require_mapping_items rows = each require_mapping rows

unfoldable pub reboot_of : Fields → Result RebootConfig
unfolding build_reboot_cooldown build_reboot_proactive build_reboot_reactive
reboot_of raw = do
  enabled ← require_bool (get_or raw "enabled" (bool false))
  resolver ← require_one_of ("home_assistant" ∷ []) (get_or raw "resolver" (text "home_assistant"))
  eligible_items ← require_sequence (get raw "eligible")
  eligible ← each require_raw_mac eligible_items
  override_items ← require_sequence (get raw "overrides")
  _ ← require_mapping_items override_items
  overrides ← each reboot_override_of override_items
  dry_run ← require_bool (get_or raw "dry_run" (bool true))
  cooldown ← build_reboot_cooldown (get raw "cooldown")
  proactive ← build_reboot_proactive (get raw "proactive")
  reactive ← build_reboot_reactive (get raw "reactive")
  ok (record {
    enabled = enabled;
    resolver = resolver;
    dry_run = dry_run;
    eligible = eligible;
    overrides = overrides;
    cooldown = cooldown;
    proactive = proactive;
    reactive = reactive;
  })

unfoldable pub build_reboot : Value → Result RebootConfig
unfolding reboot_of build_reboot_cooldown build_reboot_proactive build_reboot_reactive
build_reboot null = do
  cooldown ← build_reboot_cooldown null
  proactive ← build_reboot_proactive null
  reactive ← build_reboot_reactive null
  ok (record {
    enabled = false;
    resolver = "home_assistant";
    dry_run = true;
    eligible = [];
    overrides = [];
    cooldown = cooldown;
    proactive = proactive;
    reactive = reactive;
  })
build_reboot raw = do fields ← require_mapping raw; reboot_of fields
