-- ===== src/Ui/Schema/Devices.antt =====
-- wifi_shepard_ui/settings_schema.py: the fields of FIELDS for overrides, allowlist.
use wifi_shepard.Load.Yaml.{null, seq, nil}
use wifi_shepard.Prelude.{false, none, some, List, [], ◌∷◌, pos, negsuc}
use wifi_shepard.Ui.Schema.Kinds.{Kind, FieldSpec}

abbrev pub overrides_fields : List FieldSpec
overrides_fields =
    record {
      path = "overrides[].mac";
      label = "Device MAC";
      kind = Kind.mac;
      description = "The device these per-device settings apply to, by MAC address.";
      section = "overrides";
      default = null;
      unit = none;
      minimum = none;
      maximum = none;
      choices = none;
      secret = false;
      restart_required = false;
      blank_writes_null = false;
      yaml_path = none;
    }
    ∷ record {
      path = "overrides[].name";
      label = "Label";
      kind = Kind.string;
      description =
          "A name for your own benefit, so you can tell which device this row is — 'kitchen wled', 'back bedroom camera'. The daemon ignores it entirely; it only exists to keep the config readable.";
      section = "overrides";
      default = null;
      unit = none;
      minimum = none;
      maximum = none;
      choices = none;
      secret = false;
      restart_required = false;
      blank_writes_null = false;
      yaml_path = none;
    }
    ∷ record {
      path = "overrides[].tx_rate_kbps_max";
      label = "This device's data-rate threshold";
      kind = Kind.int_or_null;
      description =
          "This device's own data-rate threshold, replacing the global one. 'disabled' turns the rate check off for just this device; unset = use the global value.";
      section = "overrides";
      default = null;
      unit = some "kbps";
      minimum = some (pos 0);
      maximum = none;
      choices = none;
      secret = false;
      restart_required = false;
      blank_writes_null = false;
      yaml_path = none;
    }
    ∷ record {
      path = "overrides[].retry_pct_max";
      label = "This device's retry threshold";
      kind = Kind.int_or_null;
      description =
          "This device's own retry threshold. 'disabled' turns the retry check off for this device; unset = use the global value.";
      section = "overrides";
      default = null;
      unit = some "%";
      minimum = some (pos 0);
      maximum = some (pos 100);
      choices = none;
      secret = false;
      restart_required = false;
      blank_writes_null = false;
      yaml_path = none;
    }
    ∷ record {
      path = "overrides[].signal_dbm_max";
      label = "This device's signal threshold";
      kind = Kind.int_or_null;
      description =
          "This device's own signal threshold. 'disabled' turns the signal check off for this device; unset = use the global value.";
      section = "overrides";
      default = null;
      unit = some "dBm";
      minimum = some (negsuc 99);
      maximum = some (pos 0);
      choices = none;
      secret = false;
      restart_required = false;
      blank_writes_null = false;
      yaml_path = none;
    }
    ∷ record {
      path = "overrides[].ap_cu_total_min";
      label = "This device's AP-busy floor";
      kind = Kind.int_or_null;
      description =
          "This device's own 'only act when its AP is at least this busy' floor. Unset = use the global value.";
      section = "overrides";
      default = null;
      unit = some "%";
      minimum = some (pos 0);
      maximum = some (pos 100);
      choices = none;
      secret = false;
      restart_required = false;
      blank_writes_null = false;
      yaml_path = none;
    }
    ∷ record {
      path = "overrides[].kick_mechanism";
      label = "This device's nudge method";
      kind = Kind.enum;
      description = "How to nudge THIS device specifically. Unset = use the global mechanism.";
      section = "overrides";
      default = null;
      unit = none;
      minimum = none;
      maximum = none;
      choices = some ("deauth" ∷ "btm" ∷ "auto" ∷ []);
      secret = false;
      restart_required = false;
      blank_writes_null = false;
      yaml_path = none;
    }
    ∷ record {
      path = "overrides[].max_kicks_per_hour";
      label = "This device's hourly nudge cap";
      kind = Kind.int_or_null;
      description = "This device's own hourly nudge cap. Unset = use the global cap.";
      section = "overrides";
      default = null;
      unit = none;
      minimum = some (pos 0);
      maximum = none;
      choices = none;
      secret = false;
      restart_required = false;
      blank_writes_null = false;
      yaml_path = none;
    }
    ∷ record {
      path = "overrides[].max_kicks_per_day";
      label = "This device's daily nudge cap";
      kind = Kind.int_or_null;
      description = "This device's own daily nudge cap. Unset = use the global cap.";
      section = "overrides";
      default = null;
      unit = none;
      minimum = some (pos 0);
      maximum = none;
      choices = none;
      secret = false;
      restart_required = false;
      blank_writes_null = false;
      yaml_path = none;
    }
    ∷ record {
      path = "overrides[].dns_same_domain_queries_max";
      label = "This device's DNS-lookup limit";
      kind = Kind.int_or_null;
      description =
          "This device's own same-address DNS-lookup limit for the reconnect-loop detector. Unset = use the global value.";
      section = "overrides";
      default = null;
      unit = none;
      minimum = some (pos 0);
      maximum = none;
      choices = none;
      secret = false;
      restart_required = false;
      blank_writes_null = false;
      yaml_path = none;
    }
    ∷ []

abbrev pub allowlist_fields : List FieldSpec
allowlist_fields =
    record {
      path = "allowlist";
      label = "Never-touch devices";
      kind = Kind.mac_list;
      description =
          "Devices that are NEVER nudged or rebooted, by MAC. Match exactly, in lowercase, to match how the controller reports them.";
      section = "allowlist";
      default = seq nil;
      unit = none;
      minimum = none;
      maximum = none;
      choices = none;
      secret = false;
      restart_required = false;
      blank_writes_null = false;
      yaml_path = none;
    }
    ∷ []
