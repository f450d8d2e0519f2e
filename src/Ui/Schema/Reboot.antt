-- ===== src/Ui/Schema/Reboot.antt =====
-- wifi_shepard_ui/settings_schema.py: the fields of FIELDS for reboot, reboot_gates.
use wifi_shepard.Load.Yaml.{null, bool, int, text, seq, nil}
use wifi_shepard.Prelude.{true, false, none, some, List, [], ◌∷◌, pos}
use wifi_shepard.Ui.Schema.Kinds.{Kind, FieldSpec}

abbrev pub reboot_fields : List FieldSpec
reboot_fields =
    record {
      path = "reboot.enabled";
      label = "Enable reboots";
      kind = Kind.bool;
      description =
          "Turn the reboot feature on or off. Turning it on or off takes effect after a daemon restart.";
      section = "reboot";
      default = bool false;
      unit = none;
      minimum = none;
      maximum = none;
      choices = none;
      secret = false;
      restart_required = true;
      blank_writes_null = false;
      yaml_path = none;
    }
    ∷ record {
      path = "reboot.resolver";
      label = "How reboots are resolved";
      kind = Kind.enum;
      description =
          "Who figures out HOW to reboot a device. Only 'home_assistant' is supported — Home Assistant maps the device to its restart button or a smart-plug outlet.";
      section = "reboot";
      default = text "home_assistant";
      unit = none;
      minimum = none;
      maximum = none;
      choices = some ("home_assistant" ∷ []);
      secret = false;
      restart_required = true;
      blank_writes_null = false;
      yaml_path = none;
    }
    ∷ record {
      path = "reboot.dry_run";
      label = "Reboot dry run";
      kind = Kind.bool;
      description =
          "Like the master safety switch, but for reboots: when ON, log what WOULD be rebooted without actually doing it.";
      section = "reboot";
      default = bool true;
      unit = none;
      minimum = none;
      maximum = none;
      choices = none;
      secret = false;
      restart_required = false;
      blank_writes_null = false;
      yaml_path = none;
    }
    ∷ record {
      path = "reboot.eligible";
      label = "Devices allowed to be rebooted";
      kind = Kind.mac_list;
      description =
          "The ONLY devices allowed to be rebooted, by MAC. Nothing is ever rebooted unless it's on this list. An allowlisted device is never rebooted, even if you list it here.";
      section = "reboot";
      default = seq nil;
      unit = none;
      minimum = none;
      maximum = none;
      choices = none;
      secret = false;
      restart_required = false;
      blank_writes_null = false;
      yaml_path = none;
    }
    ∷ record {
      path = "reboot.overrides[].mac";
      label = "Device MAC";
      kind = Kind.mac;
      description = "The device this explicit reboot target applies to.";
      section = "reboot";
      default = null;
      unit = none;
      minimum = none;
      maximum = none;
      choices = none;
      secret = false;
      restart_required = false;
      blank_writes_null = false;
      yaml_path = none;
    }
    ∷ record {
      path = "reboot.overrides[].name";
      label = "Friendly name";
      kind = Kind.string;
      description = "An optional label for the device, for your own reference.";
      section = "reboot";
      default = null;
      unit = none;
      minimum = none;
      maximum = none;
      choices = none;
      secret = false;
      restart_required = false;
      blank_writes_null = false;
      yaml_path = none;
    }
    ∷ record {
      path = "reboot.overrides[].ha_entity";
      label = "Home Assistant switch/button";
      kind = Kind.string;
      description =
          "The Home Assistant switch or button entity to toggle to reboot this device, for example 'switch.kitchen_plug'. Only needed for devices Home Assistant can't resolve on its own.";
      section = "reboot";
      default = null;
      unit = none;
      minimum = none;
      maximum = none;
      choices = none;
      secret = false;
      restart_required = false;
      blank_writes_null = false;
      yaml_path = none;
    }
    ∷ []

abbrev pub reboot_gates_fields : List FieldSpec
reboot_gates_fields =
    record {
      path = "reboot.cooldown.per_device_seconds";
      label = "Minimum time between reboots of one device";
      kind = Kind.int;
      description =
          "Minimum time between reboots of the SAME device, in seconds. 3600 = at most once an hour. 0 = off.";
      section = "reboot";
      default = int (pos 3600);
      unit = some "seconds";
      minimum = some (pos 0);
      maximum = none;
      choices = none;
      secret = false;
      restart_required = false;
      blank_writes_null = false;
      yaml_path = none;
    }
    ∷ record {
      path = "reboot.cooldown.max_per_device_per_day";
      label = "Max reboots per device per day";
      kind = Kind.int;
      description = "The most times one device can be rebooted in a rolling 24 hours.";
      section = "reboot";
      default = int (pos 4);
      unit = none;
      minimum = some (pos 0);
      maximum = none;
      choices = none;
      secret = false;
      restart_required = false;
      blank_writes_null = false;
      yaml_path = none;
    }
    ∷ record {
      path = "reboot.proactive.enabled";
      label = "Scheduled reboots";
      kind = Kind.bool;
      description =
          "Reboot eligible devices on a fixed daily schedule, whether or not they're currently misbehaving. Turning it on or off takes effect after a restart.";
      section = "reboot";
      default = bool false;
      unit = none;
      minimum = none;
      maximum = none;
      choices = none;
      secret = false;
      restart_required = true;
      blank_writes_null = false;
      yaml_path = none;
    }
    ∷ record {
      path = "reboot.proactive.schedule";
      label = "Daily reboot time";
      kind = Kind.time_hhmm;
      description = "The daily time to run scheduled reboots, as 24-hour HH:MM local time.";
      section = "reboot";
      default = text "03:30";
      unit = none;
      minimum = none;
      maximum = none;
      choices = none;
      secret = false;
      restart_required = false;
      blank_writes_null = false;
      yaml_path = none;
    }
    ∷ record {
      path = "reboot.reactive.enabled";
      label = "Reactive reboots (reserved)";
      kind = Kind.bool;
      description =
          "Reserved for a future version: reboot a device when active reachability probes show it's unreachable. Not active yet — editing these reactive settings has no effect in this version.";
      section = "reboot";
      default = bool false;
      unit = none;
      minimum = none;
      maximum = none;
      choices = none;
      secret = false;
      restart_required = false;
      blank_writes_null = false;
      yaml_path = none;
    }
    ∷ record {
      path = "reboot.reactive.probe.method";
      label = "Probe method (reserved)";
      kind = Kind.enum;
      description = "Reserved: how to probe a device's reachability. Not active yet.";
      section = "reboot";
      default = text "ping";
      unit = none;
      minimum = none;
      maximum = none;
      choices = some ("ping" ∷ "http" ∷ []);
      secret = false;
      restart_required = false;
      blank_writes_null = false;
      yaml_path = none;
    }
    ∷ record {
      path = "reboot.reactive.probe.interval_seconds";
      label = "Probe interval (reserved)";
      kind = Kind.int;
      description = "Reserved: seconds between reachability probes. Not active yet.";
      section = "reboot";
      default = int (pos 60);
      unit = some "seconds";
      minimum = some (pos 0);
      maximum = none;
      choices = none;
      secret = false;
      restart_required = false;
      blank_writes_null = false;
      yaml_path = none;
    }
    ∷ record {
      path = "reboot.reactive.probe.window_samples";
      label = "Probe window (reserved)";
      kind = Kind.int;
      description = "Reserved: how many probes form the packet-loss window. Not active yet.";
      section = "reboot";
      default = int (pos 5);
      unit = none;
      minimum = some (pos 0);
      maximum = none;
      choices = none;
      secret = false;
      restart_required = false;
      blank_writes_null = false;
      yaml_path = none;
    }
    ∷ record {
      path = "reboot.reactive.probe.loss_pct_min";
      label = "Loss % that means unreachable (reserved)";
      kind = Kind.int;
      description = "Reserved: packet-loss percentage that counts as unreachable. Not active yet.";
      section = "reboot";
      default = int (pos 30);
      unit = some "%";
      minimum = some (pos 0);
      maximum = some (pos 100);
      choices = none;
      secret = false;
      restart_required = false;
      blank_writes_null = false;
      yaml_path = none;
    }
    ∷ record {
      path = "reboot.reactive.require_signal_adequate";
      label = "Require adequate signal (reserved)";
      kind = Kind.bool;
      description =
          "Reserved: only reactively reboot if the device's signal is otherwise fine, so you don't reboot something that's merely far away. Not active yet.";
      section = "reboot";
      default = bool true;
      unit = none;
      minimum = none;
      maximum = none;
      choices = none;
      secret = false;
      restart_required = false;
      blank_writes_null = false;
      yaml_path = none;
    }
    ∷ record {
      path = "reboot.reactive.after_failed_kicks";
      label = "Failed nudges before escalating (reserved)";
      kind = Kind.int;
      description =
          "Reserved: how many failed nudges before escalating to a reactive reboot. Not active yet.";
      section = "reboot";
      default = int (pos 2);
      unit = none;
      minimum = some (pos 0);
      maximum = none;
      choices = none;
      secret = false;
      restart_required = false;
      blank_writes_null = false;
      yaml_path = none;
    }
    ∷ []
