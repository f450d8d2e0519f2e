-- ===== src/Ui/Schema/Scanner.antt =====
-- wifi_shepard_ui/settings_schema.py: the fields of FIELDS for scanner, backoff, safety_rails, quiet_hours.
use wifi_shepard.Load.Yaml.{null, bool, int, text, seq, item, nil}
use wifi_shepard.Prelude.{true, false, none, some, List, [], ◌∷◌, pos, negsuc}
use wifi_shepard.Ui.Schema.Kinds.{Kind, FieldSpec}

abbrev pub scanner_fields : List FieldSpec
scanner_fields =
    record {
      path = "scanner.poll_interval_seconds";
      label = "How often to check the network";
      kind = Kind.int;
      description =
          "How often, in seconds, the daemon inspects every device. 60 is a good default. Shorter reacts faster but polls the controller harder; longer is gentler but slower to notice problems.";
      section = "scanner";
      default = int (pos 60);
      unit = some "seconds";
      minimum = some (pos 1);
      maximum = none;
      choices = none;
      secret = false;
      restart_required = false;
      blank_writes_null = false;
      yaml_path = none;
    }
    ∷ record {
      path = "scanner.window_samples";
      label = "Consecutive bad readings before acting";
      kind = Kind.int;
      description =
          "How many of the most recent polls must ALL look bad before a device is acted on. At a 60-second interval, 5 is about 5 minutes of continuous bad behavior. This is the main 'don't overreact to a blip' control — higher = more patient.";
      section = "scanner";
      default = int (pos 5);
      unit = none;
      minimum = some (pos 1);
      maximum = none;
      choices = none;
      secret = false;
      restart_required = false;
      blank_writes_null = false;
      yaml_path = none;
    }
    ∷ record {
      path = "scanner.dry_run";
      label = "Dry run (master safety switch)";
      kind = Kind.bool;
      description =
          "The master safety switch. When ON, the daemon does everything EXCEPT actually nudge devices — it just logs what it WOULD do, so you can watch it for a week before trusting it. Turn it OFF to let it act for real. There is no per-device dry run; this is global.";
      section = "scanner";
      default = bool true;
      unit = none;
      minimum = none;
      maximum = none;
      choices = none;
      secret = false;
      restart_required = false;
      blank_writes_null = false;
      yaml_path = none;
    }
    ∷ record {
      path = "scanner.kick_mechanism";
      label = "How to nudge a device";
      kind = Kind.enum;
      description =
          "How a device is nudged to reconnect (hopefully to a better access point). 'deauth' = a forced disconnect (works everywhere, a bit blunt). 'btm' = a polite 802.11v 'please move' request (only some devices obey it). 'auto' = try the polite request first, fall back to a forced disconnect if it doesn't move. Individual devices can override this below.";
      section = "scanner";
      default = text "deauth";
      unit = none;
      minimum = none;
      maximum = none;
      choices = some ("deauth" ∷ "btm" ∷ "auto" ∷ []);
      secret = false;
      restart_required = false;
      blank_writes_null = false;
      yaml_path = none;
    }
    ∷ []

abbrev pub backoff_fields : List FieldSpec
backoff_fields =
    record {
      path = "backoff.cooldowns_seconds";
      label = "Waiting ladder between repeat nudges";
      kind = Kind.int_list;
      description =
          "The escalating wait, in seconds, applied per device based on how many times in a row it's been nudged. For example 300, 1800, 7200 means wait 5 minutes after the 1st nudge, 30 minutes after the 2nd, 2 hours after the 3rd, and so on. Once a device reaches the last rung it stays there. Empty = no cooldown.";
      section = "backoff";
      default = seq (
          item (int (pos 300)) (
            item (int (pos 1800))
              (item (int (pos 7200)) (item (int (pos 43200)) (item (int (pos 86400)) nil)))));
      unit = some "seconds";
      minimum = none;
      maximum = none;
      choices = none;
      secret = false;
      restart_required = false;
      blank_writes_null = false;
      yaml_path = none;
    }
    ∷ record {
      path = "backoff.max_kicks_per_hour";
      label = "Hard cap: nudges per device per hour";
      kind = Kind.int;
      description =
          "A hard ceiling on how many times a single device can be nudged in any rolling hour. 0 = no limit. A backstop against a device that keeps re-triggering.";
      section = "backoff";
      default = int (pos 0);
      unit = none;
      minimum = some (pos 0);
      maximum = none;
      choices = none;
      secret = false;
      restart_required = false;
      blank_writes_null = false;
      yaml_path = none;
    }
    ∷ record {
      path = "backoff.max_kicks_per_day";
      label = "Hard cap: nudges per device per day";
      kind = Kind.int;
      description = "Same idea over a rolling 24 hours. 0 = no limit.";
      section = "backoff";
      default = int (pos 0);
      unit = none;
      minimum = some (pos 0);
      maximum = none;
      choices = none;
      secret = false;
      restart_required = false;
      blank_writes_null = false;
      yaml_path = none;
    }
    ∷ record {
      path = "backoff.quarantine_after_kicks";
      label = "Give up (quarantine) after this many nudges";
      kind = Kind.int;
      description =
          "After this many nudges to one device, stop nudging it and 'quarantine' it — just flag it instead — so a hopeless device doesn't churn forever. It's a signal that the device itself, or where it's placed, needs a look.";
      section = "backoff";
      default = int (pos 5);
      unit = none;
      minimum = some (pos 0);
      maximum = none;
      choices = none;
      secret = false;
      restart_required = false;
      blank_writes_null = false;
      yaml_path = none;
    }
    ∷ []

abbrev pub safety_rails_fields : List FieldSpec
safety_rails_fields =
    record {
      path = "safety_rails.min_seconds_between_kicks";
      label = "Minimum gap between ANY two nudges";
      kind = Kind.int;
      description =
          "The minimum time between any two nudges anywhere on the network. Stops a flood of simultaneous disconnects (which can trip a controller's anti-abuse lockout) when many devices go bad at once. 0 = off.";
      section = "safety_rails";
      default = int (pos 0);
      unit = some "seconds";
      minimum = some (pos 0);
      maximum = none;
      choices = none;
      secret = false;
      restart_required = false;
      blank_writes_null = false;
      yaml_path = none;
    }
    ∷ record {
      path = "safety_rails.max_kicks_per_ap_per_window";
      label = "Max nudges against one AP per window";
      kind = Kind.int;
      description =
          "The most nudges allowed against a single access point within the window below. Prevents draining one AP when several of its devices misbehave together. 0 = off.";
      section = "safety_rails";
      default = int (pos 0);
      unit = none;
      minimum = some (pos 0);
      maximum = none;
      choices = none;
      secret = false;
      restart_required = false;
      blank_writes_null = false;
      yaml_path = none;
    }
    ∷ record {
      path = "safety_rails.per_ap_window_seconds";
      label = "Window for the per-AP cap";
      kind = Kind.int;
      description =
          "The rolling window for the per-AP cap above, in seconds. 600 = 10 minutes. Must be greater than 0 when the per-AP cap is turned on.";
      section = "safety_rails";
      default = int (pos 600);
      unit = some "seconds";
      minimum = some (pos 0);
      maximum = none;
      choices = none;
      secret = false;
      restart_required = false;
      blank_writes_null = false;
      yaml_path = none;
    }
    ∷ []

abbrev pub quiet_hours_fields : List FieldSpec
quiet_hours_fields =
    record {
      path = "quiet_hours.start";
      label = "Quiet-hours start";
      kind = Kind.time_hhmm;
      description = "When the stricter window begins, as 24-hour HH:MM in the timezone below.";
      section = "quiet_hours";
      default = text "23:00";
      unit = none;
      minimum = none;
      maximum = none;
      choices = none;
      secret = false;
      restart_required = false;
      blank_writes_null = false;
      yaml_path = none;
    }
    ∷ record {
      path = "quiet_hours.end";
      label = "Quiet-hours end";
      kind = Kind.time_hhmm;
      description =
          "When the stricter window ends, as 24-hour HH:MM. It may wrap past midnight (for example 23:00 to 07:00).";
      section = "quiet_hours";
      default = text "07:00";
      unit = none;
      minimum = none;
      maximum = none;
      choices = none;
      secret = false;
      restart_required = false;
      blank_writes_null = false;
      yaml_path = none;
    }
    ∷ record {
      path = "quiet_hours.timezone";
      label = "Timezone";
      kind = Kind.timezone;
      description =
          "The timezone the start/end times are given in, as an IANA name like 'America/Chicago'.";
      section = "quiet_hours";
      default = text "America/Chicago";
      unit = none;
      minimum = none;
      maximum = none;
      choices = none;
      secret = false;
      restart_required = false;
      blank_writes_null = false;
      yaml_path = none;
    }
    ∷ record {
      path = "quiet_hours.tx_rate_kbps_max";
      label = "Overnight data-rate threshold";
      kind = Kind.int_or_null;
      description =
          "During quiet hours, use THIS data-rate threshold instead of the normal one (whichever is stricter wins). Leave unset to keep the normal value overnight.";
      section = "quiet_hours";
      default = null;
      unit = some "kbps";
      minimum = some (pos 0);
      maximum = none;
      choices = none;
      secret = false;
      restart_required = false;
      blank_writes_null = false;
      yaml_path = some "quiet_hours.override_threshold.tx_rate_kbps_max";
    }
    ∷ record {
      path = "quiet_hours.retry_pct_max";
      label = "Overnight retry threshold";
      kind = Kind.int_or_null;
      description =
          "The retry threshold to use during quiet hours (stricter wins). Unset = keep the normal value overnight.";
      section = "quiet_hours";
      default = null;
      unit = some "%";
      minimum = some (pos 0);
      maximum = some (pos 100);
      choices = none;
      secret = false;
      restart_required = false;
      blank_writes_null = false;
      yaml_path = some "quiet_hours.override_threshold.retry_pct_max";
    }
    ∷ record {
      path = "quiet_hours.signal_dbm_max";
      label = "Overnight signal threshold";
      kind = Kind.int_or_null;
      description =
          "The signal threshold to use during quiet hours (stricter wins). Unset = keep the normal value overnight.";
      section = "quiet_hours";
      default = null;
      unit = some "dBm";
      minimum = some (negsuc 99);
      maximum = some (pos 0);
      choices = none;
      secret = false;
      restart_required = false;
      blank_writes_null = false;
      yaml_path = some "quiet_hours.override_threshold.signal_dbm_max";
    }
    ∷ []
