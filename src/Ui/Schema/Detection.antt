-- ===== src/Ui/Schema/Detection.antt =====
-- wifi_shepard_ui/settings_schema.py: the fields of FIELDS for detection, inactivity, dns_thrash.
use wifi_shepard.Load.Yaml.{bool, int, text, seq, item, nil}
use wifi_shepard.Prelude.{true, false, none, some, List, [], ◌∷◌, pos, negsuc}
use wifi_shepard.Ui.Schema.Kinds.{Kind, FieldSpec}

abbrev pub detection_fields : List FieldSpec
detection_fields =
    record {
      path = "detection.tx_rate_kbps_max";
      label = "Max data rate to count as 'slow'";
      kind = Kind.int_or_null;
      description =
          "How slow a device's WiFi link speed has to be to look 'bad'. This is the raw radio rate between the device and the access point — NOT your internet speed. 12000 kbps (12 Mbps) is quite slow for modern WiFi; a healthy phone usually reports 100,000+. Only devices transmitting SLOWER than this count toward being flagged. Lower it to be pickier, raise it to catch more, or set it to 'disabled' to ignore data rate entirely.";
      section = "detection";
      default = int (pos 12000);
      unit = some "kbps";
      minimum = some (pos 0);
      maximum = none;
      choices = none;
      secret = false;
      restart_required = false;
      blank_writes_null = true;
      yaml_path = none;
    }
    ∷ record {
      path = "detection.retry_pct_max";
      label = "Max retry rate to count as 'struggling'";
      kind = Kind.int_or_null;
      description =
          "How often a device has to re-send WiFi frames before it looks 'bad'. Every wireless link retries a few frames; a healthy device stays well under 10%. At 30%, nearly a third of its transmissions fail on the first try — a sign it's struggling with its current access point. Only devices retrying MORE than this count. Set to 'disabled' to ignore retries.";
      section = "detection";
      default = int (pos 30);
      unit = some "%";
      minimum = some (pos 0);
      maximum = some (pos 100);
      choices = none;
      secret = false;
      restart_required = false;
      blank_writes_null = true;
      yaml_path = none;
    }
    ∷ record {
      path = "detection.signal_dbm_max";
      label = "Weakest signal to count as 'far/weak'";
      kind = Kind.int_or_null;
      description =
          "How weak a device's signal must be to look 'bad'. Signal is measured in dBm and is always negative — closer to 0 is stronger. Roughly: -50 is right next to the access point, -70 is a couple of rooms away, -80 is weak and far. Only devices WEAKER (more negative) than this are eligible to be nudged. Make it more negative (e.g. -75) to act only on genuinely distant devices, or less negative (e.g. -65) to act sooner. Set to 'disabled' to ignore signal strength.";
      section = "detection";
      default = int (negsuc 69);
      unit = some "dBm";
      minimum = some (negsuc 99);
      maximum = some (pos 0);
      choices = none;
      secret = false;
      restart_required = false;
      blank_writes_null = true;
      yaml_path = none;
    }
    ∷ record {
      path = "detection.ap_cu_total_min";
      label = "Only act when the AP is at least this busy";
      kind = Kind.int;
      description =
          "Only nudge a device when its access point is actually congested. 'Channel utilization' is how crowded the airwaves are on that AP, from 0 to 100%. At 0 (off) the daemon acts regardless of how busy the AP is. Set it to e.g. 60 so a struggling device is only moved when its AP is at least 60% busy — moving a device off a quiet AP gains nothing. Higher = only act on very congested APs.";
      section = "detection";
      default = int (pos 0);
      unit = some "%";
      minimum = some (pos 0);
      maximum = some (pos 100);
      choices = none;
      secret = false;
      restart_required = false;
      blank_writes_null = false;
      yaml_path = none;
    }
    ∷ record {
      path = "detection.radios";
      label = "Which bands to watch";
      kind = Kind.string_list;
      description =
          "Which WiFi bands the checks apply to. 'ng' = 2.4 GHz (the crowded band cheap IoT clings to), 'na' = 5 GHz, '6e' = 6 GHz. This tool exists to free up 2.4 GHz airtime, so the default is just 'ng'. Add bands only if you want the same checks there too.";
      section = "detection";
      default = seq (item (text "ng") nil);
      unit = none;
      minimum = none;
      maximum = none;
      choices = none;
      secret = false;
      restart_required = false;
      blank_writes_null = false;
      yaml_path = none;
    }
    ∷ []

abbrev pub inactivity_fields : List FieldSpec
inactivity_fields =
    record {
      path = "detection.inactivity.enabled";
      label = "Enable the silent-device detector";
      kind = Kind.bool;
      description =
          "A SEPARATE detector (not part of the AND above): flags a device you've listed that has a strong connection but has gone completely silent — no data in or out for a while — which usually means its app/session has wedged even though WiFi looks fine. Off by default; you opt in device-by-device below.";
      section = "detection";
      default = bool false;
      unit = none;
      minimum = none;
      maximum = none;
      choices = none;
      secret = false;
      restart_required = false;
      blank_writes_null = false;
      yaml_path = none;
    }
    ∷ record {
      path = "detection.inactivity.min_bytes_per_window";
      label = "Traffic floor that counts as 'silent'";
      kind = Kind.int;
      description =
          "How little traffic — sent plus received, added together — over the window counts as 'silent'. 1024 bytes is essentially nothing (a truly wedged device). Raise it if a device that dribbles tiny keep-alive packets should still count as silent. Note this counts LAN traffic too, so it approximates 'no activity', not strictly 'no internet'.";
      section = "detection";
      default = int (pos 1024);
      unit = some "bytes";
      minimum = some (pos 0);
      maximum = none;
      choices = none;
      secret = false;
      restart_required = false;
      blank_writes_null = false;
      yaml_path = none;
    }
    ∷ record {
      path = "detection.inactivity.window_samples";
      label = "How many silent polls in a row";
      kind = Kind.int;
      description =
          "How many polls in a row a device must stay under the traffic floor before it's flagged. At a 60-second poll interval, 30 is about 30 minutes of continuous silence. Higher = more patient (fewer false alarms); lower = quicker to act.";
      section = "detection";
      default = int (pos 30);
      unit = none;
      minimum = some (pos 1);
      maximum = none;
      choices = none;
      secret = false;
      restart_required = false;
      blank_writes_null = false;
      yaml_path = none;
    }
    ∷ record {
      path = "detection.inactivity.macs";
      label = "Devices the silent-detector watches";
      kind = Kind.mac_list;
      description =
          "The devices this detector watches, by MAC address. It ONLY ever looks at devices you list here — nothing is watched automatically. Leaving this empty makes the detector do nothing even when it's enabled.";
      section = "detection";
      default = seq nil;
      unit = none;
      minimum = none;
      maximum = none;
      choices = none;
      secret = false;
      restart_required = false;
      blank_writes_null = false;
      yaml_path = none;
    }
    ∷ []

abbrev pub dns_thrash_fields : List FieldSpec
dns_thrash_fields =
    record {
      path = "detection.dns_thrash.same_domain_queries_max";
      label = "Max lookups of the same address per window";
      kind = Kind.int;
      description =
          "Optional DNS reconnect-loop detector (needs a Pi-hole source below). Catches a device stuck asking for the SAME web address over and over — a wedged smart device can look up its server hundreds of times an hour. This is how many lookups of one address within the window are allowed before it looks stuck. Chatty-but-normal devices can legitimately hit 20-50, so this often needs RAISING to avoid false alarms. Only lookups over this count.";
      section = "detection";
      default = int (pos 20);
      unit = none;
      minimum = some (pos 0);
      maximum = none;
      choices = none;
      secret = false;
      restart_required = false;
      blank_writes_null = false;
      yaml_path = none;
    }
    ∷ record {
      path = "detection.dns_thrash.window_minutes";
      label = "Counting window";
      kind = Kind.int;
      description =
          "The length of the counting window, in minutes. Lookups of each address are tallied over this rolling window.";
      section = "detection";
      default = int (pos 60);
      unit = some "minutes";
      minimum = some (pos 1);
      maximum = none;
      choices = none;
      secret = false;
      restart_required = false;
      blank_writes_null = false;
      yaml_path = none;
    }
    ∷ record {
      path = "detection.dns_thrash.sustain_windows";
      label = "Windows in a row before flagging";
      kind = Kind.int;
      description =
          "How many windows in a row the device must stay over the limit before it's flagged. For example 2 windows of 60 minutes means the behavior must persist for 2 hours — this avoids acting on a brief burst.";
      section = "detection";
      default = int (pos 2);
      unit = none;
      minimum = some (pos 1);
      maximum = none;
      choices = none;
      secret = false;
      restart_required = false;
      blank_writes_null = false;
      yaml_path = none;
    }
    ∷ []
