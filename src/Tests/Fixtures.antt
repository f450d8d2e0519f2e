-- ===== src/Tests/Fixtures.antt =====
-- The inputs of the examples: a configuration, a weak client and an actor.
use wifi_shepard.Prelude.{Bool, true, false, none, some, [], ◌∷◌, pos, negsuc}
use wifi_shepard.Actor.{Actor, Env}
use wifi_shepard.Config.{Config}
use wifi_shepard.Controller.{ClientSnapshot}
use wifi_shepard.Dict
use wifi_shepard.Load.Yaml.{null}
use wifi_shepard.Pending
use wifi_shepard.Rationale.{Decision, inactivity}
use wifi_shepard.RateLimit.Run
use wifi_shepard.Resolution.{Thresholds}
use wifi_shepard.Scorer.{Scorer}

-- Signals below -75 and more than 20 percent retries, in two samples; live kicks by `auto`.
abbrev pub config_with : Bool → Config
config_with dry = record {
  detection = record {
    tx_rate_kbps_max = none;
    retry_pct_max = some (pos 20);
    signal_dbm_max = some (negsuc 74);
    ap_cu_total_min = 30;
    radios = "ng" ∷ [];
    inactivity = record {
      enabled = true;
      min_bytes_per_window = 100;
      window_samples = 2;
      macs = "aa" ∷ [];
    };
    dns_thrash = none;
  };
  scanner = record {
    poll_interval_seconds = 30;
    window_samples = 2;
    dry_run = dry;
    kick_mechanism = "auto";
  };
  backoff = record {
    quarantine_after_kicks = 3;
    cooldowns_seconds = 60 ∷ 600 ∷ [];
    max_kicks_per_hour = 4;
    max_kicks_per_day = 0;
  };
  safety_rails = record {
    min_seconds_between_kicks = 30;
    max_kicks_per_ap_per_window = 2;
    per_ap_window_seconds = 600;
  };
  quiet_hours = none;
  reboot = record {
    enabled = true;
    resolver = "home_assistant";
    dry_run = false;
    eligible = "aa" ∷ [];
    overrides = [];
    cooldown = record { per_device_seconds = 3600; max_per_device_per_day = 1 };
    proactive = record { enabled = true; schedule = "03:30" };
    reactive = record {
      enabled = false;
      probe = record {
        method = "ping";
        interval_seconds = 60;
        window_samples = 5;
        loss_pct_min = 30;
      };
      require_signal_adequate = true;
      after_failed_kicks = 2;
    };
  };
  overrides = [];
  allowlist = "cc" ∷ [];
  controllers = [];
  home_assistant = none;
  dns_sources = [];
}

-- Signal -80, a retry percentage of 40, an access point with half of its air time used.
abbrev pub weak : ClientSnapshot
weak = record {
  mac = "aa";
  signal = negsuc 79;
  tx_rate_kbps = pos 6000;
  tx_retries = pos 40;
  wifi_tx_attempts = pos 100;
  radio = "ng";
  ap_id = "ap1";
  ap_cu_total = pos 50;
  name = null;
  tx_bytes = some 10;
  rx_bytes = some 20;
  ip = some "10.0.0.5";
}

abbrev pub limits : Thresholds
limits = record {
  tx_rate_kbps_max = none;
  retry_pct_max = some (pos 20);
  signal_dbm_max = some (negsuc 74);
  ap_cu_total_min = 30;
  quiet_hours = false;
}

-- One more sample fills its window.
abbrev pub half_full : Scorer
half_full = record { config = config_with false; windows = Dict.put Dict.empty "aa" (weak ∷ []) }

abbrev pub calm : Env
calm = record {
  wall_now = 500000000;
  gate_now = 100000000;
  wire_now = 100500000;
  row_ts = 500000001;
  uuid = "group";
  fails = λ call. false;
}

abbrev pub actor_with : Bool → Actor
actor_with dry = record {
  config = config_with dry;
  ha = true;
  backoff = some (record { states = Dict.empty; quarantine_after_kicks = 3 });
  rate_limiter = some (Run.new 30 2 600);
  pending = Pending.new;
  dry_run_last_write = Dict.empty;
  db = [];
  trace = [];
}

abbrev pub idle : Decision
idle = inactivity (record { window_bytes = 10; min_bytes_per_window = 100; window_samples = 2 })
