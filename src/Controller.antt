-- ===== src/Controller.antt =====
-- wifi_shepard/controllers/base.py: what a controller answers. The signed fields are compared with
-- signed thresholds; the byte counters are cumulative, so they are naturals. A label that no backend
-- checks is a JSON value, with `null` for `None`.
use wifi_shepard.Load.Yaml.{Value}
use wifi_shepard.Prelude.{ℕ, String, Option, List, ℤ}

pub record ClientSnapshot : Type 0 where
  pub mac : String
  pub signal : ℤ
  pub tx_rate_kbps : ℤ
  pub tx_retries : ℤ
  pub wifi_tx_attempts : ℤ
  pub radio : String
  pub ap_id : String
  pub ap_cu_total : ℤ
  pub name : Value
  pub tx_bytes : Option ℕ
  pub rx_bytes : Option ℕ
  pub ip : Option String

pub record ApSnapshot : Type 0 where
  pub id : String
  pub name : Value
  pub mac : String

pub record RadioStats : Type 0 where
  pub radio : String
  pub cu_total : ℤ
  pub bssid : Value
  pub channel : Value

-- The percentages are `None` where the controller does not report them.
pub record ApStats : Type 0 where
  pub id : String
  pub name : Value
  pub mac : String
  pub cpu_pct : Option Value
  pub mem_pct : Option Value
  pub radios : List RadioStats
