-- ===== src/Load/Rules.antt =====
-- The shared checks of wifi_shepard/config.py, as rules for the builders.
use wifi_shepard.Load.Checks.{require_mac, require_one_of, is_mac, is_valid_mac, in_closed_set}
use wifi_shepard.Load.Hours.{require_schedule, is_schedule}
use wifi_shepard.Load.Rails.{refuse, reject}
use wifi_shepard.Load.RebootBlock.{require_raw_mac}
use wifi_shepard.Load.Times.{IsTime, is_schedule-IsTime}
use wifi_shepard.Load.Yaml.{Value, text}
use wifi_shepard.Mac.{normalize_mac}
use wifi_shepard.Prelude.{
  String, Bool, true, false, List, ◌≡◌, refl, contains, Result, ok, raise, value_error, Ok, raised,
  returned, ◌▹◌, if◌then◌else◌,
}
pub use wifi_shepard.Prelude.{any-Ok, trivially}

module _ {ℓ κ} {A : Type ℓ} {P : A → Type κ} where
  -- A test before a value is answered.
  pub tested-Ok :
      (b : Bool) (a : A) → (b ≡ true → P a) → Ok P (if b then ok a else raise value_error)
  tested-Ok true a p = returned a (p refl)
  tested-Ok false a p = raised value_error

  pub refuse-Ok : (b : Bool) (r : Result A) → (b ≡ false → Ok P r) → Ok P (refuse b r)
  refuse-Ok true r p = raised value_error
  refuse-Ok false r p = p refl

pub reject-Ok : (b : Bool) → Ok (λ _. b ≡ false) (reject b)
reject-Ok true = raised value_error
reject-Ok false = returned tt refl

pub require_one_of-Ok :
    (set : List String) (v : Value) → Ok (λ s. contains s set ≡ true) (require_one_of set v)
unfolding require_one_of in_closed_set
require_one_of-Ok set (text s) = tested-Ok (contains s set) s (λ e. e)
require_one_of-Ok set v = trivially (in_closed_set set v) ▹ λ _ _. raised value_error

abbrev pub IsRawMac : String → Type 0
IsRawMac s = is_mac s ≡ true

pub require_raw_mac-Ok : (v : Value) → Ok IsRawMac (require_raw_mac v)
unfolding require_raw_mac
require_raw_mac-Ok (text s) = tested-Ok (is_mac s) s (λ e. e)
require_raw_mac-Ok _ = raised value_error

pub require_mac-Ok :
    {P : String → Type 0}
    → ((s : String) → is_mac (normalize_mac s) ≡ true → P (normalize_mac s))
    → (v : Value) → Ok P (require_mac v)
unfolding require_mac is_valid_mac
require_mac-Ok p (text s) = tested-Ok (is_mac (normalize_mac s)) (normalize_mac s) (p s)
require_mac-Ok p _ = raised value_error

pub require_schedule-Ok : (v : Value) → Ok IsTime (require_schedule v)
unfolding require_schedule
require_schedule-Ok (text s) = tested-Ok (is_schedule s) s (is_schedule-IsTime s)
require_schedule-Ok _ = raised value_error
