-- ===== src/Load/Rows.antt =====
-- wifi_shepard/config.py: the builders of the block `reboot` and of the rows of the lists, against
-- `Load.Valid`.
use wifi_shepard.Config.{ControllerSpec, DnsInstanceSpec, RebootOverride, RebootProactiveConfig}
use wifi_shepard.Load.Build.{
  build_overrides, check_override, require_row, optional_mechanism, optional_count, kick_mechanisms,
  RawOverride,
}
use wifi_shepard.Load.Checks.{
  require_bool, require_sequence, require_mapping, require_text, require_one_of,
}
use wifi_shepard.Load.Hours.{build_reboot_proactive, proactive_of, is_schedule, is_schedule_code}
use wifi_shepard.Load.RebootBlock.{
  build_reboot, reboot_of, reboot_override_of, require_optional_text, build_reboot_cooldown,
  build_reboot_reactive, require_mapping_items,
}
use wifi_shepard.Load.Rules.{
  tested-Ok, refuse-Ok, trivially, require_one_of-Ok, IsRawMac, require_raw_mac-Ok,
  require_schedule-Ok,
}
use wifi_shepard.Load.Sources.{
  build_controller_spec, require_present, require_port, build_dns_sources, dns_source_of,
  dns_instance_of, require_url, optional_password, is_empty,
}
use wifi_shepard.Load.Valid.{IsRebootable, IsKnown, IsPort, IsReachable}
use wifi_shepard.Load.Times.{IsTime, is_schedule-IsTime}
use wifi_shepard.Load.Yaml.{Value, Fields, null, bool, int, text, get, get_or}
use wifi_shepard.Prelude.{
  String, true, false, not, Option, none, some, List, [], ◌∷◌, ◌≡◌, ◌≢◌, refl, arith, All, Result,
  value_error, each, Ok, raised, returned, ◌▹◌, each-Ok, leb, ◌&&◌, ◌||◌, pos, is_some, decimal,
}

proactive_of-Ok :
    (raw : Fields) → Ok (λ (p : RebootProactiveConfig). IsTime p.schedule) (proactive_of raw)
unfolding proactive_of
proactive_of-Ok raw = require_schedule-Ok (get_or raw "schedule" (text "03:30")) ▹ λ schedule timed.
    trivially (require_bool (get_or raw "enabled" (bool false))) ▹ λ enabled _. returned _ timed

default_schedule : IsTime "03:30"
unfolding is_schedule is_schedule_code decimal
default_schedule = is_schedule-IsTime "03:30" refl

build_reboot_proactive-Ok :
    (v : Value) → Ok (λ (p : RebootProactiveConfig). IsTime p.schedule) (build_reboot_proactive v)
unfolding build_reboot_proactive
build_reboot_proactive-Ok null = returned _ default_schedule
build_reboot_proactive-Ok raw = trivially (require_mapping raw) ▹ λ fields _. proactive_of-Ok fields

reboot_override_of-Ok :
    (row : Value) → Ok (λ (o : RebootOverride). IsRawMac o.mac) (reboot_override_of row)
unfolding reboot_override_of
reboot_override_of-Ok row = trivially (require_mapping row) ▹ λ raw _.
    require_raw_mac-Ok (get raw "mac") ▹ λ mac valid.
    trivially (require_text (get raw "ha_entity")) ▹ λ entity _.
    trivially (require_optional_text (get raw "name")) ▹ λ name _. returned _ valid

reboot_of-IsRebootable : (raw : Fields) → Ok IsRebootable (reboot_of raw)
unfolding reboot_of
reboot_of-IsRebootable raw =
    trivially (require_bool (get_or raw "enabled" (bool false))) ▹ λ enabled _.
    trivially
      (require_one_of ("home_assistant" ∷ []) (get_or raw "resolver" (text "home_assistant")))
    ▹ λ resolver _. trivially (require_sequence (get raw "eligible")) ▹ λ items _.
        each-Ok require_raw_mac-Ok items ▹ λ eligible macs.
        trivially (require_sequence (get raw "overrides")) ▹ λ rows _.
        trivially (require_mapping_items rows) ▹ λ _ _.
        each-Ok reboot_override_of-Ok rows ▹ λ overrides valid.
        trivially (require_bool (get_or raw "dry_run" (bool true))) ▹ λ dry_run _.
        trivially (build_reboot_cooldown (get raw "cooldown")) ▹ λ cooldown _.
        build_reboot_proactive-Ok (get raw "proactive") ▹ λ proactive timed.
        trivially (build_reboot_reactive (get raw "reactive")) ▹ λ reactive _.
        returned _ (timed, macs, valid)

pub build_reboot-IsRebootable : (v : Value) → Ok IsRebootable (build_reboot v)
unfolding build_reboot
build_reboot-IsRebootable null = returned _ (default_schedule, tt, tt)
build_reboot-IsRebootable raw =
    trivially (require_mapping raw) ▹ λ fields _. reboot_of-IsRebootable fields

optional_mechanism-IsKnown : (v : Value) → Ok IsKnown (optional_mechanism v)
optional_mechanism-IsKnown null = returned none tt
optional_mechanism-IsKnown v =
    require_one_of-Ok kick_mechanisms v ▹ λ s known. returned (some s) known

check_override-IsKnown :
    (row : Fields) → Ok (λ (o : RawOverride). IsKnown o.kick_mechanism) (check_override row)
unfolding check_override
check_override-IsKnown row =
    optional_mechanism-IsKnown (get row "kick_mechanism") ▹ λ mechanism known.
    trivially (optional_count (get row "max_kicks_per_hour")) ▹ λ hour _.
    trivially (optional_count (get row "max_kicks_per_day")) ▹ λ day _.
    trivially (optional_count (get row "ap_cu_total_min")) ▹ λ floor _.
    trivially (optional_count (get row "dns_same_domain_queries_max")) ▹ λ queries _.
    returned _ known

pub build_overrides-IsKnown :
    (rows : List Fields)
    → Ok (All (λ (o : RawOverride). IsKnown o.kick_mechanism)) (build_overrides rows)
unfolding build_overrides
build_overrides-IsKnown rows =
    trivially (each require_row rows) ▹ λ _ _. each-Ok check_override-IsKnown rows

require_port-IsPort : (v : Value) → Ok IsPort (require_port v)
unfolding require_port
require_port-IsPort null = returned none tt
require_port-IsPort (int (pos n)) =
    tested-Ok (leb 1 n && leb n 65535) (some n) (λ e. (ground arith, ground arith))
require_port-IsPort _ = raised value_error

pub build_controller_spec-IsPort :
    (show : Value → String) (raw : Fields)
    → Ok (λ (s : ControllerSpec). IsPort s.port) (build_controller_spec show raw)
unfolding build_controller_spec
build_controller_spec-IsPort show raw =
    trivially (require_present raw ("type" ∷ "name" ∷ "host" ∷ "username" ∷ "password" ∷ []))
    ▹ λ _ _. require_port-IsPort (get raw "port") ▹ λ port fits. returned _ fits

each-nonempty {ℓ κ τ} :
    {A : Type ℓ} {B : Type κ} {P : B → Type τ} {f : A → Result B}
    → ((x : A) → Ok P (f x))
    → (xs : List A) → is_empty xs ≡ false
    → Ok (λ ys. (ys ≢ []) × All P ys) (each f xs)
unfolding each
each-nonempty rule [] e = cc
each-nonempty rule (x ∷ xs) e =
    rule x ▹ λ y p. each-Ok rule xs ▹ λ ys ps. returned (y ∷ ys) ((λ empty. cc), (p, ps))

dns_instance_of-Ok :
    (source_password : Option String) (raw : Fields)
    → Ok
        (λ (i : DnsInstanceSpec). (is_some i.password || is_some source_password) ≡ true)
        (dns_instance_of source_password raw)
unfolding dns_instance_of
dns_instance_of-Ok source_password raw = trivially (require_url (get raw "url")) ▹ λ url _.
    trivially (optional_password (get raw "password")) ▹ λ password _.
    refuse-Ok (not (is_some password || is_some source_password)) _ (λ e. returned _ (ground arith))

dns_source_of-IsReachable : (raw : Fields) → Ok IsReachable (dns_source_of raw)
unfolding dns_source_of
dns_source_of-IsReachable raw =
    trivially (require_one_of ("pihole" ∷ []) (get raw "type")) ▹ λ kind _.
    trivially (optional_password (get raw "password")) ▹ λ password _.
    trivially (require_sequence (get raw "instances")) ▹ λ items _.
    trivially (require_mapping_items items) ▹ λ rows _. refuse-Ok (is_empty rows) _ (λ filled.
      each-nonempty (dns_instance_of-Ok password) rows filled ▹ λ instances reachable.
      returned _ reachable)

pub build_dns_sources-IsReachable : (v : Value) → Ok (All IsReachable) (build_dns_sources v)
unfolding build_dns_sources
build_dns_sources-IsReachable v = trivially (require_sequence v) ▹ λ items _.
    trivially (require_mapping_items items) ▹ λ rows _. each-Ok dns_source_of-IsReachable rows
