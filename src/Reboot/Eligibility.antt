-- ===== src/Reboot/Eligibility.antt =====
-- wifi_shepard/reboot/eligibility.py.
use wifi_shepard.Prelude.{String, Bool, false, not, map, if◌then◌else◌, contains}
use wifi_shepard.Config.{Config}
use wifi_shepard.Mac.{normalize_mac}

unfoldable pub is_reboot_eligible : String → Config → Bool
is_reboot_eligible mac config =
    if not config.reboot.enabled
    then false
    else if contains (normalize_mac mac) (map normalize_mac config.allowlist)
    then false
    else contains (normalize_mac mac) (map normalize_mac config.reboot.eligible)
