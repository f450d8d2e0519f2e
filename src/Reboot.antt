-- ===== src/Reboot.antt =====
-- wifi_shepard/reboot/: who may be rebooted, through which Home Assistant entity, how often, and the
-- daily sweep. The modules below it follow the source's files.
pub mod Oui
pub mod Eligibility
pub mod Resolver
pub mod Cooldown
pub mod Scheduler
pub mod Attempt
pub mod Sweep
