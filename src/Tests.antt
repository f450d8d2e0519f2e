-- ===== src/Tests.antt =====
-- Runs of the model at concrete inputs, and each theorem of the results at one.
mod Fixtures
mod Form
mod Actor
mod Gates
mod Inactivity
mod Load
mod RateLimit
mod Reboot
mod Scanner
mod Scorer
mod Unifi
mod Daemon
mod Store
mod Ui
