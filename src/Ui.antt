-- ===== src/Ui.antt =====
-- wifi_shepard_ui: the edits that the web interface makes of the configuration's file.
pub mod Document
pub mod Schema
pub mod Device
pub mod Form
pub mod Save
pub mod Allowlist
