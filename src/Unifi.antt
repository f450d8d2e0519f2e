-- ===== src/Unifi.antt =====
-- wifi_shepard/controllers/unifi.py: the UniFi controller. The library behind it is a parameter: what
-- an update of its tables answers, and which of its calls raise.
pub mod Schema
pub mod Devices
pub mod Clients
pub mod Session
