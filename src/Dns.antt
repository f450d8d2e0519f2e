-- ===== src/Dns.antt =====
-- The DNS signal: wifi_shepard/dns_sources/ and wifi_shepard/dns_thrash.py.
pub mod Source
pub mod Detector
pub mod Factory
