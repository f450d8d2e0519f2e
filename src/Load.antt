-- ===== src/Load.antt =====
-- wifi_shepard/config.py: the loader of the configuration, from a YAML value to a checked configuration.
pub mod Yaml
pub mod Checks
pub mod Rails
pub mod Hours
pub mod RebootBlock
pub mod Sources
pub mod Build
pub mod Mapping
pub mod Rules
pub mod Valid
pub mod Blocks
pub mod Rows
pub mod Loaded
pub mod Times
pub mod Typed
pub mod Runs
pub mod Advice
pub mod Redact
pub mod Env
