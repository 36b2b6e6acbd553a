-- ===== src/Config.antt =====
-- crates/shinran_config/src/: the profiles, and the match files that they use.
pub mod Parsed
pub mod Profile
pub mod Settings
pub mod Layers
pub mod Selection
pub mod Matches
pub mod Yaml
pub mod Loading
mod Tests
