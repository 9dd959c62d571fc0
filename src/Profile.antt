-- ===== src/Profile.antt =====
-- upstream/xray-core/main/folojson: the profile that the wrapper accepts, and the configuration of
-- Xray-core that it becomes.
pub mod Hex
pub mod Base64
pub mod Config
pub mod Build
pub mod Load
