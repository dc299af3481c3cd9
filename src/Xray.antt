-- ===== src/Xray.antt =====
-- internal/xray: the configurations for xray-core and the measurement of candidates.
pub mod Stream
pub mod Config
pub mod Itoa
pub mod Options
pub mod Probe
pub mod Batch
pub mod Resolve
pub mod Embedded
pub mod Wait
pub mod Tests
