-- ===== src/Scan.antt =====
-- internal/scan: the TCP connect sweep and the inspection of the machine's network interfaces.
pub mod Pool
pub mod Interfaces
pub mod Example
pub mod Tests
