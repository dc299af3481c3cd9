-- ===== src/Providers.antt =====
-- internal/providers/providers.go: the manifest of the built-in CDNs, the range files and the ways to fetch them.
pub mod Names
pub mod Manifest
pub mod Normalize
pub mod Fetch
pub mod Tests
