-- ===== src/Link.antt =====
-- internal/link/link.go: share links, parsed into an outbound and rewritten for a candidate address.
pub mod Outbound
pub mod Codec
pub mod Parse
pub mod Substitute
pub mod Tests
