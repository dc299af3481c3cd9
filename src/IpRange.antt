-- ===== src/IpRange.antt =====
-- internal/iprange/iprange.go: addresses, family selectors and the expansion of CIDR blocks.
pub mod Addr
pub mod Family
pub mod Walk
pub mod Sample
pub mod Netip
pub mod Entries
pub mod Expand
pub mod Tests
