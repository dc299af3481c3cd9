-- ===== src/IpRange/Netip.antt =====
-- The two parsers of net/netip, as an interface: the functions of internal/iprange/iprange.go take them as
-- a parameter, and so do those that call them.
use rain_scanner.Base.{Option, Text}
use rain_scanner.IpRange.Addr.{Addr, Prefix}

pub record Netip : Type 0 where
  pub parse_prefix : Text → Option Prefix
  pub parse_addr : Text → Option Addr
