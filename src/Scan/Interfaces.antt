-- ===== src/Scan/Interfaces.antt =====
-- internal/scan/family.go: HasGlobalIPv6 and detectGlobalIPv6. net.Interfaces gives the list, or an error.
pub mod Reach
use rain_scanner.Base.{
  ℕ, ◌+◌, ◌*◌, ◌/◌, ◌%◌, ◌^◌, ◌≡◌, ◌≢◌, ◌<◌, ◌≤◌, ◌↔◌, ◌⊎◌, inl, inr, refl, ap, sym, ◌∙◌, subst,
  Bool, true, false, not, ◌&&◌, ◌||◌, List, [], ◌∷◌, Option, none, some, if◌then◌else◌, ◌==◌,
  ==_iff, length, take, drop, arith, Bool-cases, ltb, leb, ◌-◌, is_some, Text,
}
use rain_scanner.IpRange.Addr.{Addr, v4, v6, is4, unmap}

-- An address of an interface: the bytes of a *net.IPNet, or one of another type.
pub data NetAddr : Type 0 where
  ip_net : List ℕ → NetAddr
  other : NetAddr

-- A net.Interface: its flags, and what Addrs gives.
pub record Interface : Type 0 where
  pub up : Bool
  pub loopback : Bool
  pub addrs : Option (List NetAddr)

-- Bytes with the highest first.
unfoldable pub big_endian : ℕ → List ℕ → ℕ
big_endian n [] = n
big_endian n (b ∷ bs) = big_endian (n * 256 + b) bs

-- netip.AddrFromSlice
unfoldable pub addr_from_slice : List ℕ → Option Addr
addr_from_slice bs =
    if length bs == 4
    then some (v4 (big_endian 0 bs))
    else if length bs == 16
    then some (v6 (big_endian 0 (take 8 bs)) (big_endian 0 (drop 8 bs)) [])
    else none

-- IsLinkLocalUnicast, IsPrivate and IsGlobalUnicast of an IPv6 address: fe80::/10 and fc00::/7 are told by the bits that
-- they fix; :: and ::1 and ff00::/8 are the addresses left out of the last one besides fe80::/10.
abbrev pub is_link_local : ℕ → Bool
is_link_local hi = hi / 2 ^ 54 == 0x3fa

abbrev pub is_private : ℕ → Bool
is_private hi = hi / 2 ^ 57 == 0x7e

abbrev pub is_global_unicast : ℕ → ℕ → Bool
is_global_unicast hi lo =
    not (hi == 0 && leb lo 1) && (not (hi / 2 ^ 56 == 0xff) && not (is_link_local hi))

abbrev pub is_routable : Addr → Bool
is_routable (v4 n) = false
is_routable (v6 hi lo z) =
    is_global_unicast hi lo && (not (is_private hi) && not (is_link_local hi))

abbrev pub routable_slice : Option Addr → Bool
routable_slice none = false
routable_slice (some a) = is_routable (unmap a)

abbrev pub reaches : NetAddr → Bool
reaches (ip_net bs) = routable_slice (addr_from_slice bs)
reaches other = false

unfoldable pub any_reaches : List NetAddr → Bool
any_reaches [] = false
any_reaches (a ∷ rest) = reaches a || any_reaches rest

abbrev pub addrs_reach : Option (List NetAddr) → Bool
addrs_reach none = false
addrs_reach (some l) = any_reaches l

unfoldable pub any_interface : List Interface → Bool
any_interface [] = false
any_interface (i ∷ ifaces) =
    let rest = any_interface ifaces in
    if not i.up || i.loopback then rest else addrs_reach i.addrs || rest

unfoldable pub detect_global_ipv6 : Option (List Interface) → Bool
detect_global_ipv6 none = false
detect_global_ipv6 (some ifaces) = any_interface ifaces

-- HasGlobalIPv6, with what v6Once and v6OK hold before and after.
unfoldable pub has_global_ipv6 : Option (List Interface) → Option Bool → Bool × Option Bool
has_global_ipv6 ifaces (some known) = (known, some known)
has_global_ipv6 ifaces none = (detect_global_ipv6 ifaces, some (detect_global_ipv6 ifaces))
