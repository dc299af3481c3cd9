-- ===== src/IpRange/Entries.antt =====
-- Filter, Split, Sort and entryAddr of internal/iprange/iprange.go: lists of CIDR entries.
pub mod Laws
use rain_scanner.Base.{
  ℕ, ◌+◌, Bool, true, false, ◌&&◌, ◌||◌, List, [], ◌∷◌, Option, none, some, if◌then◌else◌, Text,
  trim_space, has_code, text_ltb, keep,
}
use rain_scanner.Base.Sorting.{sort_by}
use rain_scanner.IpRange.Addr.{Addr, Prefix, is4, is4in6}
use rain_scanner.IpRange.Family.{Family, allows}
use rain_scanner.IpRange.Netip.{Netip}

abbrev pub or_addr : Option Prefix → Option Addr → Option Addr
or_addr (some p) a = some p.addr
or_addr none a = a

unfoldable pub entry_addr : Netip → Text → Option Addr
entry_addr np e = let t = trim_space e in or_addr (np.parse_prefix t) (np.parse_addr t)

abbrev pub accepts : Family → Option Addr → Bool
accepts fam none = false
accepts fam (some a) = allows fam a

-- Filter
unfoldable pub filter : Netip → List Text → Family → List Text
filter np entries fam = keep (λ e. accepts fam (entry_addr np e)) entries

abbrev pub tally : Option Addr → ℕ × ℕ → ℕ × ℕ
tally none counts = counts
tally (some a) (n4, n6) = if is4 a || is4in6 a then (n4 + 1, n6) else (n4, n6 + 1)

-- Split
unfoldable pub split : Netip → List Text → ℕ × ℕ
split np [] = (0, 0)
split np (e ∷ entries) = tally (entry_addr np e) (split np entries)

-- The order of Sort: IPv4 before IPv6, then that of the texts.
unfoldable pub entry_less : Text → Text → Bool
entry_less s t =
    let s6 = has_code b':' s in
    let t6 = has_code b':' t in
    if s6 then (if t6 then text_ltb s t else false) else (if t6 then true else text_ltb s t)

-- Sort
unfoldable pub sort : List Text → List Text
sort entries = sort_by entry_less entries
