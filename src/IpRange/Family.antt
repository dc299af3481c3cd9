-- ===== src/IpRange/Family.antt =====
-- Family and Strategy of internal/iprange/iprange.go.
use rain_scanner.Base.{
  ℤ, Bool, true, ◌&&◌, ◌||◌, not, ◌≡◌, refl, arith, if◌then◌else◌, Text, codes, text_eq, to_lower,
  trim_space,
}
use rain_scanner.IpRange.Addr.{Addr, is4, is6, is4in6}

pub data Family : Type 0 where
  auto v4_only v6_only both : Family

unfoldable pub parse_family : Text → Family
unfolding text_eq to_lower trim_space
parse_family s =
    let t = to_lower (trim_space s) in
    if text_eq t (codes "4")
      || (text_eq t (codes "v4") || (text_eq t (codes "ip4") || text_eq t (codes "ipv4")))
    then v4_only
    else if text_eq t (codes "6")
        || (text_eq t (codes "v6") || (text_eq t (codes "ip6") || text_eq t (codes "ipv6")))
    then v6_only
    else if text_eq t (codes "both")
        || (text_eq t (codes "dual")
            || (text_eq t (codes "dualstack")
                || (text_eq t (codes "dual-stack")
                    || (text_eq t (codes "all") || text_eq t (codes "46")))))
    then both
    else auto

unfoldable pub family_string : Family → Text
family_string v4_only = codes "ipv4"
family_string v6_only = codes "ipv6"
family_string both = codes "dual-stack"
family_string auto = codes "auto"

unfoldable pub allows : Family → Addr → Bool
allows v4_only a = is4 a || is4in6 a
allows v6_only a = is6 a && not (is4in6 a)
allows both a = true
allows auto a = true

pub record Strategy : Type 0 where
  pub sample_per_24 : ℤ
  pub max_hosts_per_cidr : ℤ
  pub max_total : ℤ
  pub family : Family
  pub max_hosts_per_v6_cidr : ℤ

-- Every selector is read back from what String prints for it.
pub parse_family-family_string : (f : Family) → parse_family (family_string f) ≡ f
unfolding parse_family family_string
parse_family-family_string auto = refl
parse_family-family_string v4_only = refl
parse_family-family_string v6_only = refl
parse_family-family_string both = refl

-- An address is accepted by exactly one of the two single-family selectors.
pub allows_partition : (a : Addr) → allows v6_only a ≡ not (allows v4_only a)
unfolding allows
allows_partition a = ground arith
