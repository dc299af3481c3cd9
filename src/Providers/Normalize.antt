-- ===== src/Providers/Normalize.antt =====
-- normalizeCIDRs of internal/providers/providers.go. `Prefix.String()` is the parameter `print`, and the five tests of
-- netip for addresses that host nothing (IsUnspecified to IsMulticast) are the parameter `special`.
pub mod Laws
use rain_scanner.Base.{
  Bool, true, false, ◌||◌, List, [], ◌∷◌, ◌++◌, Option, none, some, if◌then◌else◌, Text, codes,
  text_eq, has_code, trim_space, is_empty,
}
use rain_scanner.IpRange.Addr.{Addr, Prefix, masked}
use rain_scanner.IpRange.Netip.{Netip}
use rain_scanner.IpRange.Entries.{sort}

unfoldable pub has_text : Text → List Text → Bool
has_text t [] = false
has_text t (u ∷ us) = text_eq t u || has_text t us

-- A bare address becomes a prefix of one address.
unfoldable pub with_length : Text → Text
with_length cidr =
    if has_code b'/' cidr
    then cidr
    else if has_code b':' cidr
    then cidr ++ codes "/128"
    else cidr ++ codes "/32"

module _ (np : Netip) (print : Prefix → Text) (special : Addr → Bool) where
  abbrev printed : Option Prefix → Option Text
  printed none = none
  printed (some p) = if special p.addr then none else some (print (masked p))

  -- The normal form of one entry, with `none` for an entry that the loop skips.
  unfoldable pub norm_of : Text → Option Text
  norm_of m =
      if is_empty (trim_space m)
      then none
      else printed (np.parse_prefix (with_length (trim_space m)))

  abbrev pub append_new : Option Text → List Text → List Text
  append_new none out = out
  append_new (some t) out = if has_text t out then out else out ++ t ∷ []

  -- The loop; the keys of `seen` are the elements of `out`.
  unfoldable pub collect : List Text → List Text → List Text
  collect [] out = out
  collect (m ∷ ms) out = collect ms (append_new (norm_of m) out)

  unfoldable pub normalize_cidrs : List Text → List Text
  normalize_cidrs ms = sort (collect ms [])
