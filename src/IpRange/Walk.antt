-- ===== src/IpRange/Walk.antt =====
-- expandPrefix4 of internal/iprange/iprange.go: the strided walk of an IPv4 prefix.
pub mod Steps
pub mod Bounds
use rain_scanner.Base.{
  ℕ, zero, suc, ◌+◌, ◌-◌, ◌*◌, ◌/◌, ◌%◌, ◌^◌, ℤ, Bool, ◌&&◌, List, [], ◌∷◌, ltb, leb, ◌==◌,
  if◌then◌else◌, pos_part, is_pos,
}
use rain_scanner.IpRange.Addr.{Addr, Prefix, v4, v6, as4, ip_to_u32, u32_to_ip}
use rain_scanner.IpRange.Family.{Strategy}

-- The stride from the number of host bits and SamplePer24; the products are those of uint64.
unfoldable pub stride4 : ℕ → ℤ → ℕ
stride4 host_bits sample_per_24 =
    let total = 2 ^ host_bits % 2 ^ 64 in
    let num24 = 2 ^ (host_bits - 8) % 2 ^ 64 in
    let want = num24 * pos_part sample_per_24 % 2 ^ 64 in
    if is_pos sample_per_24 && ltb 8 host_bits
    then if ltb want total && ltb 0 want then if total / want == 0 then 1 else total / want else 1
    else 1

-- The loop over `i`, on `fuel` rounds. `emit` has no effect on the loop, so the addresses are
-- returned in the order in which they are emitted.
unfoldable pub walk4 : ℕ → ℕ → ℕ → ℤ → ℕ → ℕ → ℕ → List Addr
walk4 zero total stride cap start i emitted = []
walk4 (suc fuel) total stride cap start i emitted =
    let rest = walk4 fuel total stride cap start ((i + stride) % 2 ^ 64) (emitted + 1) in
    if ltb i total
    then if is_pos cap && leb (pos_part cap) emitted
      then []
      else u32_to_ip ((start + i % 2 ^ 32) % 2 ^ 32) ∷ rest
    else []

abbrev pub word_of : Addr → ℕ
word_of (v4 n) = n
word_of (v6 hi lo z) = 0

-- A round moves `i` by one or more, so `total` rounds are enough.
unfoldable pub expand_prefix4 : Prefix → Strategy → List Addr
expand_prefix4 p s =
    let host_bits = 32 - p.bits in
    let total = 2 ^ host_bits % 2 ^ 64 in
    walk4 total total (stride4 host_bits s.sample_per_24) s.max_hosts_per_cidr
      (ip_to_u32 (as4 (word_of p.addr))) 0 0
