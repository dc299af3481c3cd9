-- ===== src/IpRange/Sample.antt =====
-- expandPrefix6, randomIn6 and maskBits of internal/iprange/iprange.go. `rand.Uint64` is a stream of
-- words, `draws`, of which the code consumes two for each candidate address.
pub mod Draws
pub mod Bounds
use rain_scanner.Base.{
  ℕ, zero, suc, ◌+◌, ◌-◌, ◌*◌, ◌%◌, ◌^◌, min, Bool, true, false, ◌&&◌, List, [], ◌∷◌, ltb, leb,
  ◌==◌, if◌then◌else◌, pos_part, is_pos, bit_and, bit_or, length,
}
use rain_scanner.IpRange.Addr.{Addr, Prefix, v4, v6, addr16, has_addr}
use rain_scanner.IpRange.Family.{Strategy}

abbrev pub default_v6_hosts_per_cidr : ℕ
default_v6_hosts_per_cidr = 256

unfoldable pub mask_bits : ℕ → ℕ
mask_bits n = if n == 0 then 0 else if leb 64 n then 2 ^ 64 - 1 else 2 ^ n % 2 ^ 64 - 1

-- `r` and `q` are the two words drawn, the one for the high half first.
unfoldable pub random_in6 : ℕ → ℕ → ℕ → ℕ → ℕ → Addr
unfolding addr16
random_in6 hi lo host_bits r q =
    let low_bits = min host_bits 64 in
    let high_bits = host_bits - low_bits in
    addr16 (bit_or hi (bit_and r (mask_bits high_bits)))
      (bit_or lo (bit_and q (mask_bits low_bits)))

-- The two limits of a prefix: MaxHostsPerV6CIDR or its default, and MaxHostsPerCIDR if smaller.
unfoldable pub limit6 : Strategy → ℕ
limit6 s =
    let limit =
      if is_pos s.max_hosts_per_v6_cidr
      then pos_part s.max_hosts_per_v6_cidr
      else default_v6_hosts_per_cidr in
    if is_pos s.max_hosts_per_cidr && ltb (pos_part s.max_hosts_per_cidr) limit
    then pos_part s.max_hosts_per_cidr
    else limit

-- for i := range total
unfoldable pub enumerate6 : ℕ → ℕ → ℕ → ℕ → List Addr
unfolding addr16
enumerate6 zero i hi lo = []
enumerate6 (suc n) i hi lo = addr16 hi ((lo + i) % 2 ^ 64) ∷ enumerate6 n (i + 1) hi lo

abbrev cons_if_new : Bool → Addr → List Addr × ℕ → List Addr × ℕ
cons_if_new true a (l, k) = (l, k)
cons_if_new false a (l, k) = (a ∷ l, k)

-- The draws that are left of `limit*4`; `k` counts the words consumed, and the result holds the
-- addresses emitted and the new `k`.
unfoldable pub sample6 : ℕ → ℕ → (ℕ → ℕ) → ℕ → ℕ → ℕ → ℕ → List Addr → List Addr × ℕ
sample6 zero limit draws k hi lo host_bits drawn = ([], k)
sample6 (suc tries) limit draws k hi lo host_bits drawn =
    let a = random_in6 hi lo host_bits (draws k % 2 ^ 64) (draws (k + 1) % 2 ^ 64) in
    let dup = has_addr a drawn in
    let rest =
      sample6 tries limit draws (k + 2) hi lo host_bits (if dup then drawn else a ∷ drawn) in
    if ltb (length drawn) limit then cons_if_new dup a rest else ([], k)

abbrev pub high_of : Addr → ℕ
high_of (v4 n) = 0
high_of (v6 hi lo z) = hi

abbrev pub low_of : Addr → ℕ
low_of (v4 n) = n
low_of (v6 hi lo z) = lo

unfoldable pub expand_prefix6 : Prefix → Strategy → (ℕ → ℕ) → ℕ → List Addr × ℕ
expand_prefix6 p s draws k =
    let host_bits = 128 - p.bits in
    let limit = limit6 s in
    let hi = high_of p.addr in
    let lo = low_of p.addr in
    let all = enumerate6 (2 ^ host_bits) 0 hi lo in
    let some_of = sample6 (limit * 4) limit draws k hi lo host_bits [] in
    if ltb host_bits 63 && leb (2 ^ host_bits) limit then (all, k) else some_of
