-- ===== src/IpRange/Addr.antt =====
-- Addresses and prefixes of net/netip as internal/iprange/iprange.go uses them, and its conversions
-- between addresses and machine words.
use rain_scanner.Base.{
  ℕ, ◌+◌, ◌-◌, ◌*◌, ◌/◌, ◌%◌, ◌^◌, ◌<◌, min, ◌≡◌, ◌↔◌, Bool, true, false, ◌&&◌, List, [], ◌∷◌,
  bit_or, arith, ◌==◌, if◌then◌else◌, Text, text_eq, text_eq_iff,
}
use rain_scanner.Base.Bits.{bit_or-disjoint}

-- netip.Addr: a 32-bit value, or the two 64-bit halves of an IPv6 address and its zone.
pub data Addr : Type 0 where
  v4 : ℕ → Addr
  v6 : ℕ → ℕ → Text → Addr

-- netip.Prefix
pub record Prefix : Type 0 where
  pub addr : Addr
  pub bits : ℕ

abbrev pub is4 : Addr → Bool
is4 (v4 n) = true
is4 (v6 hi lo z) = false

abbrev pub is6 : Addr → Bool
is6 (v4 n) = false
is6 (v6 hi lo z) = true

-- ::ffff:0:0/96
abbrev pub is4in6 : Addr → Bool
is4in6 (v4 n) = false
is4in6 (v6 hi lo z) = hi == 0 && (lo / 2 ^ 32 == 0xffff)

abbrev pub unmap : Addr → Addr
unmap (v4 n) = v4 n
unmap (v6 hi lo z) = if hi == 0 && (lo / 2 ^ 32 == 0xffff) then v4 (lo % 2 ^ 32) else v6 hi lo z

abbrev pub clear_low : ℕ → ℕ → ℕ
clear_low k n = n / 2 ^ k * 2 ^ k

-- Prefix.Masked on an address with `bits` leading bits kept.
abbrev pub mask_addr : Addr → ℕ → Addr
mask_addr (v4 n) bits = v4 (clear_low (32 - bits) n)
mask_addr (v6 hi lo z) bits =
    v6 (clear_low (128 - bits - min (128 - bits) 64) hi) (clear_low (min (128 - bits) 64) lo) []

abbrev pub masked : Prefix → Prefix
masked p = record p { addr = mask_addr p.addr p.bits }

-- What ParseAddr and ParsePrefix return: the words are in range.
abbrev pub IsWord : Addr → Type 0
IsWord (v4 n) = n < 2 ^ 32
IsWord (v6 hi lo z) = (hi < 2 ^ 64) × (lo < 2 ^ 64)

abbrev pub addr_eq : Addr → Addr → Bool
addr_eq (v4 m) (v4 n) = m == n
addr_eq (v4 m) (v6 hi lo z) = false
addr_eq (v6 hi lo z) (v4 n) = false
addr_eq (v6 hi lo z) (v6 hi' lo' z') = hi == hi' && (lo == lo' && text_eq z z')

pub addr_eq_iff : (a b : Addr) → (addr_eq a b ≡ true) ↔ (a ≡ b)
addr_eq_iff (v4 m) (v4 n) = ground arith
addr_eq_iff (v4 m) (v6 hi lo z) = ground arith
addr_eq_iff (v6 hi lo z) (v4 n) = ground arith
addr_eq_iff (v6 hi lo z) (v6 hi' lo' z') = ground (arith, text_eq_iff z z')

-- A key of the maps `seen` and `drawn`.
unfoldable pub has_addr : Addr → List Addr → Bool
has_addr a [] = false
has_addr a (b ∷ l) = if addr_eq a b then true else has_addr a l

-- [4]byte
pub record Bytes4 : Type 0 where
  pub b0 : ℕ
  pub b1 : ℕ
  pub b2 : ℕ
  pub b3 : ℕ

-- Addr.As4 and AddrFrom4
abbrev pub as4 : ℕ → Bytes4
as4 n = record { b0 = n / 2 ^ 24 % 256; b1 = n / 2 ^ 16 % 256; b2 = n / 2 ^ 8 % 256; b3 = n % 256 }

abbrev pub addr_from4 : Bytes4 → Addr
addr_from4 b = v4 (b.b0 * 2 ^ 24 + b.b1 * 2 ^ 16 + b.b2 * 2 ^ 8 + b.b3)

unfoldable pub ip_to_u32 : Bytes4 → ℕ
ip_to_u32 b =
    bit_or
      (bit_or (bit_or (b.b0 * 2 ^ 24 % 2 ^ 32) (b.b1 * 2 ^ 16 % 2 ^ 32)) (b.b2 * 2 ^ 8 % 2 ^ 32))
      b.b3

unfoldable pub u32_to_ip : ℕ → Addr
u32_to_ip v =
    addr_from4
      (record { b0 = v / 2 ^ 24 % 256; b1 = v / 2 ^ 16 % 256; b2 = v / 2 ^ 8 % 256; b3 = v % 256 })

-- binary.BigEndian.PutUint64 of the two halves, then AddrFrom16
unfoldable pub addr16 : ℕ → ℕ → Addr
addr16 hi lo = v6 hi lo []

pub u32_to_ip-eq-v4 : (n : ℕ) → n < 2 ^ 32 → u32_to_ip n ≡ v4 n
unfolding u32_to_ip
u32_to_ip-eq-v4 n h = ground arith

or_add : (k q t r : ℕ) → t ≡ q * 2 ^ k → r < 2 ^ k → bit_or t r ≡ t + r
or_add k q t r e h = rw e (bit_or-disjoint k q r h)

or_bytes :
    (a b c d : ℕ)
    → a < 256
    → b < 256
    → c < 256
    → d < 256
    → bit_or (bit_or (bit_or (a * 2 ^ 24) (b * 2 ^ 16)) (c * 2 ^ 8)) d
      ≡ a * 2 ^ 24 + b * 2 ^ 16 + c * 2 ^ 8 + d
or_bytes a b c d ha hb hc hd =
    let top = or_add 24 a (a * 2 ^ 24) (b * 2 ^ 16) (omega arith) (omega arith) in
    let mid =
      or_add 16 (a * 256 + b) (a * 2 ^ 24 + b * 2 ^ 16) (c * 2 ^ 8) (omega arith) (omega arith) in
    let low =
      or_add 8 (a * 65536 + b * 256 + c) (a * 2 ^ 24 + b * 2 ^ 16 + c * 2 ^ 8) d (omega arith)
        (omega arith) in
    rw (top, mid) low

-- ip_to_u32 reads back every 32-bit word from its four bytes.
pub ip_to_u32-as4 : (n : ℕ) → n < 2 ^ 32 → ip_to_u32 (as4 n) ≡ n
unfolding ip_to_u32
ip_to_u32-as4 n h =
    let e0 : n / 2 ^ 24 % 256 * 2 ^ 24 % 2 ^ 32 ≡ n / 2 ^ 24 % 256 * 2 ^ 24 = omega arith in
    let e1 : n / 2 ^ 16 % 256 * 2 ^ 16 % 2 ^ 32 ≡ n / 2 ^ 16 % 256 * 2 ^ 16 = omega arith in
    let e2 : n / 2 ^ 8 % 256 * 2 ^ 8 % 2 ^ 32 ≡ n / 2 ^ 8 % 256 * 2 ^ 8 = omega arith in
    rw (e0, e1, e2)
      (rw
        (or_bytes (n / 2 ^ 24 % 256) (n / 2 ^ 16 % 256) (n / 2 ^ 8 % 256) (n % 256) (omega arith)
          (omega arith) (omega arith) (omega arith))
        (omega arith))
