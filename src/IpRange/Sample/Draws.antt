-- ===== src/IpRange/Sample/Draws.antt =====
-- What the drawing of random addresses of an IPv6 prefix gives.
use native.Mathlib.Nat.{one-le-pow, pow-le-pow_right}
use rain_scanner.Base.{
  ℕ, zero, suc, ◌+◌, ◌-◌, ◌/◌, ◌%◌, ◌^◌, ◌≤◌, ◌<◌, min, ◌≡◌, false, List, [], ◌∷◌, arith, leb, ◌==◌,
  bit_and, bit_or, length, All, Bool-cases, inl, inr, leb→le, leb→gt,
}
use rain_scanner.Base.Bits.{bit_or-disjoint, bit_and-mask}
use rain_scanner.IpRange.Addr.{Addr, v4, v6, has_addr, clear_low}
use rain_scanner.IpRange.Sample.{mask_bits, random_in6, sample6}

-- The widths of the free parts of the two halves.
abbrev pub low_width : ℕ → ℕ
low_width host_bits = min host_bits 64

abbrev pub high_width : ℕ → ℕ
high_width host_bits = host_bits - min host_bits 64

-- An IPv6 address, with no zone, whose halves lie in the blocks of the prefix's base.
abbrev pub InBlock6 : ℕ → ℕ → ℕ → Addr → Type 0
InBlock6 hi lo host_bits (v4 n) = ⊥
InBlock6 hi lo host_bits (v6 a b z) =
    (hi ≤ a) × (a < hi + 2 ^ high_width host_bits) × (lo ≤ b) × (b < lo + 2 ^ low_width host_bits)

-- No address of the list stands in `drawn` or earlier in the list.
abbrev pub Fresh : List Addr → List Addr → Type 0
Fresh drawn [] = Unit
Fresh drawn (a ∷ l) = (has_addr a drawn ≡ false) × Fresh (a ∷ drawn) l

and_mask_bits : (n r : ℕ) → n ≤ 64 → bit_and r (mask_bits n) ≡ r % 2 ^ n
unfolding mask_bits
and_mask_bits zero r h = bit_and-mask 0 r
and_mask_bits (suc n) r h = elim (Bool-cases (leb 64 (suc n))) [
  | inl top ↦ let e : suc n ≡ 64 = omega (arith, leb→le 64 (suc n) top) in rw e (bit_and-mask 64 r)
  | inr low ↦
      let nonzero : (suc n == 0) ≡ false = ground arith in
      let half : 2 ^ suc n ≤ 2 ^ 63 =
        pow-le-pow_right (omega arith) {j = 63} (omega (arith, leb→gt 64 (suc n) low)) in
      let e : 2 ^ suc n % 2 ^ 64 ≡ 2 ^ suc n = omega arith in
      rw (nonzero, low, e) (bit_and-mask (suc n) r)
]

or_low : (k n r : ℕ) → bit_or (clear_low k n) (r % 2 ^ k) ≡ clear_low k n + r % 2 ^ k
or_low k n r =
    bit_or-disjoint k (n / 2 ^ k) (r % 2 ^ k) (omega (arith, one-le-pow k 2 (omega arith)))

pub random_in6-InBlock6 :
    (hi lo host_bits r q : ℕ)
    → host_bits ≤ 128
    → InBlock6
        (clear_low (high_width host_bits) hi)
        (clear_low (low_width host_bits) lo)
        host_bits
        (random_in6
          (clear_low (high_width host_bits) hi)
          (clear_low (low_width host_bits) lo)
          host_bits
          r
          q)
unfolding random_in6
random_in6-InBlock6 hi lo h r q le =
    rw
      (
        and_mask_bits (high_width h) r (omega arith),
        and_mask_bits (low_width h) q (omega arith),
        or_low (high_width h) hi r,
        or_low (low_width h) lo q,
      )
      (omega (
        arith,
        one-le-pow (high_width h) 2 (omega arith),
        one-le-pow (low_width h) 2 (omega arith),
      ))

module _ (limit : ℕ) (draws : ℕ → ℕ) (hi lo h : ℕ) (P : Addr → Type 0)
    (inside : (r q : ℕ) → P (random_in6 hi lo h r q)) where
  pub sample6-All :
      (tries k : ℕ) (drawn : List Addr) → All P (sample6 tries limit draws k hi lo h drawn).0
  unfolding sample6
  sample6-All zero k drawn = tt
  sample6-All (suc tries) k drawn = ground (
    arith,
    inside (draws k % 2 ^ 64) (draws (k + 1) % 2 ^ 64),
    sample6-All tries (k + 2) drawn,
    sample6-All tries (k + 2)
        (random_in6 hi lo h (draws k % 2 ^ 64) (draws (k + 1) % 2 ^ 64) ∷ drawn),
  )

module _ (limit : ℕ) (draws : ℕ → ℕ) (hi lo h : ℕ) where
  pub sample6-Fresh :
      (tries k : ℕ) (drawn : List Addr) → Fresh drawn (sample6 tries limit draws k hi lo h drawn).0
  unfolding sample6
  sample6-Fresh zero k drawn = tt
  sample6-Fresh (suc tries) k drawn = ground (
    arith,
    sample6-Fresh tries (k + 2) drawn,
    sample6-Fresh tries (k + 2)
        (random_in6 hi lo h (draws k % 2 ^ 64) (draws (k + 1) % 2 ^ 64) ∷ drawn),
  )

  pub length-sample6 :
      (tries k : ℕ) (drawn : List Addr)
      → length drawn ≤ limit
      → length drawn + length (sample6 tries limit draws k hi lo h drawn).0 ≤ limit
  unfolding sample6
  length-sample6 zero k drawn le = omega arith
  length-sample6 (suc tries) k drawn le = ground (
    arith,
    length-sample6 tries (k + 2) drawn,
    length-sample6 tries (k + 2)
        (random_in6 hi lo h (draws k % 2 ^ 64) (draws (k + 1) % 2 ^ 64) ∷ drawn),
  )
