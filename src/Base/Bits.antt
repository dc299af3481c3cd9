-- ===== src/Base/Bits.antt =====
-- `|` of disjoint fields and `&` with a low mask, as arithmetic, at every width.
use Prim.Native.Nat.{digits, bit_and-bitwise, bit_or-bitwise}
use Prim.Native.Nat.{
  ℕ, zero, suc, ◌+◌, ◌-◌, ◌*◌, ◌/◌, ◌%◌, ◌^◌, ◌≤◌, ◌<◌, min, max, bit_and, bit_or,
}
use mathlib.Core.Path.{◌≡◌, refl, sym, subst, ap, ◌∙◌}
use native.Mathlib.Nat.{mul-le-mul_right, pow-suc, one-le-pow, add-zero, add-suc, mul_assoc}
use native.Mathlib.Omega.{arith}

-- Both operations go through the binary digits from the lowest on; rounds that are left over change nothing.
module _ (rest : ℕ → ℕ) (join : ℕ → ℕ → ℕ) where
  digits-zero : (rounds b : ℕ) → digits rest join rounds 0 b ≡ rest b
  digits-zero zero b = refl
  digits-zero (suc rounds) b = refl

  digits_enough :
      (rounds more x y : ℕ)
      → x ≤ rounds
      → rounds ≤ more
      → digits rest join more x y ≡ digits rest join rounds x y
  digits_enough rounds more zero y le le' = digits-zero more y ∙ sym (digits-zero rounds y)
  digits_enough zero more (suc x) y le le' = absurd (omega (arith, le))
  digits_enough (suc rounds) zero (suc x) y le le' = absurd (omega (arith, le'))
  digits_enough (suc rounds) (suc more) (suc x) y le le' =
      ap (λ t. t * 2 + join (suc x % 2) (y % 2))
        (digits_enough rounds more (suc x / 2) (y / 2) (omega (arith, le)) (omega (arith, le')))

and_step : (x y : ℕ) → bit_and x y ≡ bit_and (x / 2) (y / 2) * 2 + min (x % 2) (y % 2)
and_step zero y = ground (arith, bit_and-bitwise 0 y, bit_and-bitwise 0 (y / 2))
and_step (suc x) y =
    let half = suc x / 2 in
    let same = digits_enough (λ b. 0) min half x half (y / 2) (omega arith) (omega arith) in
    omega (arith, same, bit_and-bitwise half (y / 2), bit_and-bitwise (suc x) y)

or_step : (x y : ℕ) → bit_or x y ≡ bit_or (x / 2) (y / 2) * 2 + max (x % 2) (y % 2)
or_step zero y = ground (arith, bit_or-bitwise 0 y, bit_or-bitwise 0 (y / 2))
or_step (suc x) y =
    let half = suc x / 2 in
    let same = digits_enough (λ b. b) max half x half (y / 2) (omega arith) (omega arith) in
    omega (arith, same, bit_or-bitwise half (y / 2), bit_or-bitwise (suc x) y)

-- No digit on the right.
right_zero : (bound x : ℕ) → x ≤ bound → (bit_and x 0 ≡ 0) × (bit_or x 0 ≡ x)
right_zero bound zero le = (refl, refl)
right_zero zero (suc x) le = absurd (omega (arith, le))
right_zero (suc bound) (suc x) le =
    let (none, all) = right_zero bound (suc x / 2) (omega (arith, le)) in
    (omega (arith, none, and_step (suc x) 0), omega (arith, all, or_step (suc x) 0))

shift_suc : (q k : ℕ) → q * 2 ^ suc k ≡ 2 * (q * 2 ^ k)
shift_suc q k = omega (arith, ap (λ (t : ℕ). q * t) (pow-suc 2 k))

-- `(q << k) | r` is a sum when `r` fits in `k` bits.
pub bit_or-disjoint : (k q r : ℕ) → r < 2 ^ k → bit_or (q * 2 ^ k) r ≡ q * 2 ^ k + r
bit_or-disjoint zero q r h = ground (arith, right_zero q q)
bit_or-disjoint (suc k) q r h = ground (
  arith,
  or_step (q * 2 ^ suc k) r,
  shift_suc q k,
  bit_or-disjoint k q (r / 2) (omega (arith, pow-suc 2 k)),
)

and_split : (k q r : ℕ) → r < 2 ^ k → bit_and (q * 2 ^ k + r) (2 ^ k - 1) ≡ r
and_split zero q r h = ground (arith, right_zero (q * 1 + r) (q * 1 + r))
and_split (suc k) q r h = ground (
  arith,
  and_step (q * 2 ^ suc k + r) (2 ^ suc k - 1),
  shift_suc q k,
  pow-suc 2 k,
  one-le-pow k 2,
  and_split k q (r / 2) (omega (arith, pow-suc 2 k)),
)

-- A mask of `k` low bits is the remainder by `2 ^ k`.
pub bit_and-mask : (k a : ℕ) → bit_and a (2 ^ k - 1) ≡ a % 2 ^ k
bit_and-mask k a = ground (arith, one-le-pow k 2, and_split k (a / 2 ^ k) (a % 2 ^ k))

-- The two widths of a sum of exponents.
pub pow-add : (m n : ℕ) → 2 ^ (m + n) ≡ 2 ^ m * 2 ^ n
pow-add m zero = rw add-zero (omega arith)
pow-add m (suc n) =
    rw (add-suc, pow-suc 2 (m + n), pow-suc 2 n, pow-add m n) (mul_assoc (2 ^ m) (2 ^ n) 2)

quotient_lt : (b c n : ℕ) → 1 ≤ b → n < b * c → n / b < c
quotient_lt b c n h lt = grind arith

block_le : (b c n : ℕ) → 1 ≤ b → n < b * c → n / b * b + b ≤ b * c
block_le b c n h lt = let q = quotient_lt b c n h lt in grind (arith, mul-le-mul_right b q)

-- The block of `2 ^ k` words that holds the `w`-bit word `n` ends within `w` bits.
pub block_fits : (w k n : ℕ) → k ≤ w → n < 2 ^ w → n / 2 ^ k * 2 ^ k + 2 ^ k ≤ 2 ^ w
block_fits w k n h lt =
    let e : 2 ^ w ≡ 2 ^ k * 2 ^ (w - k) =
      ap (λ (t : ℕ). 2 ^ t) {x = w} (omega arith) ∙ pow-add k (w - k) in
    subst (λ t. n / 2 ^ k * 2 ^ k + 2 ^ k ≤ t) (sym e)
      (block_le (2 ^ k) (2 ^ (w - k)) n (one-le-pow k 2 (omega arith)) (subst (λ t. n < t) e lt))
