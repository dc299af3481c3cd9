-- ===== src/IpRange/Walk/Bounds.antt =====
-- What the closed form of the walk gives: every address in its block, in order, and how many.
use rain_scanner.Base.{
  ℕ, zero, suc, ◌+◌, ◌-◌, ◌^◌, ◌≤◌, ◌<◌, ◌≡◌, refl, ap, subst, ℤ, List, [], ◌∷◌, arith, All, length,
  pos_part, is_pos, true, false,
}
use rain_scanner.IpRange.Addr.{Addr, v4, v6, masked, clear_low}
use rain_scanner.IpRange.Family.{Strategy}
use rain_scanner.IpRange.Walk.{stride4, expand_prefix4}
use rain_scanner.IpRange.Walk.Steps.{
  every, rounds, capped, emitted4, stride4_bounds, expand_prefix4-every,
}

-- An IPv4 address in the block of `size` words from `low` on.
abbrev pub InBlock : ℕ → ℕ → Addr → Type 0
InBlock low size (v4 w) = (low ≤ w) × (w < low + size)
InBlock low size (v6 hi lo z) = ⊥

-- The words grow along the list, so no address occurs twice.
abbrev pub Ascending : ℕ → List Addr → Type 0
Ascending low [] = Unit
Ascending low (v4 w ∷ l) = (low ≤ w) × Ascending (suc w) l
Ascending low (v6 hi lo z ∷ l) = ⊥

rounds_next :
    (stride high w n : ℕ)
    → 1 ≤ stride
    → suc n ≤ rounds stride (high - w)
    → (w < high) × (n ≤ rounds stride (high - (w + stride)))
rounds_next stride high w n h le = grind arith

every-InBlock :
    (stride low size w n : ℕ)
    → 1 ≤ stride
    → low ≤ w
    → n ≤ rounds stride (low + size - w)
    → All (InBlock low size) (every stride w n)
every-InBlock stride low size w zero h a le = tt
every-InBlock stride low size w (suc n) h a le =
    let (inside, rest) = rounds_next stride (low + size) w n h le in
    ((a, inside), every-InBlock stride low size (w + stride) n h (omega arith) rest)

every-Ascending : (stride low w n : ℕ) → 1 ≤ stride → low ≤ w → Ascending low (every stride w n)
every-Ascending stride low w zero h a = tt
every-Ascending stride low w (suc n) h a =
    (a, every-Ascending stride (suc w) (w + stride) n h (omega arith))

length-every : (stride w n : ℕ) → length (every stride w n) ≡ n
length-every stride w zero = refl
length-every stride w (suc n) = ap suc (length-every stride (w + stride) n)

capped-le : (cap : ℤ) (n : ℕ) → capped cap 0 n ≤ n
capped-le cap n = ground arith

-- Every address that expandPrefix4 emits lies in the block of the masked prefix, and the addresses
-- grow along the list, so none is emitted twice.
pub expand_prefix4-InBlock :
    (n bits : ℕ) (s : Strategy)
    → n < 2 ^ 32
    → bits ≤ 32
    → All
        (InBlock (clear_low (32 - bits) n) (2 ^ (32 - bits)))
        (expand_prefix4 (masked (record { addr = v4 n; bits = bits })) s)
      × Ascending
          (clear_low (32 - bits) n)
          (expand_prefix4 (masked (record { addr = v4 n; bits = bits })) s)
expand_prefix4-InBlock n bits s lt le =
    let h = 32 - bits in
    let low = clear_low h n in
    let stride = stride4 h s.sample_per_24 in
    let count = emitted4 h stride s in
    let (moves, _) = stride4_bounds h s.sample_per_24 (omega arith) in
    let exact : 2 ^ h ≡ low + 2 ^ h - low = omega arith in
    let inside : count ≤ rounds stride (low + 2 ^ h - low) =
      subst (λ t. count ≤ rounds stride t) exact (capped-le s.max_hosts_per_cidr _) in
    rw (expand_prefix4-every n bits s lt le) (
      every-InBlock stride low (2 ^ h) low count moves (omega arith) inside,
      every-Ascending stride low low count moves (omega arith),
    )

rounds_one : (span : ℕ) → rounds 1 span ≡ span
rounds_one span = omega arith

-- With neither sampling nor a per-CIDR cap the walk emits one address for each host of the block.
pub length-expand_prefix4 :
    (n bits : ℕ) (s : Strategy)
    → n < 2 ^ 32
    → bits ≤ 32
    → is_pos s.sample_per_24 ≡ false
    → is_pos s.max_hosts_per_cidr ≡ false
    → length (expand_prefix4 (masked (record { addr = v4 n; bits = bits })) s) ≡ 2 ^ (32 - bits)
length-expand_prefix4 n bits s lt le off uncapped =
    rw (expand_prefix4-every n bits s lt le, length-every)
      (unfold stride4 in rw (off, uncapped) (rounds_one (2 ^ (32 - bits))))

-- With a positive per-CIDR cap the walk never emits more addresses than the cap.
pub length-expand_prefix4-le :
    (n bits : ℕ) (s : Strategy)
    → n < 2 ^ 32
    → bits ≤ 32
    → is_pos s.max_hosts_per_cidr ≡ true
    → length (expand_prefix4 (masked (record { addr = v4 n; bits = bits })) s)
      ≤ pos_part s.max_hosts_per_cidr
length-expand_prefix4-le n bits s lt le cap =
    rw (expand_prefix4-every n bits s lt le, length-every) (rw cap (omega arith))
