-- ===== src/IpRange/Walk/Steps.antt =====
-- The walk in closed form: how many addresses it emits, and which.
use rain_scanner.Base.{
  ℕ, zero, suc, ◌+◌, ◌-◌, ◌*◌, ◌/◌, ◌%◌, ◌^◌, ◌≤◌, ◌<◌, min, ◌≡◌, ap, ℤ, true, false, ◌&&◌, List,
  [], ◌∷◌, arith, ltb, leb, if◌then◌else◌, pos_part, is_pos, Bool-cases, inl, inr, ltb→ge, ltb→lt,
}
use native.Mathlib.Nat.{add_assoc, add-zero, sub-zero, one-le-pow, pow-le-pow_right}
use rain_scanner.IpRange.Addr.{
  Addr, v4, as4, ip_to_u32, u32_to_ip, u32_to_ip-eq-v4, ip_to_u32-as4, masked, clear_low,
}
use rain_scanner.IpRange.Family.{Strategy}
use rain_scanner.Base.Bits.{block_fits}
use rain_scanner.IpRange.Walk.{walk4, stride4, expand_prefix4}

-- `n` addresses from the word `w` on, `stride` apart.
abbrev pub every : ℕ → ℕ → ℕ → List Addr
every stride w zero = []
every stride w (suc n) = v4 w ∷ every stride (w + stride) n

-- How many multiples of `stride` lie in a span.
abbrev pub rounds : ℕ → ℕ → ℕ
rounds stride span = (span + (stride - 1)) / stride

abbrev pub capped : ℤ → ℕ → ℕ → ℕ
capped cap emitted n = if is_pos cap then min n (pos_part cap - emitted) else n

rounds_step :
    (stride total i : ℕ)
    → 1 ≤ stride
    → i < total
    → rounds stride (total - i) ≡ suc (rounds stride (total - (i + stride)))
rounds_step stride total i h lt = grind arith

rounds_done : (stride total i : ℕ) → 1 ≤ stride → total ≤ i → rounds stride (total - i) ≡ 0
rounds_done stride total i h le = grind arith

capped_stop :
    (cap : ℤ) (emitted n : ℕ)
    → (is_pos cap && leb (pos_part cap) emitted) ≡ true
    → capped cap emitted n ≡ 0
capped_stop cap emitted n h = ground arith

capped_more :
    (cap : ℤ) (emitted n : ℕ)
    → (is_pos cap && leb (pos_part cap) emitted) ≡ false
    → capped cap emitted (suc n) ≡ suc (capped cap (emitted + 1) n)
capped_more cap emitted n h = ground arith

capped_none : (cap : ℤ) (emitted : ℕ) → capped cap emitted 0 ≡ 0
capped_none cap emitted = ground arith

module _ (stride total start : ℕ) (cap : ℤ) (moves : 1 ≤ stride) (small : stride ≤ 2 ^ 32)
    (fits : start + total ≤ 2 ^ 32) where
  -- Enough fuel gives the closed form, from any point of the loop.
  walk4-every :
      (fuel i emitted : ℕ)
      → total ≤ i + fuel
      → i ≤ 2 ^ 33
      → walk4 fuel total stride cap start i emitted
        ≡ every stride (start + i) (capped cap emitted (rounds stride (total - i)))
  unfolding walk4
  walk4-every zero i emitted enough bound =
      rw (rounds_done stride total i moves (omega arith), capped_none cap emitted)
  walk4-every (suc fuel) i emitted enough bound = elim (Bool-cases (ltb i total)) [
    | inr done ↦
        rw (done, rounds_done stride total i moves (ltb→ge i total done), capped_none cap emitted)
    | inl more ↦ elim (Bool-cases (is_pos cap && leb (pos_part cap) emitted)) [
      | inl full ↦ rw (more, full, capped_stop cap emitted _ full)
      | inr room ↦
          let lt = ltb→lt i total more in
          let here : u32_to_ip ((start + i % 2 ^ 32) % 2 ^ 32) ≡ v4 (start + i) =
            rw (u32_to_ip-eq-v4 ((start + i % 2 ^ 32) % 2 ^ 32) (omega arith))
              (ap v4 (omega arith)) in
          let wrap : (i + stride) % 2 ^ 64 ≡ i + stride = omega arith in
          let ih = walk4-every fuel (i + stride) (emitted + 1) (omega arith) (omega arith) in
          rw
            (
              more,
              room,
              here,
              wrap,
              ih,
              rounds_step stride total i moves lt,
              capped_more cap emitted _ room,
            )
            (rw (← add_assoc start i stride))
    ]
  ]

pow_le_32 : (k : ℕ) → k ≤ 32 → 2 ^ k ≤ 2 ^ 32
pow_le_32 k h = pow-le-pow_right (omega arith) h

quotient_le : (a b : ℕ) → a / b ≤ a
quotient_le a b = grind arith

pub stride4_bounds :
    (host_bits : ℕ) (sample : ℤ)
    → host_bits ≤ 32
    → (1 ≤ stride4 host_bits sample) × (stride4 host_bits sample ≤ 2 ^ 32)
unfolding stride4
stride4_bounds host_bits sample h = ground (
  arith,
  pow_le_32 host_bits h,
  quotient_le (2 ^ host_bits % 2 ^ 64) (2 ^ (host_bits - 8) % 2 ^ 64 * pos_part sample % 2 ^ 64),
)

-- The addresses that a prefix with `host_bits` free bits emits under a strategy.
abbrev pub emitted4 : ℕ → ℕ → Strategy → ℕ
emitted4 host_bits stride s = capped s.max_hosts_per_cidr 0 (rounds stride (2 ^ host_bits))

-- For an IPv4 prefix of any length, expandPrefix4 on the masked prefix emits the network address and
-- every stride-th one after it, as many as the block and the per-CIDR cap leave; nothing wraps around.
pub expand_prefix4-every :
    (n bits : ℕ) (s : Strategy)
    → n < 2 ^ 32
    → bits ≤ 32
    → expand_prefix4 (masked (record { addr = v4 n; bits = bits })) s
      ≡ every
          (stride4 (32 - bits) s.sample_per_24)
          (clear_low (32 - bits) n)
          (emitted4 (32 - bits) (stride4 (32 - bits) s.sample_per_24) s)
unfolding expand_prefix4
expand_prefix4-every n bits s lt le =
    let h = 32 - bits in
    let total : 2 ^ h % 2 ^ 64 ≡ 2 ^ h = omega (arith, pow_le_32 h (omega arith)) in
    let (moves, small) = stride4_bounds h s.sample_per_24 (omega arith) in
    let fits = block_fits 32 h n (omega arith) lt in
    let word : ip_to_u32 (as4 (clear_low h n)) ≡ clear_low h n =
      ip_to_u32-as4 (clear_low h n) (omega (arith, one-le-pow h 2 (omega arith))) in
    rw (
      total,
      word,
      walk4-every (stride4 h s.sample_per_24) (2 ^ h) (clear_low h n) s.max_hosts_per_cidr moves
          small fits (2 ^ h) 0 0 (omega arith) (omega arith),
      add-zero,
      sub-zero,
    )
