-- ===== src/IpRange/Sample/Bounds.antt =====
-- What a sampled or enumerated IPv6 prefix emits: distinct addresses of the prefix, within the limit.
use native.Mathlib.Nat.{one-le-pow}
use rain_scanner.Base.{
  ℕ, zero, suc, ◌+◌, ◌-◌, ◌*◌, ◌%◌, ◌^◌, ◌≤◌, ◌<◌, min, ◌≡◌, refl, ap, sym, subst, Bool, true,
  false, ◌&&◌, List, [], ◌∷◌, arith, ltb, leb, length, All, Bool-cases, inl, inr, leb→le, ltb→lt,
  &&_parts, Text,
}
use rain_scanner.Base.Bits.{block_fits}
use rain_scanner.IpRange.Addr.{Addr, v4, v6, addr16, has_addr, masked, clear_low}
use rain_scanner.IpRange.Family.{Strategy}
use rain_scanner.IpRange.Sample.{limit6, enumerate6, sample6, expand_prefix6}
use rain_scanner.IpRange.Sample.Draws.{
  low_width, high_width, InBlock6, Fresh, random_in6-InBlock6, sample6-All, sample6-Fresh,
  length-sample6,
}

-- Every listed address has its low half below `b`.
abbrev Below6 : ℕ → Addr → Type 0
Below6 b (v4 n) = ⊥
Below6 b (v6 hi lo z) = lo < b

has_addr-Below6 : (hi b : ℕ) (l : List Addr) → All (Below6 b) l → has_addr (addr16 hi b) l ≡ false
unfolding has_addr addr16
has_addr-Below6 hi b [] h = refl
has_addr-Below6 hi b (v4 n ∷ l) h = absurd (h.0)
has_addr-Below6 hi b (v6 a c z ∷ l) h = ground (arith, has_addr-Below6 hi b l h.1)

Below6-mono : (b : ℕ) (l : List Addr) → All (Below6 b) l → All (Below6 (suc b)) l
Below6-mono b [] h = tt
Below6-mono b (v4 n ∷ l) h = absurd (h.0)
Below6-mono b (v6 a c z ∷ l) h = (omega arith, Below6-mono b l h.1)

module _ (hi lo host_bits : ℕ) (fits : lo + 2 ^ low_width host_bits ≤ 2 ^ 64) where
  enumerate6-InBlock6 :
      (n i : ℕ)
      → i + n ≤ 2 ^ low_width host_bits
      → All (InBlock6 hi lo host_bits) (enumerate6 n i hi lo)
  unfolding enumerate6
  enumerate6-InBlock6 zero i le = tt
  enumerate6-InBlock6 (suc n) i le = (
    omega (arith, one-le-pow (high_width host_bits) 2 (omega arith)),
    enumerate6-InBlock6 n (i + 1) (omega arith),
  )

  enumerate6-Fresh :
      (n i : ℕ) (drawn : List Addr)
      → i + n ≤ 2 ^ low_width host_bits
      → All (Below6 (lo + i)) drawn
      → Fresh drawn (enumerate6 n i hi lo)
  unfolding enumerate6 addr16
  enumerate6-Fresh zero i drawn le h = tt
  enumerate6-Fresh (suc n) i drawn le h =
      let wrap : (lo + i) % 2 ^ 64 ≡ lo + i = omega arith in
      let next : lo + (i + 1) ≡ suc (lo + i) = omega arith in
      rw wrap (
        has_addr-Below6 hi (lo + i) drawn h,
        enumerate6-Fresh n (i + 1) (v6 hi (lo + i) [] ∷ drawn) (omega arith) (
            subst (λ t. All (Below6 t) (v6 hi (lo + i) [] ∷ drawn)) (sym next)
              (omega arith, Below6-mono (lo + i) drawn h)),
      )

length-enumerate6 : (n i hi lo : ℕ) → length (enumerate6 n i hi lo) ≡ n
unfolding enumerate6
length-enumerate6 zero i hi lo = refl
length-enumerate6 (suc n) i hi lo = ap suc (length-enumerate6 n (i + 1) hi lo)

-- The test of expandPrefix6 for enumerating the prefix exactly.
abbrev pub is_small6 : ℕ → Strategy → Bool
is_small6 host_bits s = ltb host_bits 63 && leb (2 ^ host_bits) (limit6 s)

module _ (hi lo bits : ℕ) (z : Text) (s : Strategy) (draws : ℕ → ℕ) (k : ℕ)
    (word : lo < 2 ^ 64) where
  abbrev pub emitted6 : List Addr
  emitted6 = (expand_prefix6 (masked (record { addr = v6 hi lo z; bits = bits })) s draws k).0

  abbrev pub Inside6 : Addr → Type 0
  Inside6 =
      InBlock6 (clear_low (high_width (128 - bits)) hi) (clear_low (low_width (128 - bits)) lo)
        (128 - bits)

  block6_fits : clear_low (low_width (128 - bits)) lo + 2 ^ low_width (128 - bits) ≤ 2 ^ 64
  block6_fits = block_fits 64 (low_width (128 - bits)) lo (omega arith) word

  abbrev low6 : ℕ
  low6 = clear_low (low_width (128 - bits)) lo

  abbrev high6 : ℕ
  high6 = clear_low (high_width (128 - bits)) hi

  expand_small :
      is_small6 (128 - bits) s ≡ true
      → expand_prefix6 (masked (record { addr = v6 hi lo z; bits = bits })) s draws k
        ≡ (enumerate6 (2 ^ (128 - bits)) 0 high6 low6, k)
  unfolding expand_prefix6
  expand_small small = rw small

  expand_large :
      is_small6 (128 - bits) s ≡ false
      → expand_prefix6 (masked (record { addr = v6 hi lo z; bits = bits })) s draws k
        ≡ sample6 (limit6 s * 4) (limit6 s) draws k high6 low6 (128 - bits) []
  unfolding expand_prefix6
  expand_large large = rw large

  abbrev Good6 : List Addr × ℕ → Type 0
  Good6 r = All Inside6 r.0 × Fresh [] r.0 × (length r.0 ≤ limit6 s)

  enumerated-Good6 :
      is_small6 (128 - bits) s ≡ true → Good6 (enumerate6 (2 ^ (128 - bits)) 0 high6 low6, k)
  enumerated-Good6 small =
      let h = 128 - bits in
      let parts : (ltb h 63 ≡ true) × (leb (2 ^ h) (limit6 s) ≡ true) = &&_parts _ _ small in
      let same : min h 64 ≡ h = omega (arith, ltb→lt h 63 parts.0) in
      let span : 0 + 2 ^ h ≤ 2 ^ low_width h = omega (arith, ap (λ (t : ℕ). 2 ^ t) same) in
      (
        enumerate6-InBlock6 high6 low6 h block6_fits (2 ^ h) 0 span,
        enumerate6-Fresh high6 low6 h block6_fits (2 ^ h) 0 [] span tt,
        omega (arith, length-enumerate6 (2 ^ h) 0 high6 low6, leb→le (2 ^ h) (limit6 s) parts.1),
      )

  sampled-Good6 : Good6 (sample6 (limit6 s * 4) (limit6 s) draws k high6 low6 (128 - bits) [])
  sampled-Good6 =
      let h = 128 - bits in
      (
        sample6-All (limit6 s) draws high6 low6 h Inside6
            (λ r q. random_in6-InBlock6 hi lo h r q (omega arith)) (limit6 s * 4) k [],
        sample6-Fresh (limit6 s) draws high6 low6 h (limit6 s * 4) k [],
        omega
            (arith, length-sample6 (limit6 s) draws high6 low6 h (limit6 s * 4) k [] (omega arith)),
      )

  -- On every prefix length and for every stream of random words, expandPrefix6 on the masked prefix
  -- emits addresses of that prefix, no address twice, and no more than the limit of the strategy.
  pub expand_prefix6-InBlock6 :
      All Inside6 emitted6 × Fresh [] emitted6 × (length emitted6 ≤ limit6 s)
  expand_prefix6-InBlock6 = elim (Bool-cases (is_small6 (128 - bits) s)) [
    | inl small ↦ subst Good6 (sym (expand_small small)) (enumerated-Good6 small)
    | inr large ↦ subst Good6 (sym (expand_large large)) sampled-Good6
  ]

  -- A prefix of at most `limit` hosts, with fewer than 63 free bits, is enumerated whole: one address for
  -- each of its hosts, and no random word is consumed.
  pub length-expand_prefix6 :
      is_small6 (128 - bits) s ≡ true
      → (length emitted6 ≡ 2 ^ (128 - bits))
        × ((expand_prefix6 (masked (record { addr = v6 hi lo z; bits = bits })) s draws k).1 ≡ k)
  length-expand_prefix6 small =
      subst (λ r. (length r.0 ≡ 2 ^ (128 - bits)) × (r.1 ≡ k)) (sym (expand_small small))
        (length-enumerate6 (2 ^ (128 - bits)) 0 high6 low6, refl)
