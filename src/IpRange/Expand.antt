-- ===== src/IpRange/Expand.antt =====
-- Expand of internal/iprange/iprange.go: the guard against oversized pools, the loop over the entries and
-- the reservoir. `rand.IntN` is a stream of numbers, `picks`, taken modulo its argument, and `rand.Uint64`
-- the stream `draws` of Sample.
pub mod Bounds
pub mod Unique
use rain_scanner.Base.{
  ℕ, zero, suc, ◌+◌, ◌-◌, ◌%◌, ◌^◌, ℤ, pos, Bool, true, false, ◌&&◌, not, List, [], ◌∷◌, ◌++◌,
  Option, none, some, ltb, if◌then◌else◌, pos_part, is_pos, Text, trim_space, set, length, Result,
  ok, err, is_some,
}
use rain_scanner.IpRange.Addr.{Addr, Prefix, is4, unmap, masked, has_addr}
use rain_scanner.IpRange.Family.{Strategy, allows}
use rain_scanner.IpRange.Netip.{Netip}
use rain_scanner.IpRange.Walk.{expand_prefix4}
use rain_scanner.IpRange.Sample.{expand_prefix6}

abbrev pub max_auto_pool : ℕ
max_auto_pool = 2 ^ 22

-- The variables that `emit` writes: the keys of `seen`, `out`, `n`, and the numbers drawn from IntN.
pub record Pool : Type 0 where
  pub seen : List Addr
  pub out : List Addr
  pub n : ℕ
  pub picked : ℕ

abbrev pub empty_pool : Pool
empty_pool = record { seen = []; out = []; n = 0; picked = 0 }

-- The branch of `emit` with `seen == nil`: reservoir sampling.
unfoldable pub reservoir : ℕ → (ℕ → ℕ) → Addr → Pool → Pool
reservoir max_total picks a p =
    let n = p.n + 1 in
    let j = picks p.picked % n in
    if ltb (length p.out) max_total
    then record p { out = p.out ++ a ∷ []; n = n }
    else if ltb j max_total
    then record p { out = set p.out j a; n = n; picked = p.picked + 1 }
    else record p { n = n; picked = p.picked + 1 }

-- The branch of `emit` with a map `seen`: every address once.
unfoldable pub emit_new : Addr → Pool → Pool
emit_new a p =
    if has_addr a p.seen then p else record p { seen = a ∷ p.seen; out = p.out ++ a ∷ [] }

unfoldable pub emit : ℤ → (ℕ → ℕ) → Addr → Pool → Pool
emit max_total picks a p =
    if is_pos max_total then reservoir (pos_part max_total) picks a p else emit_new a p

unfoldable pub emit_all : ℤ → (ℕ → ℕ) → List Addr → Pool → Pool
emit_all max_total picks [] p = p
emit_all max_total picks (a ∷ l) p = emit_all max_total picks l (emit max_total picks a p)

-- The size of the IPv4 pool, in uint64.
unfoldable pub pool_size : ℕ → List (Option Prefix) → ℕ
pool_size total [] = total
pool_size total (none ∷ ps) = pool_size total ps
pool_size total (some p ∷ ps) =
    let b = 32 - p.bits in
    let more = pool_size ((total + 2 ^ b % 2 ^ 64) % 2 ^ 64) ps in
    let same = pool_size total ps in
    if is4 p.addr then (if ltb b 63 then more else 2 ^ 64 - 1) else same

module _ (np : Netip) where
  unfoldable pub parse_all : List Text → List (Option Prefix)
  parse_all [] = []
  parse_all (c ∷ cidrs) = np.parse_prefix (trim_space c) ∷ parse_all cidrs

  -- An uncapped run over an oversized pool becomes a reservoir sample.
  unfoldable pub guard_pool : List Text → Strategy → Strategy
  unfolding pool_size parse_all
  guard_pool cidrs s =
      if not (is_pos s.max_total)
        && (not (is_pos s.max_hosts_per_cidr) && not (is_pos s.sample_per_24))
      then if ltb max_auto_pool (pool_size 0 (parse_all cidrs))
        then record s { max_total = pos max_auto_pool }
        else s
      else s

  -- What one entry emits, with the new count of words drawn; an entry that does not parse is an error.
  abbrev pub from_addr : Strategy → Text → ℕ → Option Addr → Result Text (List Addr × ℕ)
  from_addr s c k none = err c
  from_addr s c k (some a) = if allows s.family a then ok (unmap a ∷ [], k) else ok ([], k)

  abbrev pub from_prefix :
      Strategy → (ℕ → ℕ) → Text → ℕ → Option Addr → Option Prefix → Result Text (List Addr × ℕ)
  from_prefix s draws c k bare none = from_addr s c k bare
  from_prefix s draws c k bare (some p) =
      if not (allows s.family (masked p).addr)
      then ok ([], k)
      else if is4 p.addr
      then ok (expand_prefix4 (masked p) s, k)
      else ok (expand_prefix6 (masked p) s draws k)

  unfoldable pub entry_hosts : Strategy → (ℕ → ℕ) → Text → ℕ → Result Text (List Addr × ℕ)
  entry_hosts s draws c k =
      from_prefix s draws c k (np.parse_addr (trim_space c)) (np.parse_prefix (trim_space c))

  abbrev pub and_then :
      Result Text (List Addr × ℕ) → (List Addr → ℕ → Result Text Pool) → Result Text Pool
  and_then (err c) rest = err c
  and_then (ok (l, k)) rest = rest l k

  -- The loop over the entries.
  unfoldable pub expand_loop :
      Strategy → (ℕ → ℕ) → (ℕ → ℕ) → List Text → ℕ → Pool → Result Text Pool
  expand_loop s draws picks [] k p = ok p
  expand_loop s draws picks (c ∷ cidrs) k p =
      and_then (entry_hosts s draws c k)
        (λ l k'. expand_loop s draws picks cidrs k' (emit_all s.max_total picks l p))

  abbrev pub hosts_of : Result Text Pool → Result Text (List Addr)
  hosts_of (err c) = err c
  hosts_of (ok p) = ok p.out

  unfoldable pub expand : List Text → Strategy → (ℕ → ℕ) → (ℕ → ℕ) → Result Text (List Addr)
  expand cidrs s draws picks =
      hosts_of (expand_loop (guard_pool cidrs s) draws picks cidrs 0 empty_pool)
