-- ===== src/IpRange/Expand/Bounds.antt =====
-- Reservoir sampling keeps its bound, and an invariant of `emit` holds of the result of Expand.
use rain_scanner.Base.{
  ℕ, ◌+◌, ◌≤◌, ◌%◌, min, ◌≡◌, refl, ap, sym, subst, ℤ, true, false, List, [], ◌∷◌, arith, length,
  length-append, length-set, All, All-append, All-set, ltb, pos_part, is_pos, pos, Text, Result, ok,
  err,
}
use rain_scanner.IpRange.Addr.{Addr}
use rain_scanner.IpRange.Family.{Strategy}
use rain_scanner.IpRange.Netip.{Netip}
use rain_scanner.IpRange.Expand.{
  Pool, empty_pool, reservoir, emit, emit_all, entry_hosts, guard_pool, expand_loop, hosts_of,
  expand, and_then, pool_size, parse_all, max_auto_pool,
}

-- A property of what a computation returns, if it returns.
abbrev pub Returns {ℓ} : {A : Type ℓ} → (A → Type 0) → Result Text A → Type 0
Returns P (ok a) = P a
Returns P (err c) = Unit

module _ (max_total : ℤ) (picks : ℕ → ℕ) (P : Pool → Type 0) where
  pub emit_all_inv :
      ((a : Addr) (p : Pool) → P p → P (emit max_total picks a p))
      → (l : List Addr) (p : Pool) → P p
      → P (emit_all max_total picks l p)
  unfolding emit_all
  emit_all_inv step [] p h = h
  emit_all_inv step (a ∷ l) p h = emit_all_inv step l (emit max_total picks a p) (step a p h)

module _ (np : Netip) (s : Strategy) (draws picks : ℕ → ℕ) (P : Pool → Type 0) where
  pub expand_loop_inv :
      ((a : Addr) (p : Pool) → P p → P (emit s.max_total picks a p))
      → (cidrs : List Text) (k : ℕ) (p : Pool) → P p
      → Returns P (expand_loop np s draws picks cidrs k p)
  unfolding expand_loop
  expand_loop_inv step [] k p h = h
  expand_loop_inv step (c ∷ cidrs) k p h =
      go (entry_hosts np s draws c k)
        (λ l k'. expand_loop_inv step cidrs k' _ (emit_all_inv s.max_total picks P step l p h))
    where
      go :
          (r : Result Text (List Addr × ℕ))
          → ((l : List Addr) (k' : ℕ)
              → Returns P (expand_loop np s draws picks cidrs k' (emit_all s.max_total picks l p)))
          → Returns P (
              and_then np r
                (λ l k'. expand_loop np s draws picks cidrs k' (emit_all s.max_total picks l p)))
      go (err c') rest = tt
      go (ok (l, k')) rest = rest l k'

-- The reservoir holds as many addresses as were offered, up to its size.
abbrev pub IsFull : ℕ → Pool → Type 0
IsFull max_total p = length p.out ≡ min p.n max_total

reservoir-IsFull :
    (max_total : ℕ) (picks : ℕ → ℕ) (a : Addr) (p : Pool)
    → IsFull max_total p
    → IsFull max_total (reservoir max_total picks a p)
unfolding reservoir
reservoir-IsFull max_total picks a p h =
    ground (arith, length-append p.out (a ∷ []), length-set p.out (picks p.picked % (p.n + 1)) a)

n-reservoir :
    (max_total : ℕ) (picks : ℕ → ℕ) (a : Addr) (p : Pool)
    → (reservoir max_total picks a p).n ≡ p.n + 1
unfolding reservoir
n-reservoir max_total picks a p = ground arith

reservoir-All :
    (max_total : ℕ) (picks : ℕ → ℕ) (P : Addr → Type 0) (a : Addr) (p : Pool)
    → P a
    → All P p.out
    → All P (reservoir max_total picks a p).out
unfolding reservoir
reservoir-All max_total picks P a p pa old = ground (
  arith,
  All-append P p.out (a ∷ []) old (pa, tt),
  All-set P p.out (picks p.picked % (p.n + 1)) a pa old,
)

emit-reservoir :
    (max_total : ℤ) (picks : ℕ → ℕ) (a : Addr) (p : Pool)
    → is_pos max_total ≡ true
    → emit max_total picks a p ≡ reservoir (pos_part max_total) picks a p
unfolding emit
emit-reservoir max_total picks a p on = rw on

-- Offered any list of addresses, a reservoir of positive size MaxTotal ends with as many addresses as it was
-- offered, up to MaxTotal; and each of them was in it before or is one of those offered, whatever numbers
-- IntN gives.
pub emit_all-reservoir :
    (max_total : ℤ) (picks : ℕ → ℕ) (P : Addr → Type 0) (l : List Addr) (p : Pool)
    → is_pos max_total ≡ true
    → IsFull (pos_part max_total) p
    → All P p.out
    → All P l
    → (length (emit_all max_total picks l p).out ≡ min (p.n + length l) (pos_part max_total))
      × All P (emit_all max_total picks l p).out
unfolding emit_all
emit_all-reservoir max_total picks P [] p on full old new = (omega arith, old)
emit_all-reservoir max_total picks P (a ∷ l) p on full old new =
    let size = pos_part max_total in
    let q = reservoir size picks a p in
    let (counted, kept) =
      emit_all-reservoir max_total picks P l q on (reservoir-IsFull size picks a p full)
        (reservoir-All size picks P a p new.0 old) new.1 in
    subst
      (λ (r : Pool).
        (length (emit_all max_total picks l r).out ≡ min (p.n + length (a ∷ l)) size)
        × All P (emit_all max_total picks l r).out)
      (sym (emit-reservoir max_total picks a p on))
      (omega (arith, counted, n-reservoir size picks a p), kept)

guard_keeps :
    (np : Netip) (cidrs : List Text) (s : Strategy)
    → is_pos s.max_total ≡ true
    → guard_pool np cidrs s ≡ s
unfolding guard_pool
guard_keeps np cidrs s on = rw on

pub of_returned :
    (np : Netip) (P : Pool → Type 0) (r : Result Text Pool) (hosts : List Addr)
    → Returns P r
    → hosts_of np r ≡ ok hosts
    → (p : Pool) × P p × (p.out ≡ hosts)
of_returned np P (ok p) hosts h e = (p, h, ground arith)
of_returned np P (err c) hosts h e = cc

length-guarded :
    (np : Netip) (cidrs : List Text) (s : Strategy) (draws picks : ℕ → ℕ) (hosts : List Addr)
    → is_pos (guard_pool np cidrs s).max_total ≡ true
    → expand np cidrs s draws picks ≡ ok hosts
    → length hosts ≤ pos_part (guard_pool np cidrs s).max_total
unfolding expand
length-guarded np cidrs s draws picks hosts on e =
    let g = guard_pool np cidrs s in
    let full = IsFull (pos_part g.max_total) in
    let step : (a : Addr) (p : Pool) → full p → full (emit g.max_total picks a p) =
      λ a p h. rw (emit-reservoir g.max_total picks a p on) (reservoir-IsFull _ picks a p h) in
    let (p, h, same) =
      of_returned np full _ hosts
        (expand_loop_inv np g draws picks full step cidrs 0 empty_pool (omega arith)) e in
    omega (arith, ap length same)

-- With a positive MaxTotal, Expand never returns more than MaxTotal addresses, whatever the entries and the
-- random numbers.
pub length-expand-le :
    (np : Netip) (cidrs : List Text) (s : Strategy) (draws picks : ℕ → ℕ) (hosts : List Addr)
    → is_pos s.max_total ≡ true
    → expand np cidrs s draws picks ≡ ok hosts
    → length hosts ≤ pos_part s.max_total
length-expand-le np cidrs s draws picks hosts on e =
    let same = guard_keeps np cidrs s on in
    subst (λ (g : Strategy). length hosts ≤ pos_part g.max_total) same
      (length-guarded np cidrs s draws picks hosts
        (subst (λ (g : Strategy). is_pos g.max_total ≡ true) (sym same) on) e)

-- The guard against oversized pools: a run with no cap at all, over IPv4 prefixes whose sizes add up in
-- uint64 to more than 2^22 addresses, returns at most 2^22 addresses.
pub length-expand_oversized-le :
    (np : Netip) (cidrs : List Text) (s : Strategy) (draws picks : ℕ → ℕ) (hosts : List Addr)
    → is_pos s.max_total ≡ false
    → is_pos s.max_hosts_per_cidr ≡ false
    → is_pos s.sample_per_24 ≡ false
    → ltb max_auto_pool (pool_size 0 (parse_all np cidrs)) ≡ true
    → expand np cidrs s draws picks ≡ ok hosts
    → length hosts ≤ max_auto_pool
length-expand_oversized-le np cidrs s draws picks hosts a b c big e =
    let same : guard_pool np cidrs s ≡ record s { max_total = pos max_auto_pool } =
      unfold guard_pool in rw (a, b, c, big) in
    subst (λ (g : Strategy). length hosts ≤ pos_part g.max_total) same
      (length-guarded np cidrs s draws picks hosts
        (subst (λ (g : Strategy). is_pos g.max_total ≡ true) (sym same) refl) e)
