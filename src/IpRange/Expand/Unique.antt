-- ===== src/IpRange/Expand/Unique.antt =====
-- Without MaxTotal, `emit` makes `out` a set: every address offered stands in it, and none twice.
use rain_scanner.Base.{
  ℕ, ◌≡◌, refl, sym, subst, ℤ, false, ◌||◌, List, [], ◌∷◌, ◌++◌, arith, is_pos, Text, ok,
  Bool-cases, inl, inr,
}
use rain_scanner.IpRange.Addr.{Addr, has_addr, addr_eq, addr_eq_iff}
use rain_scanner.IpRange.Family.{Strategy}
use rain_scanner.IpRange.Netip.{Netip}
use rain_scanner.IpRange.Expand.{Pool, empty_pool, emit_new, emit, emit_all, guard_pool, expand}
use rain_scanner.IpRange.Expand.Bounds.{expand_loop_inv, of_returned}

-- No address stands twice in the list.
abbrev pub Distinct : List Addr → Type 0
Distinct [] = Unit
Distinct (a ∷ l) = (has_addr a l ≡ false) × Distinct l

addr_eq_sym : (a b : Addr) → addr_eq a b ≡ addr_eq b a
addr_eq_sym a b = ground (arith, addr_eq_iff a b, addr_eq_iff b a)

has_addr-concat :
    (a b : Addr) (l : List Addr) → has_addr a (l ++ b ∷ []) ≡ (addr_eq a b || has_addr a l)
unfolding has_addr
has_addr-concat a b [] = ground arith
has_addr-concat a b (c ∷ l) = ground (arith, has_addr-concat a b l)

Distinct-concat :
    (b : Addr) (l : List Addr) → has_addr b l ≡ false → Distinct l → Distinct (l ++ b ∷ [])
unfolding has_addr
Distinct-concat b [] h d = (refl, tt)
Distinct-concat b (c ∷ l) h d =
    ground (arith, has_addr-concat c b l, addr_eq_sym c b, Distinct-concat b l)

-- `seen` and `out` hold the same addresses.
pub record InStep (p : Pool) : Type 0 where
  pub same : (a : Addr) → has_addr a p.seen ≡ has_addr a p.out
  pub distinct : Distinct p.out

emit_new-InStep : (a : Addr) (p : Pool) → InStep p → InStep (emit_new a p)
unfolding emit_new has_addr
emit_new-InStep a p h = elim (Bool-cases (has_addr a p.seen)) [
  | inl dup ↦ rw dup h
  | inr new ↦ rw new (record {
    same = λ b. ground (arith, has_addr-concat b a p.out, h.same b);
    distinct = Distinct-concat a p.out (ground (arith, h.same a)) h.distinct;
  })
]

emit-emit_new :
    (max_total : ℤ) (picks : ℕ → ℕ) (a : Addr) (p : Pool)
    → is_pos max_total ≡ false
    → emit max_total picks a p ≡ emit_new a p
unfolding emit
emit-emit_new max_total picks a p off = rw off

has_addr-emit_new :
    (a b : Addr) (p : Pool)
    → InStep p
    → has_addr b (emit_new a p).out ≡ (addr_eq b a || has_addr b p.out)
unfolding emit_new
has_addr-emit_new a b p h =
    ground (arith, has_addr-concat b a p.out, h.same a, h.same b, addr_eq_iff b a)

-- Without MaxTotal, offering a list of addresses adds exactly those to the pool, and leaves every address of
-- the pool in it once.
pub has_addr-emit_all :
    (max_total : ℤ) (picks : ℕ → ℕ) (l : List Addr) (p : Pool)
    → is_pos max_total ≡ false
    → InStep p
    → Distinct (emit_all max_total picks l p).out
      × ((b : Addr)
          → has_addr b (emit_all max_total picks l p).out ≡ (has_addr b l || has_addr b p.out))
unfolding emit_all has_addr
has_addr-emit_all max_total picks [] p off h = (h.distinct, λ b. refl)
has_addr-emit_all max_total picks (a ∷ l) p off h =
    let (once, exact) =
      has_addr-emit_all max_total picks l (emit_new a p) off (emit_new-InStep a p h) in
    subst
      (λ (r : Pool).
        Distinct (emit_all max_total picks l r).out
        × ((b : Addr)
            → has_addr b (emit_all max_total picks l r).out
              ≡ (has_addr b (a ∷ l) || has_addr b p.out)))
      (sym (emit-emit_new max_total picks a p off))
      (once, λ b. ground (arith, exact b, has_addr-emit_new a b p h))

-- Where neither the caller nor the guard sets MaxTotal, the addresses that Expand returns are distinct.
pub expand-Distinct :
    (np : Netip) (cidrs : List Text) (s : Strategy) (draws picks : ℕ → ℕ) (hosts : List Addr)
    → is_pos (guard_pool np cidrs s).max_total ≡ false
    → expand np cidrs s draws picks ≡ ok hosts
    → Distinct hosts
unfolding expand
expand-Distinct np cidrs s draws picks hosts off e =
    let g = guard_pool np cidrs s in
    let step : (a : Addr) (p : Pool) → InStep p → InStep (emit g.max_total picks a p) =
      λ a p h. rw (emit-emit_new g.max_total picks a p off) (emit_new-InStep a p h) in
    let (p, h, same) =
      of_returned np InStep _ hosts
        (expand_loop_inv np g draws picks InStep step cidrs 0 empty_pool
          (record { same = λ a. refl; distinct = tt }))
        e in
    subst Distinct same h.distinct
