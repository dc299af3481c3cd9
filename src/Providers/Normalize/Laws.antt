-- ===== src/Providers/Normalize/Laws.antt =====
-- normalizeCIDRs gives the set of the normal forms, each once and in order.
use rain_scanner.Base.{
  ◌≡◌, refl, ap, ◌∙◌, Bool, false, ◌||◌, List, [], ◌∷◌, ◌++◌, none, some, Text, text_eq,
  text_eq_iff, arith, Option-cases, Bool-cases, inl, inr,
}
use rain_scanner.Base.Sorting.{insert_by, sort_by, IsSorted, sort_by-IsSorted}
use rain_scanner.IpRange.Addr.{Addr, Prefix}
use rain_scanner.IpRange.Netip.{Netip}
use rain_scanner.IpRange.Entries.{sort, entry_less}
use rain_scanner.IpRange.Entries.Laws.{entry_less-IsWeakOrder}
use rain_scanner.Providers.Normalize.{has_text, norm_of, collect, normalize_cidrs}

abbrev pub Distinct : List Text → Type 0
Distinct [] = Unit
Distinct (t ∷ ts) = (has_text t ts ≡ false) × Distinct ts

text_eq_sym : (s t : Text) → text_eq s t ≡ text_eq t s
text_eq_sym s t = ground (arith, text_eq_iff s t, text_eq_iff t s)

has_text-concat :
    (e t : Text) (l : List Text) → has_text e (l ++ t ∷ []) ≡ (text_eq e t || has_text e l)
unfolding has_text
has_text-concat e t [] = ground arith
has_text-concat e t (x ∷ l) = ground (arith, has_text-concat e t l)

Distinct-concat :
    (t : Text) (l : List Text) → has_text t l ≡ false → Distinct l → Distinct (l ++ t ∷ [])
unfolding has_text
Distinct-concat t [] h d = (refl, tt)
Distinct-concat t (x ∷ l) h d =
    ground (arith, has_text-concat x t l, text_eq_sym x t, Distinct-concat t l)

module _ (less : Text → Text → Bool) where
  has_text-insert_by :
      (e x : Text) (l : List Text) → has_text e (insert_by less x l) ≡ (text_eq e x || has_text e l)
  unfolding has_text insert_by
  has_text-insert_by e x [] = refl
  has_text-insert_by e x (y ∷ l) = ground (arith, has_text-insert_by e x l)

  has_text-sort_by : (e : Text) (l : List Text) → has_text e (sort_by less l) ≡ has_text e l
  unfolding has_text sort_by
  has_text-sort_by e [] = refl
  has_text-sort_by e (x ∷ l) =
      has_text-insert_by e x (sort_by less l) ∙ ap (λ b. text_eq e x || b) (has_text-sort_by e l)

  Distinct-insert_by :
      (x : Text) (l : List Text) → has_text x l ≡ false → Distinct l → Distinct (insert_by less x l)
  unfolding has_text insert_by
  Distinct-insert_by x [] h d = (refl, tt)
  Distinct-insert_by x (y ∷ l) h d =
      ground (arith, has_text-insert_by y x l, text_eq_sym x y, Distinct-insert_by x l)

  Distinct-sort_by : (l : List Text) → Distinct l → Distinct (sort_by less l)
  unfolding sort_by
  Distinct-sort_by [] d = tt
  Distinct-sort_by (x ∷ l) d =
      Distinct-insert_by x (sort_by less l) (has_text-sort_by x l ∙ d.0) (Distinct-sort_by l d.1)

module _ (np : Netip) (print : Prefix → Text) (special : Addr → Bool) where
  -- Whether the normal form of some entry is `e`.
  abbrev pub is_norm : Text → List Text → Bool
  is_norm e [] = false
  is_norm e (m ∷ ms) =
      elim (norm_of np print special m) [ none ↦ false | some t ↦ text_eq e t ] || is_norm e ms

  collect_lem :
      (ms out : List Text)
      → Distinct out
      → Distinct (collect np print special ms out)
        × ((e : Text)
            → has_text e (collect np print special ms out) ≡ (is_norm e ms || has_text e out))
  unfolding collect
  collect_lem [] out d = (d, λ e. refl)
  collect_lem (m ∷ ms) out d = elim (Option-cases (norm_of np print special m)) [
    | inl skip ↦ rw skip (collect_lem ms out d)
    | inr (t, new) ↦ elim (Bool-cases (has_text t out)) [
      | inl dup ↦
          let (once, exact) = collect_lem ms out d in
          rw (new, dup) (once, λ e. exact e ∙ ground (arith, text_eq_iff e t))
      | inr fresh ↦
          let (once, exact) = collect_lem ms (out ++ t ∷ []) (Distinct-concat t out fresh d) in
          rw (new, fresh) (once, λ e. exact e ∙ ground (arith, has_text-concat e t out))
    ]
  ]

  -- normalizeCIDRs returns the normal forms of the entries that have one, and nothing else; no text stands twice; and
  -- the result is in the order of Sort.
  pub normalize_cidrs_lem :
      (ms : List Text)
      → let out = normalize_cidrs np print special ms in
        ((e : Text) → has_text e out ≡ is_norm e ms) × Distinct out × IsSorted entry_less out
  unfolding normalize_cidrs sort has_text
  normalize_cidrs_lem ms =
      let (once, exact) = collect_lem ms [] tt in
      (
        λ e.
            has_text-sort_by entry_less e (collect np print special ms []) ∙ exact e ∙ ground arith,
        Distinct-sort_by entry_less (collect np print special ms []) once,
        sort_by-IsSorted entry_less entry_less-IsWeakOrder (collect np print special ms []),
      )
