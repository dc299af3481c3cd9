-- ===== src/IpRange/Entries/Laws.antt =====
-- What Filter, Split and Sort promise to one another.
use mathlib.Core.List.{Perm}
use rain_scanner.Base.{◌+◌, ◌≡◌, refl, true, false, List, [], ◌∷◌, arith, length, Text, text_ltb}
use rain_scanner.Base.Sorting.{IsWeakOrder, IsSorted, sort_by-perm, sort_by-IsSorted}
use rain_scanner.IpRange.Family.{Family, allows}
use rain_scanner.IpRange.Netip.{Netip}
use rain_scanner.IpRange.Entries.{filter, split, entry_less, sort}

module _ (np : Netip) where
  -- The two counts of Split after Filter add up to the number of entries kept, for every selector.
  pub split-filter :
      (fam : Family) (entries : List Text)
      → (split np (filter np entries fam)).0 + (split np (filter np entries fam)).1
        ≡ length (filter np entries fam)
  unfolding split filter
  split-filter fam [] = refl
  split-filter fam (e ∷ entries) = ground (arith, split-filter fam entries)

  -- A list filtered for one family counts no entry of the other.
  pub split-filter_family :
      (entries : List Text)
      → ((split np (filter np entries Family.v4_only)).1 ≡ 0)
        × ((split np (filter np entries Family.v6_only)).0 ≡ 0)
  unfolding split filter allows
  split-filter_family [] = (refl, refl)
  split-filter_family (e ∷ entries) = ground (arith, split-filter_family entries)

text_ltb_asym : (s t : Text) → text_ltb s t ≡ true → text_ltb t s ≡ false
unfolding text_ltb
text_ltb_asym [] [] h = refl
text_ltb_asym [] (d ∷ t) h = refl
text_ltb_asym (c ∷ s) [] h = cc
text_ltb_asym (c ∷ s) (d ∷ t) h = ground (arith, text_ltb_asym s t)

text_ltb_chain : (x y z : Text) → text_ltb y x ≡ false → text_ltb z y ≡ false → text_ltb z x ≡ false
unfolding text_ltb
text_ltb_chain [] y z h k = refl
text_ltb_chain (a ∷ x) [] z h k = cc
text_ltb_chain (a ∷ x) (b ∷ y) [] h k = cc
text_ltb_chain (a ∷ x) (b ∷ y) (c ∷ z) h k = ground (arith, text_ltb_chain x y z)

pub entry_less-IsWeakOrder : IsWeakOrder entry_less
unfolding entry_less
entry_less-IsWeakOrder = record {
  asym = λ x y h. ground (arith, text_ltb_asym x y);
  chain = λ x y z h k. ground (arith, text_ltb_chain x y z);
}

-- Sort returns the same entries, and no later entry comes before an earlier one in its order.
pub sort-IsSorted :
    (entries : List Text) → Perm (sort entries) entries × IsSorted entry_less (sort entries)
unfolding sort
sort-IsSorted entries =
    (sort_by-perm entry_less entries, sort_by-IsSorted entry_less entry_less-IsWeakOrder entries)
