-- ===== src/Targets/Lookup.antt =====
-- How `get` and indexOf see a record that is replaced, added or removed.
use rain_scanner.Base.{
  ℕ, zero, suc, ◌≡◌, ◌≢◌, refl, true, false, List, [], ◌∷◌, ◌++◌, Option, none, some, if◌then◌else◌,
  Text, to_lower, trim_space, equal_fold, get_elem?, set, arith,
}
use rain_scanner.Targets.{Record, Registry, index_from, index_of, get, remove_at}
use rain_scanner.Targets.Names.{equal_fold_iff}

-- The first record of a name.
abbrev pub lookup : List Record → Text → Option Record
lookup [] name = none
lookup (r ∷ rs) name = let rest = lookup rs name in if equal_fold r.name name then some r else rest

abbrev pub get_at : List Record → Option ℕ → Option Record
get_at rs none = none
get_at rs (some i) = get_elem? rs i

get_at-index_from : (rs : List Record) (n : Text) → get_at rs (index_from rs n) ≡ lookup rs n
unfolding index_from
get_at-index_from [] n = refl
get_at-index_from (r ∷ rs) n = ground (arith, get_at-index_from rs n)

pub get_lem : (r : Registry) (name : Text) → get r name ≡ lookup r.recs (trim_space name)
unfolding get index_of
get_lem r name = ground (arith, get_at-index_from r.recs (trim_space name))

pub lookup_missing :
    (rs : List Record) (name : Text) → index_of rs name ≡ none → lookup rs (trim_space name) ≡ none
unfolding index_of
lookup_missing rs name h = ground (arith, get_at-index_from rs (trim_space name))

pub lookup_found :
    (rs : List Record) (name : Text) (i : ℕ)
    → index_of rs name ≡ some i
    → lookup rs (trim_space name) ≡ get_elem? rs i
unfolding index_of
lookup_found rs name i h = ground (arith, get_at-index_from rs (trim_space name))

-- A record added at the end hides none.
pub lookup-append_some :
    (rs : List Record) (m : Text) (r a : Record)
    → lookup rs m ≡ some a
    → lookup (rs ++ r ∷ []) m ≡ some a
lookup-append_some [] m r a h = cc
lookup-append_some (x ∷ rs) m r a h = ground (arith, lookup-append_some rs m r a)

pub fold_same : (s t : Text) → to_lower s ≡ to_lower t → equal_fold s t ≡ true
fold_same s t h = (equal_fold_iff s t).1 h

pub fold_apart :
    (x n m : Text) → to_lower m ≢ to_lower n → to_lower x ≡ to_lower n → equal_fold x m ≡ false
fold_apart x n m apart same = ground (arith, equal_fold_iff x m)

-- An index points at a record of the name.
pub index_from_found :
    (rs : List Record) (n : Text) (i : ℕ)
    → index_from rs n ≡ some i
    → (old : Record) × (get_elem? rs i ≡ some old) × (to_lower old.name ≡ to_lower n)
unfolding index_from
index_from_found [] n i h = cc
index_from_found (x ∷ rs) n zero h = (x, refl, ground (arith, equal_fold_iff x.name n))
index_from_found (x ∷ rs) n (suc i) h = index_from_found rs n i (ground arith)

pub lookup-set :
    (rs : List Record) (n : Text) (i : ℕ) (r : Record)
    → index_from rs n ≡ some i
    → to_lower r.name ≡ to_lower n
    → lookup (set rs i r) n ≡ some r
unfolding index_from
lookup-set [] n i r h same = cc
lookup-set (x ∷ rs) n zero r h same = ground (arith, fold_same r.name n same)
lookup-set (x ∷ rs) n (suc i) r h same = ground (arith, lookup-set rs n i r)

pub lookup-set_other :
    (rs : List Record) (n m : Text) (i : ℕ) (r : Record)
    → index_from rs n ≡ some i
    → to_lower r.name ≡ to_lower n
    → to_lower m ≢ to_lower n
    → lookup (set rs i r) m ≡ lookup rs m
unfolding index_from
lookup-set_other [] n m i r h same apart = cc
lookup-set_other (x ∷ rs) n m zero r h same apart =
    ground (
      arith,
      fold_apart r.name n m apart same,
      equal_fold_iff x.name n,
      fold_apart x.name n m apart,
    )
lookup-set_other (x ∷ rs) n m (suc i) r h same apart = ground (arith, lookup-set_other rs n m i r)

pub lookup-append :
    (rs : List Record) (n : Text) (r : Record)
    → index_from rs n ≡ none
    → to_lower r.name ≡ to_lower n
    → lookup (rs ++ r ∷ []) n ≡ some r
unfolding index_from
lookup-append [] n r h same = ground (arith, fold_same r.name n same)
lookup-append (x ∷ rs) n r h same = ground (arith, lookup-append rs n r)

pub lookup-append_new :
    (rs : List Record) (n : Text) (r : Record)
    → lookup rs n ≡ none
    → to_lower r.name ≡ to_lower n
    → lookup (rs ++ r ∷ []) n ≡ some r
lookup-append_new [] n r h same = ground (arith, fold_same r.name n same)
lookup-append_new (x ∷ rs) n r h same = ground (arith, lookup-append_new rs n r)

pub lookup-append_other :
    (rs : List Record) (n m : Text) (r : Record)
    → to_lower r.name ≡ to_lower n
    → to_lower m ≢ to_lower n
    → lookup (rs ++ r ∷ []) m ≡ lookup rs m
lookup-append_other [] n m r same apart = ground (arith, fold_apart r.name n m apart same)
lookup-append_other (x ∷ rs) n m r same apart = ground (arith, lookup-append_other rs n m r)

-- No two records have the same name, letter case aside.
abbrev pub Distinct : List Record → Type 0
Distinct [] = Unit
Distinct (r ∷ rs) = (lookup rs r.name ≡ none) × Distinct rs

-- A lookup does not see the case of letters.
pub lookup_fold :
    (rs : List Record) (n m : Text) → to_lower n ≡ to_lower m → lookup rs n ≡ lookup rs m
lookup_fold [] n m h = refl
lookup_fold (x ∷ rs) n m h =
    ground (arith, equal_fold_iff x.name n, equal_fold_iff x.name m, lookup_fold rs n m h)

pub lookup-remove_at :
    (rs : List Record) (n : Text) (i : ℕ)
    → Distinct rs
    → index_from rs n ≡ some i
    → lookup (remove_at i rs) n ≡ none
unfolding index_from remove_at
lookup-remove_at [] n i d h = cc
lookup-remove_at (x ∷ rs) n zero d h =
    ground (arith, equal_fold_iff x.name n, lookup_fold rs x.name n)
lookup-remove_at (x ∷ rs) n (suc i) d h = ground (arith, lookup-remove_at rs n i d.1)

pub lookup-remove_at_other :
    (rs : List Record) (n m : Text) (i : ℕ)
    → index_from rs n ≡ some i
    → to_lower m ≢ to_lower n
    → lookup (remove_at i rs) m ≡ lookup rs m
unfolding index_from remove_at
lookup-remove_at_other [] n m i h apart = cc
lookup-remove_at_other (x ∷ rs) n m zero h apart =
    ground (arith, equal_fold_iff x.name n, fold_apart x.name n m apart)
lookup-remove_at_other (x ∷ rs) n m (suc i) h apart =
    ground (arith, lookup-remove_at_other rs n m i)

pub Distinct-set :
    (rs : List Record) (n : Text) (i : ℕ) (r : Record)
    → index_from rs n ≡ some i
    → to_lower r.name ≡ to_lower n
    → Distinct rs
    → Distinct (set rs i r)
unfolding index_from
Distinct-set [] n i r h same d = tt
Distinct-set (x ∷ rs) n zero r h same d =
    (ground (arith, equal_fold_iff x.name n, lookup_fold rs x.name r.name), d.1)
Distinct-set (x ∷ rs) n (suc i) r h same d = (
  ground (arith, lookup-set_other rs n x.name i r, equal_fold_iff x.name n),
  Distinct-set rs n i r (ground arith) same d.1,
)

pub Distinct-append :
    (rs : List Record) (n : Text) (r : Record)
    → index_from rs n ≡ none
    → to_lower r.name ≡ to_lower n
    → Distinct rs
    → Distinct (rs ++ r ∷ [])
unfolding index_from
Distinct-append [] n r h same d = (refl, tt)
Distinct-append (x ∷ rs) n r h same d = (
  ground (arith, lookup-append_other rs n x.name r, equal_fold_iff x.name n),
  Distinct-append rs n r (ground arith) same d.1,
)

pub Distinct-remove_at :
    (rs : List Record) (n : Text) (i : ℕ)
    → index_from rs n ≡ some i
    → Distinct rs
    → Distinct (remove_at i rs)
unfolding index_from remove_at
Distinct-remove_at [] n i h d = tt
Distinct-remove_at (x ∷ rs) n zero h d = d.1
Distinct-remove_at (x ∷ rs) n (suc i) h d = (
  ground (arith, lookup-remove_at_other rs n x.name i, equal_fold_iff x.name n),
  Distinct-remove_at rs n i (ground arith) d.1,
)
