-- ===== src/Targets.antt =====
-- internal/targets/targets.go: the registry of scan targets, over a storage.Store. Its mutex makes each operation
-- one step from a registry and a state of the store to the next; a step also tells its error. The keys of
-- the two maps are lists.
pub mod Names
pub mod Lookup
pub mod Upsert
pub mod Remove
pub mod Customs
pub mod Synced
pub mod Reload
pub mod Tests
use rain_scanner.Base.{
  ℕ, zero, suc, ◌+◌, Bool, true, false, ◌&&◌, ◌||◌, not, List, [], ◌∷◌, ◌++◌, Option, none, some,
  if◌then◌else◌, Text, codes, text_eq, text_ltb, to_lower, trim_space, equal_fold, is_empty, length,
  keep, map, is_some, Result, ok, err, get_elem?, set,
}
use rain_scanner.Base.Sorting.{sort_by}
use rain_scanner.Storage.{Store, CustomTarget, RangeFile, StoreError}
use rain_scanner.Providers.Manifest.{ManifestEntry, Manifest, entries}
use rain_scanner.Providers.Names.{safe_range_name}

pub record Record : Type 0 where
  pub name : Text
  pub cidrs : List Text
  pub api_url : Text
  pub builtin : Bool

pub record Registry : Type 0 where
  pub builtin_names : List Text
  pub hidden : List Text
  pub recs : List Record

pub data TargetError : Type 0 where
  name_required bad_api_url unknown_target no_api_url not_saved fetch_failed : TargetError

abbrev pub has_name : Text → List Text → Bool
has_name t [] = false
has_name t (u ∷ us) = text_eq t u || has_name t us

-- m[key] = true
abbrev pub add_name : Text → List Text → List Text
add_name t us = if has_name t us then us else t ∷ us

-- delete(m, key)
abbrev pub remove_name : Text → List Text → List Text
remove_name t us = keep (λ u. not (text_eq t u)) us

-- The loop of indexOf, for a name that is trimmed.
unfoldable pub index_from : List Record → Text → Option ℕ
index_from [] name = none
index_from (r ∷ rs) name =
    let rest = index_from rs name in
    if equal_fold r.name name then some 0 else elim rest [ none ↦ none | some i ↦ some (suc i) ]

-- indexOf, with `none` for -1
unfoldable pub index_of : List Record → Text → Option ℕ
index_of rs name = index_from rs (trim_space name)

unfoldable pub get : Registry → Text → Option Record
get r name = elim (index_of r.recs name) [ none ↦ none | some i ↦ get_elem? r.recs i ]

-- The order of List: built-ins first, then by name.
abbrev pub less : Record → Record → Bool
less a b =
    if a.builtin && not b.builtin
    then true
    else if not a.builtin && b.builtin
    then false
    else text_ltb a.name b.name

unfoldable pub list : Registry → List Record
list r = sort_by less r.recs

abbrev pub as_custom : Record → CustomTarget
as_custom r = record { name = r.name; cidrs = r.cidrs; api_url = r.api_url }

-- The records that saveCustomsLocked writes.
unfoldable pub customs_of : List Record → List CustomTarget
customs_of [] = []
customs_of (r ∷ rs) = let rest = customs_of rs in if r.builtin then rest else as_custom r ∷ rest

-- append(recs[:i], recs[i+1:]...)
unfoldable pub remove_at : ℕ → List Record → List Record
remove_at i [] = []
remove_at zero (r ∷ rs) = rs
remove_at (suc i) (r ∷ rs) = r ∷ remove_at i rs

module _ (store : Store) where
  open store use {State}

  -- What an operation leaves behind: its result, the registry and the state of the store.
  pub record Step (A : Type 0) : Type 0 where
    pub result : Result TargetError A
    pub registry : Registry
    pub state : State

  unfoldable pub save_hidden_locked : Registry → State → State × Bool
  save_hidden_locked r d = store.save_hidden (sort_by text_ltb r.hidden) d

  unfoldable pub save_customs_locked : Registry → State → State × Bool
  save_customs_locked r d = store.save_customs (customs_of r.recs) d

  unfoldable pub persist_locked : Record → Registry → State → State × Bool
  persist_locked rec r d =
      if rec.builtin
      then store.save_ranges
          (record { cdn = rec.name; count = length rec.cidrs; cidrs = rec.cidrs; source = [] }) d
      else save_customs_locked r d

  -- A built-in record, with the ranges that are cached for it.
  abbrev pub seeded : State → ManifestEntry → Record
  seeded d e = record {
    name = e.name;
    cidrs = elim (store.ranges e.name d) [ none ↦ [] | some rf ↦ rf.cidrs ];
    api_url = e.api_url;
    builtin = true;
  }

  abbrev pub hide_all : List Text → List Text
  hide_all [] = []
  hide_all (t ∷ ts) = add_name (to_lower t) (hide_all ts)

  abbrev pub seed : State → List Text → List ManifestEntry → List Record
  seed d hidden [] = []
  seed d hidden (e ∷ es) =
      let rest = seed d hidden es in
      if has_name (to_lower e.name) hidden then rest else seeded d e ∷ rest

  abbrev pub from_custom : CustomTarget → Record
  from_custom c = record { name = c.name; cidrs = c.cidrs; api_url = c.api_url; builtin = false }

  abbrev opened :
      Manifest
      → State
      → List Text
      → Result StoreError (List CustomTarget)
      → Result StoreError Registry
  opened m d hidden (err e) = err e
  opened m d hidden (ok cs) = ok (record {
    builtin_names = hide_all (map (λ (e : ManifestEntry). e.name) (entries m));
    hidden = hidden;
    recs = seed d hidden (entries m) ++ map from_custom cs;
  })

  -- Open
  unfoldable pub open_registry : Manifest → State → Result StoreError Registry
  open_registry m d = elim (store.load_hidden d) [
    | err e ↦ err e
    | ok hs ↦ opened m d (hide_all hs) (store.load_customs d)
  ]
