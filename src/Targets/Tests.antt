-- ===== src/Targets/Tests.antt =====
-- The registry's theorems over a store in memory.
use rain_scanner.Base.{
  ℕ, ◌≡◌, ◌≢◌, refl, true, false, Bool, List, [], ◌∷◌, Option, some, none, Text, codes, to_lower,
  trim_space, All, Result, is_some, arith,
}
use rain_scanner.Base.Sorting.{sort_by}
use rain_scanner.Examples.{two_texts, memory, memory-IsStore, empty_memory}
use rain_scanner.Providers.Manifest.{ManifestEntry, Manifest}
use rain_scanner.Targets.{Record, Registry, get, customs_of}
use rain_scanner.Targets.Lookup.{Distinct}
use rain_scanner.Targets.Upsert.{upsert}
use rain_scanner.Targets.Upsert.Laws.{get-upsert}
use rain_scanner.Targets.Remove.{delete, restore_builtins}
use rain_scanner.Targets.Remove.Laws.{IsRestored, get-delete, restore_builtins-IsRestored}
use rain_scanner.Targets.Synced.{IsSynced, upsert-IsSynced, delete-IsSynced}

abbrev no_scheme : Text → Option Text
no_scheme t = none

abbrev fastly : Record
fastly = record { name = codes "fastly"; cidrs = []; api_url = []; builtin = true }

abbrev registry : Registry
registry = record { builtin_names = codes "fastly" ∷ []; hidden = []; recs = fastly ∷ [] }

-- A target of the user's, given with spaces around its name and with an entry that is no range.
abbrev mine : Record
mine = record {
  name = codes " Mine ";
  cidrs = codes "10.0.0.0/30" ∷ codes "x" ∷ [];
  api_url = [];
  builtin = true;
}

abbrev stored : Record
stored = record {
  name = codes "Mine";
  cidrs = codes "10.0.0.0/30" ∷ [];
  api_url = [];
  builtin = false;
}

in_step : IsSynced memory memory-IsStore registry empty_memory
unfolding customs_of sort_by
in_step = (refl, refl)

not_custom : trim_space mine.name ≢ codes "custom"
unfolding trim_space
not_custom e = cc

other_name : to_lower (trim_space (codes "gcore")) ≢ to_lower (trim_space (codes "Fastly"))
unfolding trim_space to_lower
other_name e = cc

get-upsert_example :
    get (upsert memory two_texts no_scheme registry empty_memory mine).registry (codes "MINE")
    ≡ some stored
unfolding upsert trim_space rain_scanner.Targets.Upsert.unhide rain_scanner.Base.text_eq to_lower
    rain_scanner.Targets.Upsert.put_record rain_scanner.Targets.persist_locked
    rain_scanner.Targets.Upsert.place rain_scanner.Targets.index_of rain_scanner.Targets.index_from
    rain_scanner.Base.equal_fold rain_scanner.Targets.save_customs_locked
    rain_scanner.IpRange.Entries.filter rain_scanner.IpRange.Entries.entry_addr
    rain_scanner.IpRange.Family.allows
get-upsert_example =
    get-upsert memory two_texts no_scheme registry empty_memory mine stored (codes "MINE") refl refl

upsert-IsSynced_example :
    IsSynced memory memory-IsStore
      (upsert memory two_texts no_scheme registry empty_memory mine).registry
      (upsert memory two_texts no_scheme registry empty_memory mine).state
unfolding rain_scanner.Base.text_eq to_lower upsert trim_space rain_scanner.Targets.Upsert.unhide
    rain_scanner.Targets.Upsert.put_record rain_scanner.Targets.persist_locked
    rain_scanner.Targets.Upsert.place rain_scanner.Targets.index_of rain_scanner.Targets.index_from
    rain_scanner.Base.equal_fold rain_scanner.Targets.save_customs_locked
    rain_scanner.IpRange.Entries.filter rain_scanner.IpRange.Entries.entry_addr
    rain_scanner.IpRange.Family.allows
upsert-IsSynced_example =
    upsert-IsSynced memory memory-IsStore two_texts no_scheme registry empty_memory mine stored
      in_step (refl, tt) not_custom refl

delete-IsSynced_example :
    IsSynced memory memory-IsStore
      (delete memory registry empty_memory (codes "Fastly")).registry
      (delete memory registry empty_memory (codes "Fastly")).state
unfolding rain_scanner.Targets.customs_of rain_scanner.Base.Sorting.sort_by delete
    rain_scanner.Targets.index_of rain_scanner.Targets.index_from rain_scanner.Base.equal_fold
    rain_scanner.Base.text_eq trim_space rain_scanner.Targets.save_hidden_locked
delete-IsSynced_example =
    delete-IsSynced memory memory-IsStore registry empty_memory (codes "Fastly") true in_step refl

abbrev after_delete : Registry
after_delete = (delete memory registry empty_memory (codes "Fastly")).registry

get-delete_example :
    (get after_delete (codes "Fastly") ≡ none)
    × (get after_delete (codes "gcore") ≡ get registry (codes "gcore"))
    × Distinct after_delete.recs
get-delete_example =
    get-delete memory registry empty_memory (codes "Fastly") (codes "gcore") (refl, tt) other_name

abbrev manifest : Manifest
manifest = some (
    record { name = codes "fastly"; api_url = []; api_url_v6 = []; parser = codes "scrape" }
    ∷ record { name = codes "gcore"; api_url = []; api_url_v6 = []; parser = codes "scrape" }
    ∷ [])

abbrev entries : List ManifestEntry
entries =
    record { name = codes "fastly"; api_url = []; api_url_v6 = []; parser = codes "scrape" }
    ∷ record { name = codes "gcore"; api_url = []; api_url_v6 = []; parser = codes "scrape" }
    ∷ []

-- A registry whose user has deleted a default.
abbrev emptied : Registry
emptied = record { builtin_names = codes "fastly" ∷ []; hidden = codes "fastly" ∷ []; recs = [] }

restore_builtins-IsRestored_example :
    IsRestored memory [] entries
      (restore_builtins memory manifest emptied empty_memory).registry.recs
    × ((restore_builtins memory manifest emptied empty_memory).registry.hidden ≡ [])
unfolding trim_space restore_builtins rain_scanner.Targets.save_hidden_locked
    rain_scanner.Base.Sorting.sort_by rain_scanner.Targets.Remove.restore_entries
    rain_scanner.Providers.Names.safe_range_name rain_scanner.Providers.Names.matches_name
    rain_scanner.Providers.Names.name_codes rain_scanner.Targets.index_of
    rain_scanner.Targets.index_from rain_scanner.Base.equal_fold rain_scanner.Base.text_eq
    rain_scanner.Base.text_ltb
restore_builtins-IsRestored_example =
    restore_builtins-IsRestored memory manifest emptied empty_memory
      (codes "fastly" ∷ codes "gcore" ∷ []) (refl, (refl, tt)) refl

-- A registry with the user's target.
abbrev with_mine : Registry
with_mine = record { builtin_names = codes "fastly" ∷ []; hidden = []; recs = fastly ∷ stored ∷ [] }

abbrev refetched : Record
refetched = record {
  name = codes "Mine";
  cidrs = codes "8.8.8.8" ∷ [];
  api_url = [];
  builtin = false;
}
