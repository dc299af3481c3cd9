-- ===== src/Cli/Updater.antt =====
-- runUpdater of cmd/cdnscan/main.go. log.Fatal and os.Exit end the process with status 1.
pub mod Written
use rain_scanner.Base.{
  ℕ, zero, suc, ◌+◌, ◌≡◌, refl, Bool, true, false, not, List, [], ◌∷◌, Option, none, some,
  if◌then◌else◌, ltb, Text, codes, text_eq, is_empty, length, Result, ok, err, arith,
}
use rain_scanner.IpRange.Netip.{Netip}
use rain_scanner.Storage.{RangeFile, Store}
use rain_scanner.Providers.Manifest.{ManifestEntry, Manifest, entries}
use rain_scanner.Providers.Fetch.{Feed, FetchOptions, FetchError, Source, fetch_ranges, source_name}

-- What became of one entry.
pub data Outcome : Type 0 where
  updated skipped failed : Outcome

pub record Tally : Type 0 where
  pub updated_count : ℕ
  pub skipped_count : ℕ
  pub failed_count : ℕ

abbrev pub zero_tally : Tally
zero_tally = record { updated_count = 0; skipped_count = 0; failed_count = 0 }

abbrev pub counted : Outcome → Tally → Tally
counted updated t = record t { updated_count = t.updated_count + 1 }
counted skipped t = record t { skipped_count = t.skipped_count + 1 }
counted failed t = record t { failed_count = t.failed_count + 1 }

abbrev pub official_only : FetchOptions
official_only = record { prefer_backup = false; no_backup = true }

abbrev pub is_manual : ManifestEntry → Bool
is_manual e = text_eq e.parser (codes "manual")

-- `store` is the directory that the command was given, whose files providers.Save writes.
module _ (np : Netip) (feed : Feed) (store : Store) where
  open store use {State}

  -- The file of an entry: unlike Refresh, the command keeps the ranges as they were fetched.
  abbrev pub fetched_file : Text → List Text → Source → RangeFile
  fetched_file name cidrs source = record {
    cdn = name;
    count = length cidrs;
    cidrs = cidrs;
    source = source_name np feed store source;
  }

  abbrev saved : State × Bool → Outcome × State
  saved (d, ok_) = ((if ok_ then updated else failed), d)

  abbrev after_fetch :
      ManifestEntry → State → Result FetchError (List Text × Source) → Outcome × State
  after_fetch e d (err x) = (failed, d)
  after_fetch e d (ok (cidrs, source)) =
      saved (store.save_ranges (fetched_file e.name cidrs source) d)

  unfoldable pub update_entry : ManifestEntry → State → Outcome × State
  update_entry e d =
      if is_manual e then (skipped, d) else after_fetch e d (fetch_ranges np feed e official_only)

  unfoldable pub update_entries : List ManifestEntry → Tally → State → Tally × State
  update_entries [] t d = (t, d)
  update_entries (e ∷ es) t d =
      let one = update_entry e d in update_entries es (counted one.0 t) one.1

  -- The counts, the directory and whether the status is 0; `none` where there is no manifest.
  unfoldable pub run_updater : Manifest → State → Option (Tally × State × Bool)
  run_updater m d =
      let run = update_entries (entries m) zero_tally d in
      if is_empty (entries m) then none else some (run.0, run.1, not (ltb 0 run.0.failed_count))
