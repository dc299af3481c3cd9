-- ===== src/Providers/Tests.antt =====
-- The theorems about names, lists of ranges and sources at concrete arguments.
use rain_scanner.Base.{
  ◌≡◌, ◌⊎◌, refl, true, false, Bool, List, [], ◌∷◌, some, none, Text, codes, text_eq, ok,
  if◌then◌else◌,
}
use rain_scanner.Base.Sorting.{IsSorted}
use rain_scanner.Examples.{two_texts}
use rain_scanner.IpRange.Addr.{Addr, Prefix}
use rain_scanner.IpRange.Entries.{entry_less}
use rain_scanner.Providers.Manifest.{ManifestEntry}
use rain_scanner.Providers.Normalize.{has_text, normalize_cidrs}
use rain_scanner.Providers.Normalize.Laws.{Distinct, is_norm, normalize_cidrs_lem}
use rain_scanner.Providers.Fetch.{
  Feed, FetchOptions, Source, official, github_raw, run_parser, fetch_backup_file, fetch_ranges,
  github_base,
}
use rain_scanner.Providers.Fetch.Sources.{official_allowed, fetch_ranges_source}

abbrev print_block : Prefix → Text
print_block p = codes "10.0.0.0/30"

abbrev not_special : Addr → Bool
not_special a = false

abbrev matches : List Text
matches = codes " 10.0.0.0/30" ∷ codes "x" ∷ codes "10.0.0.0/30" ∷ []

normalize_cidrs_lem_example :
    let out = normalize_cidrs two_texts print_block not_special matches in
    ((e : Text) → has_text e out ≡ is_norm two_texts print_block not_special e matches)
    × Distinct out
    × IsSorted entry_less out
normalize_cidrs_lem_example = normalize_cidrs_lem two_texts print_block not_special matches

-- A network on which only the mirror answers.
abbrev mirror_only : Feed
mirror_only = record {
  http_get = λ url. if text_eq url (codes "https://example/") then none else some url;
  range_file_of = λ b. some (codes "10.0.0.0/30" ∷ []);
  array_of = λ b. none;
  aws_of = λ b. none;
  find_all = λ b. [];
  print = print_block;
  special = not_special;
}

abbrev gcore : ManifestEntry
gcore = record {
  name = codes "gcore";
  api_url = codes "https://example/";
  api_url_v6 = [];
  parser = codes "scrape";
}

abbrev usual : FetchOptions
usual = record { prefer_backup = false; no_backup = false }

abbrev block : List Text
block = codes "10.0.0.0/30" ∷ []

fetch_ranges_source_example :
    ((official_allowed two_texts mirror_only gcore ≡ true)
      × (run_parser two_texts mirror_only gcore ≡ ok block)
      × (github_raw ≡ official))
    ⊎ ((false ≡ false)
        × (fetch_backup_file two_texts mirror_only (codes "gcore") ≡ ok (block, github_raw)))
unfolding fetch_ranges text_eq run_parser rain_scanner.Providers.Fetch.scrape_both_families
    rain_scanner.Providers.Fetch.scrape_cidrs fetch_backup_file rain_scanner.Providers.Fetch.mirror
fetch_ranges_source_example =
    fetch_ranges_source two_texts mirror_only gcore usual block github_raw refl
