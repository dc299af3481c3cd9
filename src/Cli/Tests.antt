-- ===== src/Cli/Tests.antt =====
-- The command's theorems at a manifest of a fetched CDN and a manual one.
use rain_scanner.Base.{
  ℕ, ◌+◌, ◌≡◌, ◌≢◌, ◌≤◌, ◌⊎◌, ◌↔◌, inl, inr, refl, Bool, true, false, List, [], ◌∷◌, map, Option,
  none, some, Text, codes, ℤ, pos, arith, All, length, ◌++◌, not, ◌&&◌, ◌==◌, ==_iff,
}
use rain_scanner.Examples.{two_texts, memory, memory-IsStore, Memory, empty_memory}
use rain_scanner.Storage.{RangeFile}
use rain_scanner.Providers.Manifest.{ManifestEntry}
use rain_scanner.Providers.Fetch.{Feed, official}
use rain_scanner.Cli.{Known, select_cdns, select_cdns-Known}
use rain_scanner.Cli.Updater.{Tally, fetched_file, update_entries, run_updater}
use rain_scanner.Cli.Updater.Written.{run_updater-manual}
use rain_scanner.Cli.Status.{Terminal, clear, progress, finish, write, write_byte}
use rain_scanner.Cli.Status.Screen.{IsBlank, IsPrintable}
use rain_scanner.Cli.Status.Play.{logs, drawn_as, Event, play, IsLogged, play_clean}
use rain_scanner.Cli.Bar.{repeat}

abbrev fastly : ManifestEntry
fastly = record {
  name = codes "fastly";
  api_url = codes "https://api.fastly.com/public-ip-list";
  api_url_v6 = [];
  parser = codes "scrape";
}

abbrev gcore : ManifestEntry
gcore = record { name = codes "gcore"; api_url = []; api_url_v6 = []; parser = codes "manual" }

-- A network on which every page lists one prefix.
abbrev one_prefix_feed : Feed
one_prefix_feed = record {
  http_get = λ url. some [];
  range_file_of = λ b. none;
  array_of = λ b. none;
  aws_of = λ b. none;
  find_all = λ b. codes "10.0.0.0/30" ∷ [];
  print = λ p. codes "10.0.0.0/30";
  special = λ a. false;
}

abbrev fastly_file : RangeFile
fastly_file =
    fetched_file two_texts one_prefix_feed memory (codes "fastly") (codes "10.0.0.0/30" ∷ [])
      official

abbrev fetched_memory : Memory
fetched_memory = record { customs = []; hidden = []; files = (codes "fastly", fastly_file) ∷ [] }

abbrev one_each : Tally
one_each = record { updated_count = 1; skipped_count = 1; failed_count = 0 }

fastly-ne_gcore : fastly.name ≢ gcore.name
fastly-ne_gcore e = ground arith

run_updater-manual_example :
    (memory.ranges (codes "gcore") fetched_memory ≡ none)
    × (one_each.updated_count + one_each.skipped_count + one_each.failed_count ≡ 2)
    × ((true ≡ true) ↔ (one_each.failed_count ≡ 0))
unfolding rain_scanner.Base.text_eq run_updater update_entries rain_scanner.Cli.Updater.update_entry
    rain_scanner.Providers.Fetch.fetch_ranges rain_scanner.Providers.Fetch.run_parser
    rain_scanner.Providers.Fetch.scrape_both_families rain_scanner.Providers.Fetch.scrape_cidrs
    rain_scanner.Providers.Fetch.scrape_cidr_bytes rain_scanner.Providers.Normalize.normalize_cidrs
    rain_scanner.IpRange.Entries.sort rain_scanner.Base.Sorting.sort_by
    rain_scanner.Providers.Normalize.collect rain_scanner.Providers.Normalize.norm_of
    rain_scanner.Base.trim_space rain_scanner.Providers.Normalize.with_length
    rain_scanner.Base.has_code rain_scanner.Base.Sorting.insert_by rain_scanner.Base.drop_while
    rain_scanner.Base.text_ltb rain_scanner.Base.trim rain_scanner.IpRange.Entries.entry_less
    rain_scanner.Providers.Fetch.fetch_aws_cloudfront rain_scanner.Providers.Fetch.fetch_backup_file
    rain_scanner.Providers.Fetch.mirror rain_scanner.Providers.Normalize.has_text
run_updater-manual_example =
    run_updater-manual two_texts one_prefix_feed memory memory-IsStore (fastly ∷ gcore ∷ [])
      (codes "gcore") empty_memory fetched_memory one_each true
      (inr (λ e. fastly-ne_gcore e), (inl refl, tt)) refl

-- A text of the bar that is shorter than the one before leaves the end of that one, and finish does not erase it.
shorter_text_stays :
    (play
      (drawn_as (codes "[aws] 10/10 ") ∷ drawn_as (codes "[a] ") ∷ [])
      []
      (record { row = []; column = 0; above = [] })).row
    ≡ repeat b' ' 5 ++ codes " 10/10 "
unfolding play finish progress clear write write_byte repeat
shorter_text_stays = refl

-- A scan of one CDN, with a log line between two texts of the bar.
abbrev three_events : List Event
three_events =
    drawn_as (codes "[a] 1/10 ") ∷ logs (codes "open") ∷ drawn_as (codes "[a] 10/10 ") ∷ []

abbrev fresh : Terminal
fresh = record { row = []; column = 0; above = [] }

abbrev all_printable : Text → Bool
all_printable [] = true
all_printable (c ∷ s) = not (c == 13) && (not (c == 10) && all_printable s)

printable : (s : Text) → all_printable s ≡ true → IsPrintable s
printable [] h = tt
printable (c ∷ s) h = ground (arith, ==_iff c 13, ==_iff c 10, printable s)

play_clean_example :
    IsBlank (play three_events [] fresh).row
    × IsLogged [] (codes "open" ∷ []) (play three_events [] fresh).above
play_clean_example = play_clean three_events fresh refl refl (
  printable (codes "[a] 1/10 ") refl,
  omega arith,
  (printable (codes "open") refl, (printable (codes "[a] 10/10 ") refl, omega arith, tt)),
)
