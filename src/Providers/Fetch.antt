-- ===== src/Providers/Fetch.antt =====
-- FetchRanges, fetchBackupFile, runParser, scrapeBothFamilies, ScrapeCIDRs, FetchCIDRs, fetchAWSCloudFront and Refresh of
-- internal/providers/providers.go. The network, encoding/json and regexp are the interface Feed.
pub mod Sources
use rain_scanner.Base.{
  ℕ, Bool, true, false, ◌&&◌, ◌||◌, not, List, [], ◌∷◌, ◌++◌, Option, none, some, if◌then◌else◌,
  Text, codes, text_eq, is_empty, length, Result, ok, err, ltb,
}
use rain_scanner.IpRange.Addr.{Addr, Prefix}
use rain_scanner.IpRange.Family.{auto}
use rain_scanner.IpRange.Netip.{Netip}
use rain_scanner.IpRange.Entries.{filter, sort}
use rain_scanner.Providers.Manifest.{ManifestEntry, Manifest, get_entry}
use rain_scanner.Providers.Normalize.{normalize_cidrs}
use rain_scanner.Storage.{RangeFile, Store}

-- One prefix of AWS's ip-ranges.json, with its service.
pub record AwsPrefix : Type 0 where
  pub prefix : Text
  pub service : Text

pub record Feed : Type 0 where
  -- httpGet
  pub http_get : Text → Option Text
  -- the "cidrs" of a body that unmarshals into a RangeFile, and a body that unmarshals into a list of texts
  pub range_file_of : Text → Option (List Text)
  pub array_of : Text → Option (List Text)
  -- the two lists of the AWS document
  pub aws_of : Text → Option (List AwsPrefix × List AwsPrefix)
  -- the matches of cidrRe and then of cidr6Re
  pub find_all : Text → List Text
  pub print : Prefix → Text
  pub special : Addr → Bool

pub data FetchError : Type 0 where
  get_failed no_ranges bad_document unknown_parser manual_parser backup_disabled
        backup_unavailable :
      FetchError
  all_sources_failed unknown_cdn not_saved : FetchError

pub data Source : Type 0 where
  official github_raw jsdelivr : Source

pub record FetchOptions : Type 0 where
  pub prefer_backup : Bool
  pub no_backup : Bool

abbrev pub jsdelivr_base : Text
jsdelivr_base = codes "https://cdn.jsdelivr.net/gh/IzumiRain/RainScanner@main/inside-api/"

abbrev pub github_base : Text
github_base = codes "https://raw.githubusercontent.com/IzumiRain/RainScanner/main/inside-api/"

-- The service name that is looked for.
abbrev pub cloudfront : List AwsPrefix → List Text
cloudfront [] = []
cloudfront (p ∷ ps) =
    let rest = cloudfront ps in
    if text_eq p.service (codes "CLOUDFRONT") then p.prefix ∷ rest else rest

abbrev pub Cidrs : Type 0
Cidrs = Result FetchError (List Text)

-- if len(out) == 0 { return err }
abbrev pub some_ranges : List Text → Cidrs
some_ranges out = if is_empty out then err no_ranges else ok out

module _ (np : Netip) (feed : Feed) where
  abbrev pub normalized : List Text → List Text
  normalized ms = normalize_cidrs np feed.print feed.special ms

  unfoldable pub scrape_cidr_bytes : Text → List Text
  scrape_cidr_bytes b = normalized (feed.find_all b)

  unfoldable pub scrape_cidrs : Text → Cidrs
  scrape_cidrs url = elim (feed.http_get url) [
    | none ↦ err get_failed
    | some b ↦ some_ranges (scrape_cidr_bytes b)
  ]

  -- The normal forms of a list that was read, or the next way to read the body.
  abbrev pub or_next : Option (List Text) → Cidrs → Cidrs
  or_next none next = next
  or_next (some ms) next = if is_empty (normalized ms) then next else ok (normalized ms)

  unfoldable pub fetch_cidrs : Text → Cidrs
  fetch_cidrs url = elim (feed.http_get url) [
    | none ↦ err get_failed
    | some b ↦
        or_next (feed.range_file_of b)
          (or_next (feed.array_of b) (some_ranges (scrape_cidr_bytes b)))
  ]

  abbrev pub aws_ranges : Option (List AwsPrefix × List AwsPrefix) → Cidrs
  aws_ranges none = err bad_document
  aws_ranges (some (v4, v6)) = some_ranges (cloudfront v4 ++ cloudfront v6)

  unfoldable pub fetch_aws_cloudfront : Text → Cidrs
  fetch_aws_cloudfront url = elim (feed.http_get url) [
    | none ↦ err get_failed
    | some b ↦ aws_ranges (feed.aws_of b)
  ]

  abbrev pub both : Cidrs → Cidrs → Cidrs
  both (err e) (err e') = err e
  both (err e) (ok v6) = ok v6
  both (ok primary) (err e') = ok primary
  both (ok primary) (ok v6) = ok (normalized (primary ++ v6))

  unfoldable pub scrape_both_families : ManifestEntry → Cidrs
  scrape_both_families e =
      if is_empty e.api_url_v6
      then scrape_cidrs e.api_url
      else both (scrape_cidrs e.api_url) (scrape_cidrs e.api_url_v6)

  unfoldable pub run_parser : ManifestEntry → Cidrs
  run_parser e =
      if text_eq e.parser (codes "scrape")
      then scrape_both_families e
      else if text_eq e.parser (codes "aws-cloudfront")
      then fetch_aws_cloudfront e.api_url
      else if text_eq e.parser (codes "manual")
      then err manual_parser
      else err unknown_parser

  -- What one mirror gives, if it gives anything.
  abbrev pub mirrored : Option (List Text) → List Text → Option (List Text)
  mirrored none scraped = if is_empty scraped then none else some scraped
  mirrored (some cidrs) scraped =
      if is_empty cidrs then (if is_empty scraped then none else some scraped) else some cidrs

  unfoldable pub mirror : Text → Option (List Text)
  mirror url = elim (feed.http_get url) [
    | none ↦ none
    | some b ↦ mirrored (feed.range_file_of b) (scrape_cidr_bytes b)
  ]

  abbrev pub Fetched : Type 0
  Fetched = Result FetchError (List Text × Source)

  unfoldable pub fetch_backup_file : Text → Fetched
  fetch_backup_file name = elim (mirror (github_base ++ name ++ codes ".json")) [
    | some cidrs ↦ ok (cidrs, github_raw)
    | none ↦ elim (mirror (jsdelivr_base ++ name ++ codes ".json")) [
      | some cidrs ↦ ok (cidrs, jsdelivr)
      | none ↦ err backup_unavailable
    ]
  ]

  abbrev pub as_official : Cidrs → Fetched
  as_official (ok cidrs) = ok (cidrs, official)
  as_official (err e) = err e

  -- The first of two sources that answers.
  abbrev pub first_of : Fetched → Fetched → Fetched
  first_of (ok a) second = ok a
  first_of (err e) (ok a) = ok a
  first_of (err e) (err e') = err all_sources_failed

  abbrev pub only_of : Fetched → Fetched
  only_of (ok a) = ok a
  only_of (err e) = err all_sources_failed

  unfoldable pub fetch_ranges : ManifestEntry → FetchOptions → Fetched
  fetch_ranges e opts =
      let from_official = as_official (run_parser e) in
      let backup = fetch_backup_file e.name in
      if text_eq e.parser (codes "manual")
      then if opts.no_backup then err backup_disabled else backup
      else if opts.prefer_backup && not opts.no_backup
      then first_of backup from_official
      else if opts.no_backup
      then only_of from_official
      else first_of from_official backup

  module _ (store : Store) where
    -- The file that Refresh writes.
    abbrev pub refreshed_file : Text → List Text → Text → RangeFile
    refreshed_file name cidrs source =
        let kept = sort (filter np cidrs auto) in
        record { cdn = name; count = length kept; cidrs = kept; source = source }

    abbrev pub source_name : Source → Text
    source_name official = codes "official"
    source_name github_raw = codes "github-raw"
    source_name jsdelivr = codes "jsdelivr"

    abbrev refresh_with : Text → store.State → Fetched → Result FetchError RangeFile × store.State
    refresh_with name d (err e) = (err e, d)
    refresh_with name d (ok (cidrs, source)) =
        let rf = refreshed_file name cidrs (source_name source) in
        let saved = store.save_ranges rf d in ((if saved.1 then ok rf else err not_saved), saved.0)

    unfoldable pub refresh :
        Manifest → Text → FetchOptions → store.State → Result FetchError RangeFile × store.State
    refresh m name opts d = elim (get_entry m name) [
      | none ↦ (err unknown_cdn, d)
      | some e ↦ refresh_with name d (fetch_ranges e opts)
    ]

    -- LoadOrRefresh
    unfoldable pub load_or_refresh :
        Manifest
        → Text
        → Bool
        → FetchOptions
        → store.State
        → Result FetchError RangeFile × store.State
    load_or_refresh m name force opts d =
        let fresh = refresh m name opts d in
        elim (store.ranges name d) [
          | none ↦ fresh
          | some rf ↦ if not force && is_cached rf then (ok rf, d) else fresh
        ]
      where
        is_cached : RangeFile → Bool
        is_cached rf = ltb 0 rf.count
