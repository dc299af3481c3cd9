-- ===== src/Providers/Fetch/Sources.antt =====
-- Which source a list of ranges comes from.
use rain_scanner.Base.{
  ◌≡◌, Bool, true, false, ◌&&◌, ◌||◌, not, Text, codes, text_eq, ok, is_ok, List, arith, ◌⊎◌,
}
use rain_scanner.IpRange.Netip.{Netip}
use rain_scanner.Providers.Manifest.{ManifestEntry}
use rain_scanner.Providers.Fetch.{
  Feed, FetchOptions, Source, official, run_parser, fetch_backup_file, fetch_ranges,
}

module _ (np : Netip) (feed : Feed) where
  -- The sources that FetchRanges may use for an entry.
  abbrev pub official_allowed : ManifestEntry → Bool
  official_allowed e = not (text_eq e.parser (codes "manual"))

  -- FetchRanges succeeds exactly when a source that the entry and the options allow succeeds: the parser of the
  -- provider's own feed unless the entry is manual, and the mirror unless backups are disabled.
  pub is_ok-fetch_ranges :
      (e : ManifestEntry) (opts : FetchOptions)
      → is_ok (fetch_ranges np feed e opts) ≡ (
          (official_allowed e && is_ok (run_parser np feed e))
          || (not opts.no_backup && is_ok (fetch_backup_file np feed e.name)))
  unfolding fetch_ranges
  is_ok-fetch_ranges e opts = ground arith

  -- Ranges that FetchRanges returns come from the provider's own feed only if the entry is not manual, and from a
  -- mirror only if backups are not disabled.
  pub fetch_ranges_source :
      (e : ManifestEntry) (opts : FetchOptions) (cidrs : List Text) (src : Source)
      → fetch_ranges np feed e opts ≡ ok (cidrs, src)
      → ((official_allowed e ≡ true) × (run_parser np feed e ≡ ok cidrs) × (src ≡ official))
        ⊎ ((opts.no_backup ≡ false) × (fetch_backup_file np feed e.name ≡ ok (cidrs, src)))
  unfolding fetch_ranges
  fetch_ranges_source e opts cidrs src h = ground arith
