-- ===== src/App/Service/Laws.antt =====
-- What a reload of all targets reports and keeps.
use rain_scanner.Base.{
  ℕ, ◌+◌, ◌≡◌, refl, ap, ◌∙◌, true, false, List, [], ◌∷◌, ◌++◌, codes, map, keep, Option, none,
  Text, Result, ok, err, is_ok, is_some, arith, Bool-cases, inl, inr, Option-cases, All,
}
use rain_scanner.IpRange.Netip.{Netip}
use rain_scanner.Storage.{Store}
use rain_scanner.Providers.Manifest.{ManifestEntry, Manifest, get_entry}
use rain_scanner.Providers.Fetch.{
  Feed, FetchOptions, scrape_cidrs, fetch_cidrs, fetch_aws_cloudfront, scrape_both_families,
  run_parser, mirror, github_base, jsdelivr_base, fetch_backup_file, fetch_ranges,
}
use rain_scanner.Targets.{Record, Registry, TargetError, list, get}
use rain_scanner.Targets.Reload.{fetched, reload, reload_failed, reload_unknown}
use rain_scanner.App.Service.{
  ReloadResult, reloadable, outcome, Service, reload_one, after_one, reload_each, reload_all,
}

-- No request to any host is answered.
abbrev pub IsOffline : Feed → Type 0
IsOffline feed = (url : Text) → feed.http_get url ≡ none

module _ (np : Netip) (feed : Feed) (offline : IsOffline feed) where
  scrape_offline : (url : Text) → is_ok (scrape_cidrs np feed url) ≡ false
  unfolding scrape_cidrs
  scrape_offline url = ground (arith, offline url)

  both_offline : (e : ManifestEntry) → is_ok (scrape_both_families np feed e) ≡ false
  unfolding scrape_both_families
  both_offline e = ground (arith, scrape_offline e.api_url, scrape_offline e.api_url_v6)

  aws_offline : (url : Text) → is_ok (fetch_aws_cloudfront np feed url) ≡ false
  unfolding fetch_aws_cloudfront
  aws_offline url = ground (arith, offline url)

  run_parser_offline : (e : ManifestEntry) → is_ok (run_parser np feed e) ≡ false
  unfolding run_parser
  run_parser_offline e = ground (arith, both_offline e, aws_offline e.api_url)

  mirror_offline : (url : Text) → mirror np feed url ≡ none
  unfolding mirror
  mirror_offline url = ground (arith, offline url)

  backup_offline : (name : Text) → is_ok (fetch_backup_file np feed name) ≡ false
  unfolding fetch_backup_file
  backup_offline name = ground (
    arith,
    mirror_offline (github_base ++ name ++ codes ".json"),
    mirror_offline (jsdelivr_base ++ name ++ codes ".json"),
  )

  fetch_ranges_offline :
      (e : ManifestEntry) (opts : FetchOptions) → is_ok (fetch_ranges np feed e opts) ≡ false
  unfolding fetch_ranges
  fetch_ranges_offline e opts = ground (arith, run_parser_offline e, backup_offline e.name)

  fetch_cidrs_offline : (url : Text) → is_ok (fetch_cidrs np feed url) ≡ false
  unfolding fetch_cidrs
  fetch_cidrs_offline url = ground (arith, offline url)

  pub fetched_offline :
      (store : Store) (scheme_of : Text → Option Text) (m : Manifest) (rec : Record) (name : Text)
      (opts : FetchOptions)
      → is_ok (fetched store np scheme_of feed m rec name opts) ≡ false
  unfolding fetched
  fetched_offline store scheme_of m rec name opts = elim (Option-cases (get_entry m name)) [
    | inl e ↦ rw e (ground (arith, fetch_cidrs_offline rec.api_url))
    | inr (entry, e) ↦
        rw e (ground (arith, fetch_cidrs_offline rec.api_url, fetch_ranges_offline entry opts))
  ]

abbrev pub result_names : List ReloadResult → List Text
result_names rs = map (λ (x : ReloadResult). x.name) rs

abbrev pub record_names : List Record → List Text
record_names rs = map (λ (x : Record). x.name) rs

outcome_name : (name : Text) (r : Result TargetError Record) → (outcome name r).name ≡ name
outcome_name name (ok rec) = refl
outcome_name name (err e) = refl

outcome_error :
    (name : Text) (r : Result TargetError Record)
    → is_ok r ≡ false
    → is_some (outcome name r).error ≡ true
outcome_error name (ok rec) h = cc
outcome_error name (err e) h = refl

abbrev pub Failed : ReloadResult → Type 0
Failed x = is_some x.error ≡ true

module _ (store : Store) (np : Netip) (scheme_of : Text → Option Text) where
  open store use {State}

  reload_offline :
      (feed : Feed)
      → IsOffline feed
      → (m : Manifest) (r : Registry) (d : State) (name : Text) (opts : FetchOptions)
      → ((reload store np scheme_of feed m r d name opts).registry ≡ r)
        × ((reload store np scheme_of feed m r d name opts).state ≡ d)
        × (is_ok (reload store np scheme_of feed m r d name opts).result ≡ false)
  reload_offline feed offline m r d name opts = elim (Option-cases (get r name)) [
    | inl e ↦ reload_unknown store np scheme_of feed m r d name opts e
    | inr (rec, e) ↦
        reload_failed store np scheme_of feed m r d name opts rec e
          (fetched_offline np feed offline store scheme_of m rec name opts)
  ]

  module _ (feeds : ℕ → Feed) (opts : FetchOptions) where
    reload_each_names :
        (i : ℕ) (recs : List Record) (s : Service store)
        → result_names (reload_each store np scheme_of feeds opts i recs s).0
          ≡ record_names (keep reloadable recs)
    unfolding reload_each
    reload_each_names i [] s = refl
    reload_each_names i (rec ∷ recs) s = elim (Bool-cases (reloadable rec)) [
      | inl e ↦
          let s' = after_one store np scheme_of feeds opts i rec.name s in
          let later = result_names (reload_each store np scheme_of feeds opts (i + 1) recs s').0 in
          let res = (reload_one store np scheme_of feeds opts i rec.name s).result in
          rw e (
            ap (λ n. n ∷ later) (outcome_name rec.name res)
            ∙ ap (λ l. rec.name ∷ l) (reload_each_names (i + 1) recs s'))
      | inr e ↦ rw e (reload_each_names (i + 1) recs s)
    ]

    -- ReloadAll reports one outcome for each target that is a built-in or has an API URL, in the order of List and under
    -- its name, whatever the feeds answer: a dead feed keeps none of the others from being reloaded.
    pub reload_all_names :
        (s : Service store)
        → result_names (reload_all store np scheme_of feeds opts s).0
          ≡ record_names (keep reloadable (list s.registry))
    unfolding reload_all
    reload_all_names s = reload_each_names 0 (list s.registry) s

    after_offline :
        (i : ℕ) (name : Text) (s : Service store)
        → IsOffline (feeds i)
        → (after_one store np scheme_of feeds opts i name s ≡ s)
          × Failed (outcome name (reload_one store np scheme_of feeds opts i name s).result)
    after_offline i name s offline =
        let (r, d, failed) =
          reload_offline (feeds i) offline s.manifest s.registry s.state name opts in
        ((λ j. record s { registry = r j; state = d j }), outcome_error name _ failed)

    reload_each_offline :
        (i : ℕ) (recs : List Record) (s : Service store)
        → ((k : ℕ) → IsOffline (feeds k))
        → ((reload_each store np scheme_of feeds opts i recs s).1 ≡ s)
          × All Failed (reload_each store np scheme_of feeds opts i recs s).0
    unfolding reload_each
    reload_each_offline i [] s offline = (refl, tt)
    reload_each_offline i (rec ∷ recs) s offline =
        let (same, failed) = after_offline i rec.name s (offline i) in
        let s' = after_one store np scheme_of feeds opts i rec.name s in
        let rest = reload_each_offline (i + 1) recs s' offline in
        elim (Bool-cases (reloadable rec)) [
          | inl e ↦ rw e (rest.0 ∙ same, (failed, rest.1))
          | inr e ↦ rw e (reload_each_offline (i + 1) recs s offline)
        ]

    -- A ReloadAll of a machine that no host answers keeps every target, its ranges and the store as they were, and reports
    -- each target as failed.
    pub reload_all_offline :
        (s : Service store)
        → ((k : ℕ) → IsOffline (feeds k))
        → ((reload_all store np scheme_of feeds opts s).1 ≡ s)
          × All Failed (reload_all store np scheme_of feeds opts s).0
    unfolding reload_all
    reload_all_offline s offline = reload_each_offline 0 (list s.registry) s offline
