-- ===== src/Targets/Reload.antt =====
-- Reload of internal/targets/targets.go, over the fetchers of Providers.
pub mod Races
use rain_scanner.Base.{
  ◌≡◌, refl, false, Option, none, some, if◌then◌else◌, Text, text_eq, is_empty, trim_space, List,
  Result, ok, err, is_ok,
}
use rain_scanner.IpRange.Family.{auto}
use rain_scanner.IpRange.Netip.{Netip}
use rain_scanner.IpRange.Entries.{filter, sort}
use rain_scanner.Storage.{Store}
use rain_scanner.Providers.Manifest.{ManifestEntry, Manifest, get_entry}
use rain_scanner.Providers.Fetch.{Feed, FetchOptions, fetch_ranges, fetch_cidrs}
use rain_scanner.Targets.{
  Record, Registry, TargetError, unknown_target, no_api_url, fetch_failed, Step, get,
}
use rain_scanner.Targets.Upsert.{upsert}

module _ (store : Store) (np : Netip) (scheme_of : Text → Option Text) (feed : Feed) where
  open store use {State}

  abbrev from_url : Record → Result TargetError (List Text)
  from_url rec =
      if is_empty (trim_space rec.api_url)
      then err no_api_url
      else elim (fetch_cidrs np feed rec.api_url) [ ok cidrs ↦ ok cidrs | err e ↦ err fetch_failed ]

  abbrev from_entry : Record → FetchOptions → Option ManifestEntry → Result TargetError (List Text)
  from_entry rec opts none = from_url rec
  from_entry rec opts (some e) =
      if text_eq rec.api_url e.api_url
      then elim (fetch_ranges np feed e opts) [
        | ok (cidrs, src) ↦ ok cidrs
        | err x ↦ err fetch_failed
      ]
      else from_url rec

  -- The ranges that a reload of the record fetches: from the manifest's entry if its feed is unmodified, else from the
  -- record's own URL.
  unfoldable pub fetched : Manifest → Record → Text → FetchOptions → Result TargetError (List Text)
  fetched m rec name opts = from_entry rec opts (get_entry m name)

  abbrev pub store_fetched :
      Registry → State → Record → Result TargetError (List Text) → Step store Record
  store_fetched r d rec (err e) = record { result = err e; registry = r; state = d }
  store_fetched r d rec (ok cidrs) =
      upsert store np scheme_of r d (record rec { cidrs = sort (filter np cidrs auto) })

  abbrev pub reload_found :
      Manifest → Registry → State → Text → FetchOptions → Option Record → Step store Record
  reload_found m r d name opts none = record {
    result = err unknown_target;
    registry = r;
    state = d;
  }
  reload_found m r d name opts (some rec) = store_fetched r d rec (fetched m rec name opts)

  unfoldable pub reload : Manifest → Registry → State → Text → FetchOptions → Step store Record
  reload m r d name opts = reload_found m r d name opts (get r name)

  -- A reload whose fetch fails, for whatever reason, changes neither the registry nor the store: the ranges that were
  -- there stay.
  pub reload_failed :
      (m : Manifest) (r : Registry) (d : State) (name : Text) (opts : FetchOptions) (rec : Record)
      → get r name ≡ some rec
      → is_ok (fetched m rec name opts) ≡ false
      → ((reload m r d name opts).registry ≡ r)
        × ((reload m r d name opts).state ≡ d)
        × (is_ok (reload m r d name opts).result ≡ false)
  unfolding reload
  reload_failed m r d name opts rec found failed = rw found (go (fetched m rec name opts) failed)
    where
      go :
          (f : Result TargetError (List Text))
          → is_ok f ≡ false
          → ((store_fetched r d rec f).registry ≡ r)
            × ((store_fetched r d rec f).state ≡ d)
            × (is_ok (store_fetched r d rec f).result ≡ false)
      go (ok cidrs) h = cc
      go (err e) h = (refl, refl, refl)

  pub reload_unknown :
      (m : Manifest) (r : Registry) (d : State) (name : Text) (opts : FetchOptions)
      → get r name ≡ none
      → ((reload m r d name opts).registry ≡ r)
        × ((reload m r d name opts).state ≡ d)
        × (is_ok (reload m r d name opts).result ≡ false)
  unfolding reload
  reload_unknown m r d name opts e = rw e (refl, refl, refl)
