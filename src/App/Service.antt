-- ===== src/App/Service.antt =====
-- The methods of Service in internal/app/service.go that keep targets: New, RefreshManifest and ReloadAll. The manifest
-- that package providers holds is a field of the model's service.
pub mod Laws
use rain_scanner.Base.{
  ℕ, zero, suc, ◌+◌, ◌≡◌, refl, ap, ◌∙◌, Bool, true, false, ◌||◌, not, List, [], ◌∷◌, ◌++◌, map,
  keep, Option, none, some, if◌then◌else◌, Text, is_empty, length, count_if, Result, ok, err, is_ok,
  is_some, arith, Bool-cases, inl, inr, Option-cases, get_elem?,
}
use rain_scanner.IpRange.Netip.{Netip}
use rain_scanner.Storage.{Store, StoreError}
use rain_scanner.Providers.Manifest.{ManifestEntry, Manifest, Sources, load_manifest}
use rain_scanner.Providers.Fetch.{Feed, FetchOptions}
use rain_scanner.Targets.{Record, Registry, TargetError, Step, list, open_registry}
use rain_scanner.Targets.Remove.{restore_builtins}
use rain_scanner.Targets.Reload.{reload}

pub record ReloadResult : Type 0 where
  pub name : Text
  pub count : ℕ
  pub error : Option TargetError

pub data RefreshError : Type 0 where
  manifest_unavailable : RefreshError
  not_restored : TargetError → RefreshError

-- A target that ReloadAll reloads.
abbrev pub reloadable : Record → Bool
reloadable rec = rec.builtin || not (is_empty rec.api_url)

abbrev pub outcome : Text → Result TargetError Record → ReloadResult
outcome name (ok rec) = record { name = name; count = length rec.cidrs; error = none }
outcome name (err e) = record { name = name; count = 0; error = some e }

module _ (store : Store) where
  open store use {State}

  pub record Service : Type 0 where
    pub registry : Registry
    pub state : State
    pub manifest : Manifest

  abbrev opened :
      Manifest → State → Result StoreError Registry → Result StoreError Service × Manifest
  opened m d (err e) = (err e, m)
  opened m d (ok r) = (ok (record { registry = r; state = d; manifest = m }), m)

  -- New, with the manifest that is installed before and after.
  unfoldable pub new_service : Sources → Manifest → State → Result StoreError Service × Manifest
  new_service src installed d =
      let m = if is_some installed then installed else some (load_manifest src).0 in
      opened m d (open_registry store m d)

  abbrev restored :
      Service
      → List ManifestEntry
      → Step store (List Text)
      → Result RefreshError (List Text) × Service
  restored s m step = (
    elim step.result [ ok names ↦ ok names | err e ↦ err (not_restored e) ],
    record { registry = step.registry; state = step.state; manifest = some m },
  )

  unfoldable pub refresh_manifest : Sources → Service → Result RefreshError (List Text) × Service
  refresh_manifest src s =
      let loaded = load_manifest src in
      if loaded.2
      then restored s loaded.0 (restore_builtins store (some loaded.0) s.registry s.state)
      else (err manifest_unavailable, s)

  module _ (np : Netip) (scheme_of : Text → Option Text) (feeds : ℕ → Feed)
      (opts : FetchOptions) where
    abbrev reload_one : ℕ → Text → Service → Step store Record
    reload_one i name s =
        reload store np scheme_of (feeds i) s.manifest s.registry s.state name opts

    abbrev after_one : ℕ → Text → Service → Service
    after_one i name s = record s {
      registry = (reload_one i name s).registry;
      state = (reload_one i name s).state;
    }

    -- The loop of ReloadAll over the list taken before it; `feeds i` answers during the i-th round.
    unfoldable pub reload_each : ℕ → List Record → Service → List ReloadResult × Service
    reload_each i [] s = ([], s)
    reload_each i (rec ∷ recs) s =
        let rest = reload_each (i + 1) recs (after_one i rec.name s) in
        let skipped = reload_each (i + 1) recs s in
        if reloadable rec
        then (outcome rec.name (reload_one i rec.name s).result ∷ rest.0, rest.1)
        else skipped

    unfoldable pub reload_all : Service → List ReloadResult × Service
    reload_all s = reload_each 0 (list s.registry) s
