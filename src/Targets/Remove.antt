-- ===== src/Targets/Remove.antt =====
-- Delete and RestoreBuiltins of internal/targets/targets.go.
pub mod Laws
use rain_scanner.Base.{
  ℕ, Bool, true, false, ◌&&◌, ◌||◌, not, List, [], ◌∷◌, ◌++◌, Option, none, some, if◌then◌else◌,
  Text, to_lower, is_empty, is_some, get_elem?, Result, ok, err, text_ltb,
}
use rain_scanner.Base.Sorting.{sort_by}
use rain_scanner.Storage.{Store}
use rain_scanner.Providers.Manifest.{ManifestEntry, Manifest, entries}
use rain_scanner.Providers.Names.{safe_range_name}
use rain_scanner.Targets.{
  Record, Registry, not_saved, Step, add_name, index_of, remove_at, save_hidden_locked,
  save_customs_locked, seeded,
}

module _ (store : Store) where
  open store use {State}

  abbrev saved_step : {A : Type 0} → A → Registry → State × Bool → Step store A
  saved_step a r saved = record {
    result = if saved.1 then ok a else err not_saved;
    registry = r;
    state = saved.0;
  }

  abbrev pub delete_at : Registry → State → Text → ℕ → Option Record → Step store Bool
  delete_at r d name i none = record { result = ok false; registry = r; state = d }
  delete_at r d name i (some old) =
      let r' = record r { recs = remove_at i r.recs } in
      if old.builtin
      then (let hid = record r' { hidden = add_name (to_lower name) r.hidden } in
          saved_step true hid (save_hidden_locked store hid d))
      else saved_step true r' (save_customs_locked store r' d)

  abbrev pub delete_found : Registry → State → Text → Option ℕ → Step store Bool
  delete_found r d name none = record { result = ok false; registry = r; state = d }
  delete_found r d name (some i) = delete_at r d name i (get_elem? r.recs i)

  unfoldable pub delete : Registry → State → Text → Step store Bool
  delete r d name = delete_found r d name (index_of r.recs name)

  -- The loop of RestoreBuiltins over the manifest, with the keys of `restored`.
  unfoldable pub restore_entries :
      State → List ManifestEntry → Registry → List Text → Registry × List Text
  restore_entries d [] r restored = (r, restored)
  restore_entries d (e ∷ es) r restored =
      let lower = to_lower e.name in
      let named = record r { builtin_names = add_name lower r.builtin_names } in
      let skipped = restore_entries d es r restored in
      let kept = restore_entries d es named restored in
      let added =
        restore_entries d es (record named { recs = r.recs ++ seeded store d e ∷ [] })
          (add_name lower restored) in
      if not (safe_range_name e.name)
      then skipped
      else if is_some (index_of r.recs e.name)
      then kept
      else added

  abbrev pub restored_step : Registry × List Text → State → Step store (List Text)
  restored_step (r, restored) d = record {
    result = ok (sort_by text_ltb restored);
    registry = r;
    state = d;
  }

  unfoldable pub restore_builtins : Manifest → Registry → State → Step store (List Text)
  restore_builtins m r d =
      if is_empty r.hidden
      then restored_step (restore_entries d (entries m) r []) d
      else (let shown = record r { hidden = [] } in
          let saved = save_hidden_locked store shown d in
          if saved.1
          then restored_step (restore_entries saved.0 (entries m) shown r.hidden) saved.0
          else record { result = err not_saved; registry = shown; state = saved.0 })
