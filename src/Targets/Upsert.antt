-- ===== src/Targets/Upsert.antt =====
-- Upsert of internal/targets/targets.go. `scheme_of` is url.Parse followed by `.Scheme`, with `none` for its error.
pub mod Laws
use rain_scanner.Base.{
  ℕ, get_elem?, Bool, true, false, ◌&&◌, ◌||◌, not, List, [], ◌∷◌, ◌++◌, Option, none, some,
  if◌then◌else◌, Text, codes, text_eq, to_lower, trim_space, is_empty, set, Result, ok, err,
}
use rain_scanner.IpRange.Family.{auto}
use rain_scanner.IpRange.Netip.{Netip}
use rain_scanner.IpRange.Entries.{filter}
use rain_scanner.Storage.{Store}
use rain_scanner.Targets.{
  Record, Registry, TargetError, name_required, bad_api_url, not_saved, Step, has_name, remove_name,
  index_of, save_hidden_locked, persist_locked,
}

-- A registry that replaces the record at an index, or adds one. A record that is replaced stays a built-in and
-- keeps its API URL if the caller gave none.
abbrev pub merged : Record → Record → Record
merged rec old = record rec {
  builtin = old.builtin || rec.builtin;
  api_url = if is_empty rec.api_url then old.api_url else rec.api_url;
}

abbrev pub replace_at : List Record → Record → ℕ → Option Record → Record × List Record
replace_at rs rec i none = (rec, rs)
replace_at rs rec i (some old) = (merged rec old, set rs i (merged rec old))

abbrev pub place_at : List Record → Record → Option ℕ → Record × List Record
place_at rs rec none = (rec, rs ++ rec ∷ [])
place_at rs rec (some i) = replace_at rs rec i (get_elem? rs i)

unfoldable pub place : List Record → Record → Record × List Record
place rs rec = place_at rs rec (index_of rs rec.name)

-- The check of the API URL.
abbrev pub bad_api : (Text → Option Text) → Text → Bool
bad_api scheme_of api = not (is_empty (trim_space api)) && elim (scheme_of (trim_space api)) [
  | none ↦ true
  | some s ↦ not (text_eq s (codes "http")) && not (text_eq s (codes "https"))
]

module _ (store : Store) (np : Netip) (scheme_of : Text → Option Text) where
  open store use {State}

  -- The record that is stored: trimmed, filtered, and with the registry's own flag.
  abbrev pub cleaned : Registry → Record → Record
  cleaned r rec = record rec {
    name = trim_space rec.name;
    cidrs = filter np rec.cidrs auto;
    builtin = has_name (to_lower (trim_space rec.name)) r.builtin_names;
  }

  -- A built-in that was hidden is shown again, before anything else is written.
  unfoldable pub unhide : Registry → State → Record → Registry × State × Bool
  unhide r d rec =
      let lower = to_lower rec.name in
      if rec.builtin && has_name lower r.hidden
      then (let r' = record r { hidden = remove_name lower r.hidden } in
          let saved = save_hidden_locked store r' d in (r', saved.0, saved.1))
      else (r, d, true)

  -- The end of Upsert: the record takes its place in memory, and the file is written.
  unfoldable pub put_record : Registry → State → Record → Step store Record
  put_record r d rec =
      let (rec', rs) = place r.recs rec in
      let r' = record r { recs = rs } in
      let saved = persist_locked store rec' r' d in
      record { result = if saved.1 then ok rec' else err not_saved; registry = r'; state = saved.0 }

  unfoldable pub upsert : Registry → State → Record → Step store Record
  upsert r d rec =
      if is_empty (trim_space rec.name)
      then record { result = err name_required; registry = r; state = d }
      else if bad_api scheme_of rec.api_url
      then record { result = err bad_api_url; registry = r; state = d }
      else (let rec' = cleaned r rec in
          let (r', d', shown) = unhide r d rec' in
          if shown
          then put_record r' d' rec'
          else record { result = err not_saved; registry = r'; state = d' })
