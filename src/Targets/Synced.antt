-- ===== src/Targets/Synced.antt =====
-- The files follow the registry: what Upsert and Delete leave on disk is what they leave in memory.
use rain_scanner.Base.{
  ◌≡◌, ◌≢◌, refl, sym, ap, ◌∙◌, Bool, true, ◌&&◌, List, [], Option, if◌then◌else◌, Text, codes,
  text_ltb, to_lower, trim_space, is_empty, Result, ok, err, arith, Bool-cases, Option-cases, inl,
  inr, length,
}
use rain_scanner.Base.Sorting.{sort_by}
use rain_scanner.IpRange.Netip.{Netip}
use rain_scanner.Storage.{Store, IsStore, RangeFile}
use rain_scanner.Targets.{
  Record, Registry, TargetError, not_saved, customs_of, remove_at, index_of, has_name, remove_name,
  add_name, save_hidden_locked, save_customs_locked, persist_locked,
}
use rain_scanner.Targets.Names.{trim_space_idem}
use rain_scanner.Targets.Lookup.{index_from_found}
use rain_scanner.Targets.Upsert.{merged, place, bad_api, cleaned, unhide, put_record, upsert}
use rain_scanner.Targets.Remove.{delete}
use rain_scanner.Targets.Customs.{
  customs_of-remove_at, customs_of-set, customs_of-append, IsFlagged, All-at,
}

if_ok :
    {A : Type 0} (b : Bool) (a a' : A)
    → ◌≡◌ {A = Result TargetError A} (if b then ok a else err not_saved) (ok a')
    → b ≡ true
if_ok b a a' h = ground arith

module _ (store : Store) (laws : IsStore store) where
  open store use {State}

  -- The store holds what the registry holds: the custom targets, and the hidden names in order.
  abbrev pub IsSynced : Registry → State → Type 0
  IsSynced r d =
      (store.load_customs d ≡ ok (customs_of r.recs))
      × (store.load_hidden d ≡ ok (sort_by text_ltb r.hidden))

  IsSynced-hidden :
      (r : Registry) (d : State)
      → store.load_customs d ≡ ok (customs_of r.recs)
      → (save_hidden_locked store r d).1 ≡ true
      → IsSynced r (save_hidden_locked store r d).0
  unfolding save_hidden_locked
  IsSynced-hidden r d customs saved = (
    laws.customs_kept (sort_by text_ltb r.hidden) d saved ∙ customs,
    laws.hidden_saved (sort_by text_ltb r.hidden) d saved,
  )

  IsSynced-customs :
      (r : Registry) (d : State)
      → store.load_hidden d ≡ ok (sort_by text_ltb r.hidden)
      → (save_customs_locked store r d).1 ≡ true
      → IsSynced r (save_customs_locked store r d).0
  unfolding save_customs_locked
  IsSynced-customs r d hidden saved = (
    laws.customs_saved (customs_of r.recs) d saved,
    laws.hidden_kept (customs_of r.recs) d saved ∙ hidden,
  )

  -- A Delete that succeeds, of a custom target, of a built-in or of nothing, leaves the store in step with the
  -- registry if it was before.
  pub delete-IsSynced :
      (r : Registry) (d : State) (name : Text) (removed : Bool)
      → IsSynced r d
      → (delete store r d name).result ≡ ok removed
      → IsSynced (delete store r d name).registry (delete store r d name).state
  unfolding delete
  delete-IsSynced r d name removed (customs, hidden) h =
      elim (Option-cases (index_of r.recs name)) [
        | inl e ↦ rw e (customs, hidden)
        | inr (i, e) ↦
            let (old, at_i, _) =
              index_from_found r.recs (trim_space name) i (unfold index_of in e) in
            let r' = record r { recs = remove_at i r.recs } in
            let hid = record r' { hidden = add_name (to_lower name) r.hidden } in
            elim (Bool-cases old.builtin) [
              | inl b ↦
                  let same = customs_of-remove_at r.recs i old at_i b in
                  rw (e, at_i, b)
                    (IsSynced-hidden hid d (customs ∙ ap ok (sym same))
                      (if_ok _ true removed (rw (e, at_i, b) at h)))
              | inr c ↦
                  rw (e, at_i, c)
                    (IsSynced-customs r' d hidden (if_ok _ true removed (rw (e, at_i, c) at h)))
            ]
      ]

  module _ (np : Netip) (scheme_of : Text → Option Text) where
    unhide-IsSynced :
        (r : Registry) (d : State) (rec : Record)
        → IsSynced r d
        → (unhide store np scheme_of r d rec).2 ≡ true
        → IsSynced (unhide store np scheme_of r d rec).0 (unhide store np scheme_of r d rec).1
    unfolding unhide
    unhide-IsSynced r d rec (customs, hidden) shown =
        elim (Bool-cases (rec.builtin && has_name (to_lower rec.name) r.hidden)) [
          | inl e ↦ rw e (
              IsSynced-hidden (record r { hidden = remove_name (to_lower rec.name) r.hidden }) d
                customs (rw e at shown))
          | inr e ↦ rw e (customs, hidden)
        ]

    persist-IsSynced :
        (r : Registry) (d : State) (rs : List Record) (rec : Record)
        → IsSynced r d
        → (rec.builtin ≡ true → customs_of rs ≡ customs_of r.recs)
        → rec.name ≢ codes "custom"
        → (persist_locked store rec (record r { recs = rs }) d).1 ≡ true
        → IsSynced (record r { recs = rs }) (persist_locked store rec (record r { recs = rs }) d).0
    unfolding persist_locked
    persist-IsSynced r d rs rec (customs, hidden) same apart saved = elim (Bool-cases rec.builtin) [
      | inl b ↦
          let rf : RangeFile = record {
            cdn = rec.name;
            count = length rec.cidrs;
            cidrs = rec.cidrs;
            source = [];
          } in
          rw b (
            laws.ranges_keep_customs rf d apart ∙ customs ∙ ap ok (sym (same b)),
            laws.ranges_keep_hidden rf d apart ∙ hidden,
          )
      | inr c ↦ rw c (IsSynced-customs (record r { recs = rs }) d hidden (rw c at saved))
    ]

    customs_of-place :
        (r : Registry) (rec : Record)
        → IsFlagged r
        → rec.builtin ≡ has_name (to_lower rec.name) r.builtin_names
        → trim_space rec.name ≡ rec.name
        → (place r.recs rec).0.builtin ≡ true
        → customs_of (place r.recs rec).1 ≡ customs_of r.recs
    unfolding place
    customs_of-place r rec flags flag trimmed b = elim (Option-cases (index_of r.recs rec.name)) [
      | inl e ↦ rw e (customs_of-append r.recs rec (rw e at b))
      | inr (i, e) ↦
          let (old, at_i, same) =
            index_from_found r.recs (trim_space rec.name) i (unfold index_of in e) in
          let old_flag =
            All-at (λ (x : Record). x.builtin ≡ has_name (to_lower x.name) r.builtin_names) r.recs i
              old flags at_i in
          let old_is : old.builtin ≡ rec.builtin =
            old_flag
            ∙ ap (λ n. has_name n r.builtin_names) (same ∙ ap to_lower trimmed)
            ∙ sym flag in
          let b' : (merged rec old).builtin ≡ true = rw (e, at_i) at b in
          rw (e, at_i) (customs_of-set r.recs i old (merged rec old) at_i (ground arith) b')
    ]

    name-place : (rs : List Record) (rec : Record) → (place rs rec).0.name ≡ rec.name
    unfolding place
    name-place rs rec = ground arith

    abbrev Flagged : Registry → Record → Type 0
    Flagged r rec = IsFlagged r × (rec.builtin ≡ has_name (to_lower rec.name) r.builtin_names)

    unhide-Flagged :
        (r : Registry) (d : State) (rec : Record)
        → Flagged r rec
        → Flagged (unhide store np scheme_of r d rec).0 rec
    unfolding unhide
    unhide-Flagged r d rec h =
        elim (Bool-cases (rec.builtin && has_name (to_lower rec.name) r.hidden)) [
          | inl e ↦ rw e h
          | inr e ↦ rw e h
        ]

    put_record-IsSynced :
        (r : Registry) (d : State) (rec rec' : Record)
        → IsSynced r d
        → Flagged r rec
        → trim_space rec.name ≡ rec.name
        → rec.name ≢ codes "custom"
        → (put_record store np scheme_of r d rec).result ≡ ok rec'
        → IsSynced
            (put_record store np scheme_of r d rec).registry
            (put_record store np scheme_of r d rec).state
    unfolding put_record
    put_record-IsSynced r d rec rec' synced (flags, flag) trimmed apart h =
        let (new, rs) = place r.recs rec in
        persist-IsSynced r d rs new synced (λ b. customs_of-place r rec flags flag trimmed b)
          (λ e. apart (sym (name-place r.recs rec) ∙ e)) (if_ok _ new rec' h)

    -- An Upsert that succeeds leaves the store in step with the registry if it was before, when every record carries
    -- the flag that the manifest gives its name and the target is not called "custom", which is the name of the
    -- file that holds the custom targets.
    pub upsert-IsSynced :
        (r : Registry) (d : State) (rec rec' : Record)
        → IsSynced r d
        → IsFlagged r
        → trim_space rec.name ≢ codes "custom"
        → (upsert store np scheme_of r d rec).result ≡ ok rec'
        → IsSynced
            (upsert store np scheme_of r d rec).registry
            (upsert store np scheme_of r d rec).state
    unfolding upsert
    upsert-IsSynced r d rec rec' synced flags apart h =
        elim (Bool-cases (is_empty (trim_space rec.name))) [
          | inl empty ↦ cc (rw empty at h)
          | inr named ↦ elim (Bool-cases (bad_api scheme_of rec.api_url)) [
            | inl bad ↦ cc (rw (named, bad) at h)
            | inr good ↦
                let c = cleaned store np scheme_of r rec in
                let u = unhide store np scheme_of r d c in
                elim (Bool-cases u.2) [
                  | inl shown ↦
                      rw (named, good, shown)
                        (put_record-IsSynced u.0 u.1 c rec' (unhide-IsSynced r d c synced shown)
                          (unhide-Flagged r d c (flags, refl)) (trim_space_idem rec.name) apart
                          (rw (named, good, shown) at h))
                  | inr failed ↦ cc (rw (named, good, failed) at h)
                ]
          ]
        ]
