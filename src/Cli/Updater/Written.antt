-- ===== src/Cli/Updater/Written.antt =====
-- The files that runUpdater leaves in the directory: those of manual CDNs as they were, the others fresh.
use rain_scanner.Base.{
  ℕ, ◌+◌, ◌≡◌, ◌≢◌, ◌≤◌, ◌⊎◌, ◌↔◌, inl, inr, refl, sym, ap, ◌∙◌, Bool, true, false, not, List, [],
  ◌∷◌, ◌++◌, some, ltb, Text, length, ok, arith, All, Bool-cases, Result-cases,
}
use rain_scanner.IpRange.Netip.{Netip}
use rain_scanner.Storage.{RangeFile, Store, IsStore}
use rain_scanner.Providers.Manifest.{ManifestEntry}
use rain_scanner.Providers.Fetch.{Feed, Source, fetch_ranges}
use rain_scanner.Cli.Updater.{
  Outcome, updated, skipped, failed, Tally, zero_tally, counted, official_only, is_manual,
  fetched_file, update_entry, update_entries, run_updater,
}

module _ (np : Netip) (feed : Feed) (store : Store) where
  open store use {State}

  -- What the directory has for an entry is what was fetched for it.
  abbrev pub IsFresh : ManifestEntry → State → Type 0
  IsFresh e d =
      (cidrs : List Text) × (source : Source) × (fetch_ranges np feed e official_only
        ≡ ok (cidrs, source))
      × (store.ranges e.name d ≡ some (fetched_file np feed store e.name cidrs source))

  counted-failed : (o : Outcome) (t : Tally) → t.failed_count ≤ (counted o t).failed_count
  counted-failed updated t = omega arith
  counted-failed skipped t = omega arith
  counted-failed failed t = omega arith

  failed-le :
      (es : List ManifestEntry) (t : Tally) (d : State)
      → t.failed_count ≤ (update_entries np feed store es t d).0.failed_count
  unfolding update_entries
  failed-le [] t d = omega arith
  failed-le (e ∷ es) t d =
      let one : Outcome × State = update_entry np feed store e d in
      omega (arith, failed-le es (counted one.0 t) one.1, counted-failed one.0 t)

  update_entries-append :
      (xs ys : List ManifestEntry) (t : Tally) (d : State)
      → update_entries np feed store (xs ++ ys) t d
        ≡ update_entries np feed store ys
            (update_entries np feed store xs t d).0
            (update_entries np feed store xs t d).1
  unfolding update_entries
  update_entries-append [] ys t d = refl
  update_entries-append (x ∷ xs) ys t d = update_entries-append xs ys _ _

  abbrev total : Tally → ℕ
  total t = t.updated_count + t.skipped_count + t.failed_count

  total-counted : (o : Outcome) (t : Tally) → total (counted o t) ≡ total t + 1
  total-counted updated t = omega arith
  total-counted skipped t = omega arith
  total-counted failed t = omega arith

  update_entries-total :
      (es : List ManifestEntry) (t : Tally) (d : State)
      → total (update_entries np feed store es t d).0 ≡ total t + length es
  unfolding update_entries
  update_entries-total [] t d = omega arith
  update_entries-total (e ∷ es) t d =
      let one : Outcome × State = update_entry np feed store e d in
      omega (arith, update_entries-total es (counted one.0 t) one.1, total-counted one.0 t)

  -- What an outcome of the command says of its loop.
  abbrev Ran : List ManifestEntry → State → Tally → State → Bool → Type 0
  Ran es d t d' done =
      let run = update_entries np feed store es zero_tally d in
      (run.0 ≡ t) × (run.1 ≡ d') × (done ≡ not (ltb 0 t.failed_count))

  ran :
      (es : List ManifestEntry) (d d' : State) (t : Tally) (done : Bool)
      → run_updater np feed store (some es) d ≡ some (t, d', done)
      → Ran es d t d' done
  unfolding run_updater
  ran [] d d' t done h = cc
  ran (e ∷ es) d d' t done h =
      let run : Tally × State = update_entries np feed store (e ∷ es) zero_tally d in
      let e1 : run.0 ≡ t = cc in
      let e2 : run.1 ≡ d' = cc in
      let e3 : not (ltb 0 run.0.failed_count) ≡ done = cc in (e1, e2, rw (sym e1) (sym e3))

  module _ (law : IsStore store) where
    other_kept :
        (e : ManifestEntry) (cdn : Text) (d : State)
        → (is_manual e ≡ true) ⊎ (e.name ≢ cdn)
        → store.ranges cdn (update_entry np feed store e d).1 ≡ store.ranges cdn d
    unfolding update_entry
    other_kept e cdn d h = elim (Bool-cases (is_manual e)) [
      | inl manual ↦ rw manual refl
      | inr fetched ↦ elim (Result-cases (fetch_ranges np feed e official_only)) [
        | inl (x, missed) ↦ rw (fetched, missed) refl
        | inr (p, got) ↦ elim h [
          | inl manual ↦ cc
          | inr other ↦ rw (fetched, got) (law.ranges_other _ cdn d other)
        ]
      ]
    ]

    others_kept :
        (es : List ManifestEntry) (cdn : Text) (t : Tally) (d : State)
        → All (λ (e : ManifestEntry). (is_manual e ≡ true) ⊎ (e.name ≢ cdn)) es
        → store.ranges cdn (update_entries np feed store es t d).1 ≡ store.ranges cdn d
    unfolding update_entries
    others_kept [] cdn t d h = refl
    others_kept (e ∷ es) cdn t d h = others_kept es cdn _ _ h.1 ∙ other_kept e cdn d h.0

    IsFresh-after :
        (e : ManifestEntry) (d : State)
        → is_manual e ≡ false
        → (update_entry np feed store e d).0 ≢ failed
        → IsFresh e (update_entry np feed store e d).1
    unfolding update_entry
    IsFresh-after e d manual h = elim (Result-cases (fetch_ranges np feed e official_only)) [
      | inl (x, missed) ↦ absurd (h (rw (manual, missed) refl))
      | inr ((cidrs, source), got) ↦
          let rf : RangeFile = fetched_file np feed store e.name cidrs source in
          elim (Bool-cases (store.save_ranges rf d).1) [
            | inl kept ↦ (cidrs, source, got, rw (manual, got) (law.ranges_saved rf d kept))
            | inr lost ↦ absurd (h (rw (manual, got, lost) refl))
          ]
    ]

    -- When the name of an entry that is not manual is in no later entry that is fetched, and the command ends with
    -- status 0, the directory has for the entry what its official source gave.
    pub run_updater-IsFresh :
        (before after : List ManifestEntry) (e : ManifestEntry) (d d' : State) (t : Tally)
        → All (λ (x : ManifestEntry). (is_manual x ≡ true) ⊎ (x.name ≢ e.name)) after
        → is_manual e ≡ false
        → run_updater np feed store (some (before ++ e ∷ after)) d ≡ some (t, d', true)
        → IsFresh e d'
    unfolding update_entries
    run_updater-IsFresh before after e d d' t others fetched h =
        let r : Ran (before ++ e ∷ after) d t d' true = ran (before ++ e ∷ after) d d' t true h in
        let first : Tally × State = update_entries np feed store before zero_tally d in
        let one : Outcome × State = update_entry np feed store e first.1 in
        let rest : Tally × State =
          update_entries np feed store after (counted one.0 first.0) one.1 in
        let whole : update_entries np feed store (before ++ e ∷ after) zero_tally d ≡ rest =
          update_entries-append before (e ∷ after) zero_tally d in
        let fresh : IsFresh e one.1 = IsFresh-after e first.1 fetched (λ bad.
          let ended : t.failed_count ≡ 0 = ground (arith, r.2) in
          let grown : 1 ≤ (counted one.0 first.0).failed_count = rw bad (omega arith) in
          let kept : (counted one.0 first.0).failed_count ≤ rest.0.failed_count =
            failed-le after (counted one.0 first.0) one.1 in
          let all : rest.0.failed_count ≡ t.failed_count =
            ap (λ x. x.0.failed_count) (sym whole) ∙ ap (λ x. x.failed_count) r.0 in
          omega arith) in
        let (cidrs, source, got, stored) = fresh in
        (
          cidrs,
          source,
          got,
          ap (store.ranges e.name) (sym r.1 ∙ ap (λ x. x.1) whole)
              ∙ others_kept after e.name (counted one.0 first.0) one.1 others
              ∙ stored,
        )

    -- Whatever is fetched and whatever fails, over a store that keeps its promises and a manifest with entries: the
    -- file of a name that only manual entries have is as it was, and the three counts add up to the number of
    -- entries. The status is 0 exactly when nothing failed.
    pub run_updater-manual :
        (es : List ManifestEntry) (cdn : Text) (d d' : State) (t : Tally) (done : Bool)
        → All (λ (x : ManifestEntry). (is_manual x ≡ true) ⊎ (x.name ≢ cdn)) es
        → run_updater np feed store (some es) d ≡ some (t, d', done)
        → (store.ranges cdn d' ≡ store.ranges cdn d)
          × (t.updated_count + t.skipped_count + t.failed_count ≡ length es)
          × ((done ≡ true) ↔ (t.failed_count ≡ 0))
    run_updater-manual es cdn d d' t done others h =
        let r : Ran es d t d' done = ran es d d' t done h in
        (
          ap (store.ranges cdn) (sym r.1) ∙ others_kept es cdn zero_tally d others,
          ap total (sym r.0) ∙ update_entries-total es zero_tally d ∙ omega arith,
          ground (arith, r.2),
        )
