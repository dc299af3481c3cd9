-- ===== src/Targets/Remove/Laws.antt =====
-- What Delete and RestoreBuiltins do to the records.
use rain_scanner.Base.{
  ℕ, ◌≡◌, ◌≢◌, refl, sym, ap, ◌∙◌, subst, Bool, true, List, [], ◌∷◌, ◌++◌, Option, none, some, Text,
  to_lower, trim_space, is_empty, is_some, ok, arith, Bool-cases, Option-cases, inl, inr, All,
}
use rain_scanner.Storage.{Store}
use rain_scanner.Providers.Manifest.{ManifestEntry, Manifest, entries}
use rain_scanner.Providers.Names.{safe_range_name}
use rain_scanner.Targets.{
  Record, Registry, index_from, index_of, get, remove_at, add_name, seeded, save_hidden_locked,
}
use rain_scanner.Targets.Lookup.{
  lookup, lookup_missing, lookup_found, lookup-append_some, get_lem, index_from_found,
  lookup-remove_at, lookup-remove_at_other, Distinct, Distinct-remove_at, Distinct-append,
  lookup-append,
}
use rain_scanner.Targets.Remove.{delete, restore_entries, restore_builtins}

module _ (store : Store) where
  open store use {State}

  -- The records after a deletion, whatever the store answers.
  recs-delete :
      (r : Registry) (d : State) (name : Text) (i : ℕ)
      → index_of r.recs name ≡ some i
      → (delete store r d name).registry.recs ≡ remove_at i r.recs
  unfolding delete
  recs-delete r d name i h =
      let (old, at_i, _) = index_from_found r.recs (trim_space name) i (unfold index_of in h) in
      rw (h, at_i) (ground arith)

  recs-delete-none :
      (r : Registry) (d : State) (name : Text)
      → index_of r.recs name ≡ none
      → (delete store r d name).registry.recs ≡ r.recs
  unfolding delete
  recs-delete-none r d name h = rw h

  pub missing-delete :
      (r : Registry) (d : State) (name : Text)
      → Distinct r.recs
      → get (delete store r d name).registry name ≡ none
  missing-delete r d name distinct =
      let r' = (delete store r d name).registry in
      let n = trim_space name in
      elim (Option-cases (index_of r.recs name)) [
        | inl missing ↦
            get_lem r' name
            ∙ ap (λ rs. lookup rs n) (recs-delete-none r d name missing)
            ∙ lookup_missing r.recs name missing
        | inr (i, h) ↦
            get_lem r' name
            ∙ ap (λ rs. lookup rs n) (recs-delete r d name i h)
            ∙ lookup-remove_at r.recs n i distinct (unfold index_of in h)
      ]

  -- After a deletion, whether or not the store could be written, no target has the name, letter case aside, every
  -- other target is as it was, and the names are still distinct.
  pub get-delete :
      (r : Registry) (d : State) (name other : Text)
      → Distinct r.recs
      → to_lower (trim_space other) ≢ to_lower (trim_space name)
      → let r' = (delete store r d name).registry in
        (get r' name ≡ none) × (get r' other ≡ get r other) × Distinct r'.recs
  get-delete r d name other distinct apart =
      let r' = (delete store r d name).registry in
      let n = trim_space name in
      elim (Option-cases (index_of r.recs name)) [
        | inl missing ↦
            let same = recs-delete-none r d name missing in
            (
              missing-delete r d name distinct,
              get_lem r' other
                  ∙ ap (λ rs. lookup rs (trim_space other)) same
                  ∙ sym (get_lem r other),
              subst Distinct (sym same) distinct,
            )
        | inr (i, h) ↦
            let same = recs-delete r d name i h in
            let h' : index_from r.recs n ≡ some i = unfold index_of in h in
            (
              missing-delete r d name distinct,
              get_lem r' other
                  ∙ ap (λ rs. lookup rs (trim_space other)) same
                  ∙ lookup-remove_at_other r.recs n (trim_space other) i h' apart
                  ∙ sym (get_lem r other),
              subst Distinct (sym same) (Distinct-remove_at r.recs n i h' distinct),
            )
      ]

  -- Delete reports whether the target was there, unless the store could not be written.
  pub delete_result :
      (r : Registry) (d : State) (name : Text) (removed : Bool)
      → (delete store r d name).result ≡ ok removed
      → removed ≡ is_some (get r name)
  unfolding delete
  delete_result r d name removed h = elim (Option-cases (index_of r.recs name)) [
    | inl e ↦ rw (get_lem r name, lookup_missing r.recs name e) (ground arith)
    | inr (i, e) ↦
        let (old, at_i, _) = index_from_found r.recs (trim_space name) i (unfold index_of in e) in
        let h' = rw (e, at_i) at h in
        rw (get_lem r name, lookup_found r.recs name i e, at_i) (ground arith)
  ]

  -- What the loop over the manifest keeps and adds.
  pub record IsRestored (rs : List Record) (es : List ManifestEntry) (rs' : List Record)
      : Type 0 where
    pub kept : (m : Text) (a : Record) → lookup rs m ≡ some a → lookup rs' m ≡ some a
    pub present :
        All
          (λ (e : ManifestEntry).
            safe_range_name e.name ≡ true → is_some (lookup rs' e.name) ≡ true)
          es
    pub distinct : Distinct rs → Distinct rs'

  is_some-kept :
      (o : Option Record) (rs' : List Record) (m : Text)
      → ((a : Record) → o ≡ some a → lookup rs' m ≡ some a)
      → is_some o ≡ true
      → is_some (lookup rs' m) ≡ true
  is_some-kept none rs' m h e = cc
  is_some-kept (some a) rs' m h e = rw (h a refl) refl

  restore_entries-IsRestored :
      (d : State) (es : List ManifestEntry) (r : Registry) (restored : List Text)
      → All (λ (e : ManifestEntry). trim_space e.name ≡ e.name) es
      → IsRestored r.recs es (restore_entries store d es r restored).0.recs
  unfolding restore_entries
  restore_entries-IsRestored d [] r restored trimmed = record {
    kept = λ m a h. h;
    present = tt;
    distinct = λ h. h;
  }
  restore_entries-IsRestored d (e ∷ es) r restored (now, trimmed) =
      let lower = to_lower e.name in
      let named = record r { builtin_names = add_name lower r.builtin_names } in
      let new = seeded store d e in
      elim (Bool-cases (safe_range_name e.name)) [
        | inr bad ↦
            let rest = restore_entries-IsRestored d es r restored trimmed in
            rw bad (record {
              kept = rest.kept;
              present = (λ safe. cc, rest.present);
              distinct = rest.distinct;
            })
        | inl safe ↦ elim (Option-cases (index_of r.recs e.name)) [
          | inr (i, h) ↦
              let rest = restore_entries-IsRestored d es named restored trimmed in
              let (old, at_i, _) =
                index_from_found r.recs (trim_space e.name) i (unfold index_of in h) in
              let old_there : lookup r.recs e.name ≡ some old =
                rw now at (lookup_found r.recs e.name i h ∙ at_i) in
              rw (safe, h)
                (record {
                  kept = rest.kept;
                  present = (λ _. rw (rest.kept e.name old old_there) refl, rest.present);
                  distinct = rest.distinct;
                })
          | inl h ↦
              let rest =
                restore_entries-IsRestored d es (record named { recs = r.recs ++ new ∷ [] })
                  (add_name lower restored) trimmed in
              let h' : index_from r.recs (trim_space e.name) ≡ none = unfold index_of in h in
              let free : index_from r.recs e.name ≡ none = rw now at h' in
              rw (safe, h)
                (record {
                  kept = λ m a there. rest.kept m a (lookup-append_some r.recs m new a there);
                  present = (
                    λ _. rw (rest.kept e.name new (lookup-append r.recs e.name new free refl)) refl,
                    rest.present,
                  );
                  distinct =
                      λ before. rest.distinct (Distinct-append r.recs e.name new free refl before);
                })
        ]
      ]

  hidden-restore_entries :
      (d : State) (es : List ManifestEntry) (r : Registry) (restored : List Text)
      → (restore_entries store d es r restored).0.hidden ≡ r.hidden
  unfolding restore_entries
  hidden-restore_entries d [] r restored = refl
  hidden-restore_entries d (e ∷ es) r restored =
      let lower = to_lower e.name in
      let named = record r { builtin_names = add_name lower r.builtin_names } in
      ground (
        arith,
        hidden-restore_entries d es r restored,
        hidden-restore_entries d es named restored,
        hidden-restore_entries d es (record named { recs = r.recs ++ seeded store d e ∷ [] })
            (add_name lower restored),
      )

  is_empty_nil : (l : List Text) → is_empty l ≡ true → l ≡ []
  is_empty_nil [] h = refl
  is_empty_nil (x ∷ l) h = cc

  -- RestoreBuiltins, when it succeeds and the manifest's names carry no white space at their ends: every target that
  -- was there is found as it was, every entry of the manifest with a safe name is found, distinct names stay
  -- distinct, and no built-in is hidden any more.
  pub restore_builtins-IsRestored :
      (m : Manifest) (r : Registry) (d : State) (restored : List Text)
      → All (λ (e : ManifestEntry). trim_space e.name ≡ e.name) (entries m)
      → (restore_builtins store m r d).result ≡ ok restored
      → let r' = (restore_builtins store m r d).registry in
        IsRestored r.recs (entries m) r'.recs × (r'.hidden ≡ [])
  unfolding restore_builtins
  restore_builtins-IsRestored m r d restored trimmed h = elim (Bool-cases (is_empty r.hidden)) [
    | inl none_hidden ↦ rw none_hidden (
      restore_entries-IsRestored d (entries m) r [] trimmed,
      hidden-restore_entries d (entries m) r [] ∙ is_empty_nil r.hidden none_hidden,
    )
    | inr some_hidden ↦
        let shown = record r { hidden = [] } in
        let saved = save_hidden_locked store shown d in
        elim (Bool-cases saved.1) [
          | inl done ↦
              rw (some_hidden, done)
                (
                  restore_entries-IsRestored saved.0 (entries m) shown r.hidden trimmed,
                  hidden-restore_entries saved.0 (entries m) shown r.hidden,
                )
          | inr failed ↦ cc (rw (some_hidden, failed) at h)
        ]
  ]
