-- ===== src/Xray/Embedded/Atomic.antt =====
-- What an extraction leaves behind, whatever fails.
use rain_scanner.Base.{
  ◌≡◌, ◌≢◌, refl, ◌∙◌, subst, true, List, [], ◌∷◌, Option, none, some, Text, text_eq_iff,
  text_eq_refl, take, leb, is_empty, length, ok, err, ◌==◌, arith, inl, inr, Bool-cases,
  Option-cases, ==_iff, All,
}
use rain_scanner.Xray.Embedded.{
  Stream, not_opened, broken, complete, ZipEntry, ExtractError, System, Files, lookup, without,
  remove, is_binary, first_binary, target, copied, written_from, is_reused, temporary, extracted,
  extract_embedded,
}

lookup-without :
    (path other : Text) (files : List (Text × Text))
    → path ≢ other
    → lookup path (without other files) ≡ lookup path files
unfolding lookup without
lookup-without path other [] h = refl
lookup-without path other ((p, t) ∷ files) h =
    ground (arith, text_eq_iff p path, text_eq_iff p other, lookup-without path other files h)

lookup-put :
    (path : Text) (t : Text) (files : List (Text × Text)) → lookup path ((path, t) ∷ files) ≡ some t
unfolding lookup
lookup-put path t files = ground (arith, text_eq_refl path)

lookup-other :
    (path other t : Text) (files : List (Text × Text))
    → path ≢ other
    → lookup path ((other, t) ∷ files) ≡ lookup path files
unfolding lookup
lookup-other path other t files h = ground (arith, text_eq_iff other path)

lookup-removed :
    (path : Text) (files : List (Text × Text)) → lookup path (without path files) ≡ none
unfolding lookup without
lookup-removed path [] = refl
lookup-removed path ((p, t) ∷ files) = ground (arith, lookup-removed path files)

-- What a failure leaves: every file but the temporary one is as it was, and nothing is left of that one.
abbrev pub IsUndone : Text → Files → Files → Type 0
IsUndone tmp files files' =
    ((path : Text) → path ≢ tmp → lookup path files' ≡ lookup path files)
    × (lookup tmp files' ≡ none)

-- The file is there, with the size of the archive's binary, and no other file but the temporary one has changed.
abbrev pub IsExtracted : Text → ZipEntry → Files → Files → Type 0
IsExtracted dst f files files' =
    ((t : Text) × (lookup dst files' ≡ some t) × (length t ≡ f.size))
    × ((path : Text) → path ≢ dst → path ≢ temporary dst → lookup path files' ≡ lookup path files)

-- reading a member to its end gives as many bytes as the archive states
abbrev pub IsZipEntry : ZipEntry → Type 0
IsZipEntry f = (t : Text) → f.stream ≡ complete t → length t ≡ f.size

module _ (sys : System) (removes : sys.removes ≡ true) where
  removed : (tmp t : Text) (files : Files) → IsUndone tmp files (remove sys tmp ((tmp, t) ∷ files))
  removed tmp t files = rw removes (
    (λ path other.
        lookup-without path tmp ((tmp, t) ∷ files) other ∙ lookup-other path tmp t files other),
    lookup-removed tmp ((tmp, t) ∷ files),
  )

  module _ (dst : Text) (files : Files) (absent : lookup (temporary dst) files ≡ none) where
    copied-IsUndone :
        (t : Text) (x : ExtractError)
        → (copied sys (temporary dst) dst t files).0 ≡ err x
        → IsUndone (temporary dst) files (copied sys (temporary dst) dst t files).1
    copied-IsUndone t x h = elim (Bool-cases sys.closes) [
      | inr e ↦ rw e (removed (temporary dst) t files)
      | inl e ↦ elim (Bool-cases sys.renames) [
        | inr e' ↦ rw (e, e') (removed (temporary dst) t files)
        | inl e' ↦ cc (rw (e, e') at h)
      ]
    ]

    not_written : IsUndone (temporary dst) files files
    not_written = ((λ path other. refl), absent)

    written-IsUndone :
        (s : Stream) (x : ExtractError)
        → (written_from sys (temporary dst) dst files s).0 ≡ err x
        → IsUndone (temporary dst) files (written_from sys (temporary dst) dst files s).1
    written-IsUndone not_opened x h = not_written
    written-IsUndone (broken t) x h = elim (Bool-cases sys.creates) [
      | inl e ↦ rw e (removed (temporary dst) (take sys.room t) files)
      | inr e ↦ rw e not_written
    ]
    written-IsUndone (complete t) x h = elim (Bool-cases sys.creates) [
      | inr e ↦ rw e not_written
      | inl e ↦ elim (Bool-cases (leb (length t) sys.room)) [
        | inr e' ↦ rw (e, e') (removed (temporary dst) (take sys.room t) files)
        | inl e' ↦ rw (e, e') (copied-IsUndone t x (rw (e, e') at h))
      ]
    ]

    extracted-IsUndone :
        (f : ZipEntry) (x : ExtractError)
        → (extracted sys dst files f).0 ≡ err x
        → IsUndone (temporary dst) files (extracted sys dst files f).1
    unfolding extracted
    extracted-IsUndone f x h = elim (Bool-cases (is_reused (lookup dst files) f.size)) [
      | inl e ↦ cc (rw e at h)
      | inr e ↦ rw e (written-IsUndone f.stream x (rw e at h))
    ]

module _ (sys : System) (dst : Text) (files : Files) where
  written_whole :
      (t : Text) (p : Text)
      → (written_from sys (temporary dst) dst files (complete t)).0 ≡ ok p
      → (written_from sys (temporary dst) dst files (complete t)).1
        ≡ (dst, t) ∷ without dst (without (temporary dst) ((temporary dst, t) ∷ files))
  written_whole t p h = ground arith

  written-IsExtracted :
      (f : ZipEntry) (s : Stream) (p : Text)
      → IsZipEntry f
      → f.stream ≡ s
      → (written_from sys (temporary dst) dst files s).0 ≡ ok p
      → IsExtracted dst f files (written_from sys (temporary dst) dst files s).1
  written-IsExtracted f not_opened p size e h = cc
  written-IsExtracted f (broken t) p size e h = ground arith
  written-IsExtracted f (complete t) p size e h =
      let tmp : Text = temporary dst in
      let whole : Files = (tmp, t) ∷ files in
      rw (written_whole t p h) (
        (t, lookup-put dst t _, size t e),
        (λ path other apart.
            lookup-other path dst t _ other
            ∙ lookup-without path dst (without tmp whole) other
            ∙ lookup-without path tmp whole apart
            ∙ lookup-other path tmp t files apart),
      )

  extracted-IsExtracted :
      (f : ZipEntry) (p : Text)
      → IsZipEntry f
      → (extracted sys dst files f).0 ≡ ok p
      → IsExtracted dst f files (extracted sys dst files f).1
  unfolding extracted
  extracted-IsExtracted f p size h = elim (Option-cases (lookup dst files)) [
    | inl e ↦ rw e (written-IsExtracted f f.stream p size refl (rw e at h))
    | inr (t, e) ↦ elim (Bool-cases (length t == f.size)) [
      | inl e' ↦ rw (e, e') ((t, e, ground (arith, ==_iff (length t) f.size)), λ path a b. refl)
      | inr e' ↦ rw (e, e') (written-IsExtracted f f.stream p size refl (rw (e, e') at h))
    ]
  ]

  written_path :
      (s : Stream) (p : Text) → (written_from sys (temporary dst) dst files s).0 ≡ ok p → p ≡ dst
  written_path not_opened p h = cc
  written_path (broken t) p h = ground arith
  written_path (complete t) p h = ground arith

  -- The path that is given is the one that is asked for.
  extracted_path : (f : ZipEntry) (p : Text) → (extracted sys dst files f).0 ≡ ok p → p ≡ dst
  unfolding extracted
  extracted_path f p h = ground (arith, written_path f.stream p)

module _ (base : Text → Text) (zip : Text) (entries_of : Text → Option (List ZipEntry))
    (join : Text → Text → Text) (sum ext : Text) where
  first_binary-All :
      (P : ZipEntry → Type 0) (fs : List ZipEntry) (f : ZipEntry)
      → All P fs
      → first_binary base zip entries_of fs ≡ some f
      → P f
  unfolding first_binary
  first_binary-All P [] f all h = cc
  first_binary-All P (x ∷ fs) f all h = elim (Bool-cases (is_binary base zip entries_of x)) [
    | inl e ↦ let h' = rw e at h in let same : x ≡ f = cc in subst P same all.0
    | inr e ↦ first_binary-All P fs f all.1 (rw e at h)
  ]

  -- An extraction that succeeds, by reusing a file or by writing one, gives the path in the cache directory, where a file
  -- with the size of the archive's binary is; it is the binary that HasEmbedded found, and no other file but the
  -- temporary one has changed.
  pub extract_embedded-IsExtracted :
      (sys : System) (dir : Text) (files : Files) (fs : List ZipEntry) (p : Text)
      → entries_of zip ≡ some fs
      → All IsZipEntry fs
      → (extract_embedded base zip entries_of join sum ext sys (some dir) files).0 ≡ ok p
      → (f : ZipEntry) × (first_binary base zip entries_of fs ≡ some f)
        × (p ≡ target base zip entries_of join sum ext dir)
        × IsExtracted p f files
            (extract_embedded base zip entries_of join sum ext sys (some dir) files).1
  unfolding extract_embedded
  extract_embedded-IsExtracted sys dir files fs p read size h = elim (Bool-cases (is_empty zip)) [
    | inl e ↦ cc (rw e at h)
    | inr e ↦ elim (Option-cases (first_binary base zip entries_of fs)) [
      | inl e2 ↦ cc (rw (e, read, e2) at h)
      | inr (f, e2) ↦
          let dst : Text = target base zip entries_of join sum ext dir in
          let h' : (extracted sys dst files f).0 ≡ ok p = rw (e, read, e2) at h in
          let same : p ≡ dst = extracted_path sys dst files f p h' in
          (
            f,
            e2,
            same,
            rw (e, read, e2, same)
                (extracted-IsExtracted sys dst files f p (first_binary-All IsZipEntry fs f size e2)
                  h'),
          )
    ]
  ]

  -- An extraction into a cache directory that fails, wherever it does, leaves every file as it was and nothing of its
  -- own, when nothing of an earlier one was there and files can be removed.
  pub extract_embedded-IsUndone :
      (sys : System) (dir : Text) (files : Files) (x : ExtractError)
      → sys.removes ≡ true
      → lookup (temporary (target base zip entries_of join sum ext dir)) files ≡ none
      → (extract_embedded base zip entries_of join sum ext sys (some dir) files).0 ≡ err x
      → IsUndone
          (temporary (target base zip entries_of join sum ext dir))
          files
          (extract_embedded base zip entries_of join sum ext sys (some dir) files).1
  unfolding extract_embedded
  extract_embedded-IsUndone sys dir files x removes absent h = elim (Bool-cases (is_empty zip)) [
    | inl e ↦ rw e ((λ path other. refl), absent)
    | inr e ↦ elim (Option-cases (entries_of zip)) [
      | inl e1 ↦ rw (e, e1) ((λ path other. refl), absent)
      | inr (fs, e1) ↦ elim (Option-cases (first_binary base zip entries_of fs)) [
        | inl e2 ↦ rw (e, e1, e2) ((λ path other. refl), absent)
        | inr (f, e2) ↦
            rw (e, e1, e2)
              (extracted-IsUndone sys removes (target base zip entries_of join sum ext dir) files
                absent f x (rw (e, e1, e2) at h))
      ]
    ]
  ]
