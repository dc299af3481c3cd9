-- ===== src/Storage/Files.antt =====
-- FileStore of internal/storage/storage.go, and Load and Save of internal/providers/providers.go for the range
-- files.
use rain_scanner.Base.{
  ◌≡◌, refl, ap, sym, ◌∙◌, Bool, true, false, List, [], Option, none, some, if◌then◌else◌, Text,
  codes, Result, ok, err, Bool-cases, inl, inr, ◌≢◌, Option-cases,
}
use rain_scanner.Storage.Disk.{Disk, read_file, write_file, read_file-write_file, read_file-other}
use rain_scanner.Storage.{
  CustomTarget, RangeFile, StoreError, unreadable, unparsable, Store, IsStore,
}
use rain_scanner.Providers.Names.{safe_range_name}

-- customFile
pub record Envelope : Type 0 where
  pub updated_at : Text
  pub targets : List CustomTarget
  pub hidden : List Text

abbrev pub zero_envelope : Envelope
zero_envelope = record { updated_at = []; targets = []; hidden = [] }

module _ (print : Envelope → Option Text) (read : Text → Option Envelope)
    (print_range : RangeFile → Option Text) (read_range : Text → Option RangeFile) where
  abbrev of_read : Option Envelope → Result StoreError Envelope
  of_read none = err unparsable
  of_read (some e) = ok e

  abbrev of_file : Option (Option Text) → Result StoreError Envelope
  of_file none = ok zero_envelope
  of_file (some none) = err unreadable
  of_file (some (some t)) = of_read (read t)

  unfoldable pub load_envelope : Disk → Result StoreError Envelope
  load_envelope d = of_file (read_file (codes "custom") d.files)

  -- An Option and not a text: json.MarshalIndent may fail.
  abbrev written : Disk → Option Text → Disk × Bool
  written d none = (d, false)
  written d (some t) = write_file (codes "custom") t d

  unfoldable pub save_envelope : Envelope → Disk → Disk × Bool
  save_envelope e d = written d (print (record e { updated_at = d.now }))

  abbrev targets_of : Result StoreError Envelope → Result StoreError (List CustomTarget)
  targets_of (err x) = err x
  targets_of (ok e) = ok e.targets

  abbrev hidden_of : Result StoreError Envelope → Result StoreError (List Text)
  hidden_of (err x) = err x
  hidden_of (ok e) = ok e.hidden

  unfoldable pub load_customs : Disk → Result StoreError (List CustomTarget)
  load_customs d = targets_of (load_envelope d)

  unfoldable pub load_hidden : Disk → Result StoreError (List Text)
  load_hidden d = hidden_of (load_envelope d)

  abbrev with_envelope : (Envelope → Envelope) → Disk → Result StoreError Envelope → Disk × Bool
  with_envelope f d (err x) = (d, false)
  with_envelope f d (ok e) = save_envelope (f e) d

  unfoldable pub save_customs : List CustomTarget → Disk → Disk × Bool
  save_customs cs d =
      with_envelope (λ (e : Envelope). record e { targets = cs }) d (load_envelope d)

  unfoldable pub save_hidden : List Text → Disk → Disk × Bool
  save_hidden hs d = with_envelope (λ (e : Envelope). record e { hidden = hs }) d (load_envelope d)

  abbrev range_of : Option (Option Text) → Option RangeFile
  range_of none = none
  range_of (some none) = none
  range_of (some (some t)) = read_range t

  -- providers.Load
  unfoldable pub ranges : Text → Disk → Option RangeFile
  ranges cdn d = range_of (read_file cdn d.files)

  abbrev range_written : RangeFile → Disk → Option Text → Disk × Bool
  range_written rf d none = (d, false)
  range_written rf d (some t) = write_file rf.cdn t d

  -- providers.Save
  unfoldable pub save_ranges : RangeFile → Disk → Disk × Bool
  save_ranges rf d =
      if safe_range_name rf.cdn then range_written rf d (print_range rf) else (d, false)

  abbrev pub file_store : Store
  file_store = record {
    State = Disk;
    ranges = ranges;
    save_ranges = save_ranges;
    load_customs = load_customs;
    save_customs = save_customs;
    load_hidden = load_hidden;
    save_hidden = save_hidden;
  }

  module _ (reads : (e : Envelope) (t : Text) → print e ≡ some t → read t ≡ some e)
      (reads_range : (rf : RangeFile) (t : Text)
        → print_range rf ≡ some t
        → read_range t ≡ some rf) where
    stored :
        (e : Envelope) (d : Disk)
        → (save_envelope e d).1 ≡ true
        → load_envelope (save_envelope e d).0 ≡ ok (record e { updated_at = d.now })
    unfolding save_envelope load_envelope
    stored e d h = elim (Option-cases (print (record e { updated_at = d.now }))) [
      | inl none_of ↦ cc (rw none_of at h)
      | inr (t, printed) ↦
          rw
            (
              printed,
              read_file-write_file (codes "custom") t d (rw printed at h),
              reads _ t printed,
            )
            refl
    ]

    -- A rewrite that succeeds read an envelope, and what is read next is that envelope, edited.
    rewritten :
        (f : Envelope → Envelope) (d : Disk) (r : Result StoreError Envelope)
        → (with_envelope f d r).1 ≡ true
        → (e : Envelope) × (r ≡ ok e)
          × (load_envelope (with_envelope f d r).0 ≡ ok (record (f e) { updated_at = d.now }))
    rewritten f d (err x) h = cc
    rewritten f d (ok e) h = (e, refl, stored (f e) d h)

    ranges_keep :
        (rf : RangeFile) (name : Text) (d : Disk)
        → rf.cdn ≢ name
        → read_file name (save_ranges rf d).0.files ≡ read_file name d.files
    unfolding save_ranges
    ranges_keep rf name d apart = elim (Bool-cases (safe_range_name rf.cdn)) [
      | inr unsafe ↦ rw unsafe refl
      | inl safe ↦ elim (Option-cases (print_range rf)) [
        | inl none_of ↦ rw (safe, none_of) refl
        | inr (t, printed) ↦ rw (safe, printed) (read_file-other rf.cdn name t d apart)
      ]
    ]

    range_stored :
        (rf : RangeFile) (d : Disk)
        → (save_ranges rf d).1 ≡ true
        → ranges rf.cdn (save_ranges rf d).0 ≡ some rf
    unfolding save_ranges ranges
    range_stored rf d h = elim (Bool-cases (safe_range_name rf.cdn)) [
      | inr unsafe ↦ cc (rw unsafe at h)
      | inl safe ↦ elim (Option-cases (print_range rf)) [
        | inl none_of ↦ cc (rw (safe, none_of) at h)
        | inr (t, printed) ↦
            rw
              (
                safe,
                printed,
                read_file-write_file rf.cdn t d (rw (safe, printed) at h),
                reads_range rf t printed,
              )
              refl
      ]
    ]

    -- FileStore keeps what storage.Store promises, if JSON text is read back as what it was printed from: a list that is
    -- saved with success is the list that is loaded next, and the other of the two lists that share a file stays as it
    -- was; the ranges of a CDN that are saved with success are the ranges that are loaded next; and, even if the write of
    -- them fails or leaves a part of the file, those of every other CDN stay, and both lists stay unless the CDN is
    -- called "custom".
    pub file_store-IsStore : IsStore file_store
    unfolding load_customs load_hidden save_customs save_hidden load_envelope ranges
    file_store-IsStore = record {
      customs_saved = λ cs d h.
          let (e, _, loaded) = rewritten (λ (e : Envelope). record e { targets = cs }) d _ h in
          ap targets_of loaded;
      hidden_saved = λ hs d h.
          let (e, _, loaded) = rewritten (λ (e : Envelope). record e { hidden = hs }) d _ h in
          ap hidden_of loaded;
      customs_kept = λ hs d h.
          let (e, before, after) = rewritten (λ (e : Envelope). record e { hidden = hs }) d _ h in
          ap targets_of after ∙ sym (ap targets_of before);
      hidden_kept = λ cs d h.
          let (e, before, after) = rewritten (λ (e : Envelope). record e { targets = cs }) d _ h in
          ap hidden_of after ∙ sym (ap hidden_of before);
      ranges_keep_customs =
          λ rf d apart. ap (λ f. targets_of (of_file f)) (ranges_keep rf (codes "custom") d apart);
      ranges_keep_hidden =
          λ rf d apart. ap (λ f. hidden_of (of_file f)) (ranges_keep rf (codes "custom") d apart);
      ranges_saved = λ rf d h. range_stored rf d h;
      ranges_other = λ rf cdn d apart. ap (λ f. range_of f) (ranges_keep rf cdn d apart);
    }
