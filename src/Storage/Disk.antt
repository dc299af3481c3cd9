-- ===== src/Storage/Disk.antt =====
-- The files under ips/ as internal/storage/storage.go and internal/providers/providers.go use them: os.ReadFile and os.WriteFile.
use rain_scanner.Base.{
  ◌≡◌, ◌≢◌, refl, Bool, true, false, List, [], ◌∷◌, Option, none, some, if◌then◌else◌, Text,
  text_eq, text_eq_iff, text_eq_refl, arith,
}

-- What the system makes of one write: all of it, nothing because the file is not opened, or, after the file was emptied,
-- some other content, as a part of the text.
pub data Outcome : Type 0 where
  whole refused : Outcome
  broken : Text → Outcome

-- The files of the ips/ directory by their names without ".json", with `none` for one that may not be read; the outcomes of
-- the writes to come, which succeed after the last; and the time. A file that is written can be read. Names that differ
-- in the case of a letter are two files.
pub record Disk : Type 0 where
  pub files : List (Text × Option Text)
  pub outcomes : List Outcome
  pub now : Text

-- os.ReadFile, with `none` for a file that is not there
unfoldable pub read_file : Text → List (Text × Option Text) → Option (Option Text)
read_file name [] = none
read_file name ((k, t) ∷ files) =
    let rest = read_file name files in if text_eq k name then some t else rest

abbrev put : Text → Text → Disk → Disk
put name t d = record d { files = (name, some t) ∷ d.files }

abbrev attempt : Text → Text → Disk → Outcome → Disk × Bool
attempt name t d whole = (put name t d, true)
attempt name t d refused = (d, false)
attempt name t d (broken left) = (put name left d, false)

abbrev write_next : Text → Text → Disk → List Outcome → Disk × Bool
write_next name t d [] = attempt name t d whole
write_next name t d (o ∷ rest) = attempt name t (record d { outcomes = rest }) o

-- os.WriteFile
unfoldable pub write_file : Text → Text → Disk → Disk × Bool
write_file name t d = write_next name t d d.outcomes

read_file-attempt :
    (name t : Text) (d : Disk) (o : Outcome)
    → (attempt name t d o).1 ≡ true
    → read_file name (attempt name t d o).0.files ≡ some (some t)
unfolding read_file
read_file-attempt name t d whole h = rw (text_eq_refl name) refl
read_file-attempt name t d refused h = cc
read_file-attempt name t d (broken left) h = cc

pub read_file-write_file :
    (name t : Text) (d : Disk)
    → (write_file name t d).1 ≡ true
    → read_file name (write_file name t d).0.files ≡ some (some t)
unfolding write_file
read_file-write_file name t d = go d.outcomes
  where
    go :
        (os : List Outcome)
        → (write_next name t d os).1 ≡ true
        → read_file name (write_next name t d os).0.files ≡ some (some t)
    go [] h = read_file-attempt name t d whole h
    go (o ∷ rest) h = read_file-attempt name t (record d { outcomes = rest }) o h

-- A write, whatever its outcome, leaves every other file as it was.
pub read_file-other :
    (name other t : Text) (d : Disk)
    → name ≢ other
    → read_file other (write_file name t d).0.files ≡ read_file other d.files
unfolding write_file read_file
read_file-other name other t d apart = ground (arith, text_eq_iff name other)
