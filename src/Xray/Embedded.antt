-- ===== src/Xray/Embedded.antt =====
-- internal/xray/embedded.go: HasEmbedded, embeddedEntryName, ExtractEmbedded and cacheDir. archive/zip, filepath.Base and
-- filepath.Join, and the name that the hash of the archive gives are parameters; what the file system does is a state.
pub mod Atomic
pub mod Tests
use rain_scanner.Base.{
  ℕ, ◌+◌, ◌≡◌, refl, Bool, true, false, ◌||◌, ◌&&◌, List, [], ◌∷◌, ◌++◌, Option, none, some,
  if◌then◌else◌, Text, codes, text_eq, is_empty, length, Result, ok, err, is_ok, ◌==◌, leb, take,
  arith,
}

-- What reading an entry to its end gives.
pub data Stream : Type 0 where
  not_opened : Stream
  broken : Text → Stream
  complete : Text → Stream

pub record ZipEntry : Type 0 where
  pub name : Text
  -- UncompressedSize64
  pub size : ℕ
  pub stream : Stream

pub data ExtractError : Type 0 where
  no_archive bad_archive no_binary no_dir not_readable not_created not_copied not_closed
        not_renamed :
      ExtractError

-- Which calls on a file succeed, and how many bytes a file may have.
pub record System : Type 0 where
  pub creates : Bool
  pub room : ℕ
  pub closes : Bool
  pub renames : Bool
  pub removes : Bool

-- The files by their paths.
abbrev pub Files : Type 0
Files = List (Text × Text)

unfoldable pub lookup : Text → Files → Option Text
lookup path [] = none
lookup path ((p, t) ∷ files) =
    let rest = lookup path files in if text_eq p path then some t else rest

unfoldable pub without : Text → Files → Files
without path [] = []
without path ((p, t) ∷ files) =
    let rest = without path files in if text_eq p path then rest else (p, t) ∷ rest

abbrev pub Extracted : Type 0
Extracted = Result ExtractError Text × Files

-- What ExtractEmbedded writes: to `dst` with ".new", and from there to `dst`.
module _ (sys : System) where
  -- os.Remove of the temporary file
  abbrev pub remove : Text → Files → Files
  remove tmp files = if sys.removes then without tmp files else files

  -- out.Close and os.Rename, when the temporary file has all of `t`
  abbrev pub copied : Text → Text → Text → Files → Extracted
  copied tmp dst t files =
      if sys.closes
      then (if sys.renames
          then (ok dst, (dst, t) ∷ without dst (without tmp ((tmp, t) ∷ files)))
          else (err not_renamed, remove tmp ((tmp, t) ∷ files)))
      else (err not_closed, remove tmp ((tmp, t) ∷ files))

  abbrev pub not_copied_of : Text → Text → Files → Extracted
  not_copied_of tmp t files = (err not_copied, remove tmp ((tmp, take sys.room t) ∷ files))

  abbrev pub written_from : Text → Text → Files → Stream → Extracted
  written_from tmp dst files not_opened = (err not_readable, files)
  written_from tmp dst files (broken t) =
      if sys.creates then not_copied_of tmp t files else (err not_created, files)
  written_from tmp dst files (complete t) =
      if sys.creates
      then (if leb (length t) sys.room then copied tmp dst t files else not_copied_of tmp t files)
      else (err not_created, files)

-- os.Stat, and the size of what is there
abbrev pub is_reused : Option Text → ℕ → Bool
is_reused none size = false
is_reused (some t) size = length t == size

abbrev pub temporary : Text → Text
temporary dst = dst ++ codes ".new"

unfoldable pub extracted : System → Text → Files → ZipEntry → Extracted
extracted sys dst files f =
    if is_reused (lookup dst files) f.size
    then (ok dst, files)
    else written_from sys (temporary dst) dst files f.stream

-- The embedded archive: zip.NewReader gives its entries or an error; `base` is filepath.Base.
module _ (base : Text → Text) (zip : Text) (entries_of : Text → Option (List ZipEntry)) where
  abbrev pub is_binary : ZipEntry → Bool
  is_binary f = text_eq (base f.name) (codes "xray") || text_eq (base f.name) (codes "xray.exe")

  -- The loop over the entries, in both functions.
  unfoldable pub first_binary : List ZipEntry → Option ZipEntry
  first_binary [] = none
  first_binary (f ∷ fs) = let rest = first_binary fs in if is_binary f then some f else rest

  abbrev named : Option ZipEntry → Result ExtractError Text
  named none = err no_binary
  named (some f) = ok (base f.name)

  abbrev name_in : Option (List ZipEntry) → Result ExtractError Text
  name_in none = err bad_archive
  name_in (some fs) = named (first_binary fs)

  unfoldable pub embedded_entry_name : Result ExtractError Text
  embedded_entry_name = if is_empty zip then err no_archive else name_in (entries_of zip)

  unfoldable pub has_embedded : Bool
  has_embedded = is_ok embedded_entry_name

  -- The file's path in the cache directory: `sum` is the archive's SHA-256 in hexadecimal, `ext` the extension of the
  -- name that the platform gives the binary, and `join` filepath.Join.
  module _ (join : Text → Text → Text) (sum ext : Text) where
    abbrev pub target : Text → Text
    target dir = join dir (codes "xray-" ++ take 8 sum ++ ext)

    abbrev pub of_entry : System → Option Text → Files → Option ZipEntry → Extracted
    of_entry sys dir files none = (err no_binary, files)
    of_entry sys none files (some f) = (err no_dir, files)
    of_entry sys (some dir) files (some f) = extracted sys (target dir) files f

    -- `dir` is what cacheDir gives.
    unfoldable pub extract_embedded : System → Option Text → Files → Extracted
    extract_embedded sys dir files =
        if is_empty zip then (err no_archive, files) else elim (entries_of zip) [
          | none ↦ (err bad_archive, files)
          | some fs ↦ of_entry sys dir files (first_binary fs)
        ]

-- cacheDir: os.UserCacheDir, os.TempDir, filepath.Join with "rainscan", and which directories os.MkdirAll makes.
unfoldable pub cache_dir : Option Text → Text → (Text → Text) → (Text → Bool) → Option Text
cache_dir user_cache temp_dir in_dir makes =
    let base : Text = elim user_cache [ some b ↦ b | none ↦ temp_dir ] in
    if makes (in_dir base)
    then some (in_dir base)
    else if makes (in_dir temp_dir)
    then some (in_dir temp_dir)
    else none
