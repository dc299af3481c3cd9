-- ===== src/Xray/Embedded/Tests.antt =====
-- An archive of two entries on a system that lets everything happen, and on one whose disk is full.
use rain_scanner.Base.{
  ℕ, ◌≡◌, ◌≢◌, refl, ap, sym, true, false, List, [], ◌∷◌, ◌++◌, Option, none, some, Text, codes,
  Result, ok, err, arith, All, length,
}
use rain_scanner.Xray.Embedded.{
  Stream, not_opened, broken, complete, ZipEntry, System, Files, not_copied, temporary,
  first_binary, target, lookup, extract_embedded,
}
use rain_scanner.Xray.Embedded.Atomic.{IsZipEntry, IsUndone, extract_embedded-IsUndone}

abbrev readme : ZipEntry
readme = record { name = codes "README.md"; size = 2; stream = complete (codes "hi") }

abbrev binary : ZipEntry
binary = record { name = codes "xray"; size = 3; stream = complete (codes "ELF") }

abbrev archive : Text
archive = codes "PK"

abbrev members : Text → Option (List ZipEntry)
members t = some (readme ∷ binary ∷ [])

abbrev with_slash : Text → Text → Text
with_slash dir name = dir ++ codes "/" ++ name

abbrev healthy : System
healthy = record { creates = true; room = 1000; closes = true; renames = true; removes = true }

abbrev full : System
full = record { creates = true; room = 1; closes = true; renames = true; removes = true }

abbrev path : Text
path = codes "/c/xray-01234567"

abbrev length_of : Stream → ℕ
length_of not_opened = 0
length_of (broken t) = 0
length_of (complete t) = length t

sizes : All IsZipEntry (readme ∷ binary ∷ [])
sizes = ((λ t e. ap length_of (sym e)), ((λ t e. ap length_of (sym e)), tt))

extract_embedded-IsUndone_example :
    IsUndone
      (temporary path)
      []
      (extract_embedded
        (λ t. t)
        archive
        members
        with_slash
        (codes "0123456789")
        []
        full
        (some (codes "/c"))
        []).1
unfolding lookup extract_embedded first_binary rain_scanner.Base.text_eq
    rain_scanner.Xray.Embedded.extracted
extract_embedded-IsUndone_example =
    extract_embedded-IsUndone (λ t. t) archive members with_slash (codes "0123456789") [] full
      (codes "/c") [] not_copied refl refl refl
