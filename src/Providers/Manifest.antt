-- ===== src/Providers/Manifest.antt =====
-- The manifest of internal/providers/providers.go: its entries, the functions that look them up, and LoadManifest. The
-- package variable `active` is an argument; a nil manifest is `none`.
use rain_scanner.Base.{
  ◌≡◌, Bool, true, false, List, [], ◌∷◌, Option, none, some, if◌then◌else◌, Text, text_eq, text_ltb,
  to_lower, arith, map, text_eq_iff,
}
use rain_scanner.Base.Sorting.{sort_by}

pub record ManifestEntry : Type 0 where
  pub name : Text
  pub api_url : Text
  pub api_url_v6 : Text
  pub parser : Text

abbrev pub Manifest : Type 0
Manifest = Option (List ManifestEntry)

-- Names
unfoldable pub names : Manifest → List Text
names none = []
names (some es) = sort_by text_ltb (map (λ (e : ManifestEntry). e.name) es)

-- Entries
abbrev pub entries : Manifest → List ManifestEntry
entries none = []
entries (some es) = es

-- The loop of GetEntry, for a name in lower case.
unfoldable pub find_entry : Text → List ManifestEntry → Option ManifestEntry
find_entry lower [] = none
find_entry lower (e ∷ es) =
    let rest = find_entry lower es in if text_eq (to_lower e.name) lower then some e else rest

unfoldable pub get_entry : Manifest → Text → Option ManifestEntry
get_entry m name = find_entry (to_lower name) (entries m)

-- APIURL
unfoldable pub api_url_of : Manifest → Text → Text
api_url_of m name = elim (get_entry m name) [ none ↦ [] | some e ↦ e.api_url ]

-- What LoadManifest reads: the two remote copies, in order, and the local one.
pub record Sources : Type 0 where
  pub github_raw : Option (List ManifestEntry)
  pub jsdelivr : Option (List ManifestEntry)
  pub cached : Option (List ManifestEntry)

-- The manifest, and the copy that the local file then holds; with no source the manifest is empty.
unfoldable pub load_manifest : Sources → List ManifestEntry × Option (List ManifestEntry) × Bool
load_manifest s = elim s.github_raw [
  | some m ↦ (m, some m, true)
  | none ↦ elim s.jsdelivr [
    | some m ↦ (m, some m, true)
    | none ↦ elim s.cached [ some m ↦ (m, some m, true) | none ↦ ([], none, false) ]
  ]
]

find_entry_lem :
    (lower : Text) (es : List ManifestEntry) (e : ManifestEntry)
    → find_entry lower es ≡ some e
    → to_lower e.name ≡ lower
unfolding find_entry
find_entry_lem lower [] e h = cc
find_entry_lem lower (x ∷ es) e h =
    ground (arith, text_eq_iff (to_lower x.name) lower, find_entry_lem lower es e)

-- The entry that GetEntry finds has the name that was asked for, letter case aside.
pub get_entry_lem :
    (m : Manifest) (name : Text) (e : ManifestEntry)
    → get_entry m name ≡ some e
    → to_lower e.name ≡ to_lower name
unfolding get_entry
get_entry_lem m name e h = find_entry_lem (to_lower name) (entries m) e h
