-- ===== src/Xray/Resolve.antt =====
-- FindBinary of internal/xray/binary.go and Resolve of internal/xray/embedded.go. exec.LookPath is the parameter
-- `look_path`, ExtractEmbedded the parameter `embedded`, and `windows` tells the operating system.
use rain_scanner.Base.{
  ◌≡◌, Bool, false, not, List, [], ◌∷◌, ◌++◌, Option, none, some, if◌then◌else◌, Text, codes,
  is_empty, arith,
}

abbrev pub candidates : Bool → Text → List Text
candidates windows explicit =
    (if is_empty explicit then [] else explicit ∷ [])
    ++ codes "xray"
      ∷ (if windows then codes "xray.exe" ∷ codes "./xray.exe" ∷ [] else codes "./xray" ∷ [])

module _ (look_path : Text → Option Text) where
  unfoldable pub find_first : List Text → Option Text
  find_first [] = none
  find_first (c ∷ cs) =
      let rest = find_first cs in elim (look_path c) [ some p ↦ some p | none ↦ rest ]

  unfoldable pub find_binary : Bool → Text → Option Text
  find_binary windows explicit = find_first (candidates windows explicit)

  unfoldable pub resolve : Bool → Option Text → Text → Option Text
  resolve windows embedded explicit =
      if not (is_empty explicit)
      then find_binary windows explicit
      else elim embedded [ some p ↦ some p | none ↦ find_binary windows [] ]

  -- An explicit path that resolves wins over the embedded copy and over PATH; with no explicit path the embedded copy
  -- wins over PATH.
  pub resolve_priority :
      (windows : Bool) (embedded : Option Text) (explicit : Text)
      → ((p : Text)
          → is_empty explicit ≡ false
          → look_path explicit ≡ some p
          → resolve windows embedded explicit ≡ some p)
        × ((p : Text) → embedded ≡ some p → resolve windows embedded [] ≡ some p)
  unfolding resolve find_binary find_first
  resolve_priority windows embedded explicit = ground arith
