-- ===== src/Providers/Names.antt =====
-- SafeRangeName of internal/providers/providers.go, its regular expression written out as a function.
use rain_scanner.Base.{
  ℕ, ◌≤◌, ◌≡◌, ◌≢◌, Bool, true, false, ◌&&◌, ◌||◌, [], ◌∷◌, leb, ◌==◌, Text, trim_space, length,
  All, arith, &&_parts,
}

-- [A-Za-z0-9]
abbrev pub is_alphanumeric : ℕ → Bool
is_alphanumeric c = (leb 65 c && leb c 90) || ((leb 97 c && leb c 122) || (leb 48 c && leb c 57))

-- [A-Za-z0-9_.-]
abbrev pub is_name_code : ℕ → Bool
is_name_code c = is_alphanumeric c || ((c == 95) || ((c == 46) || (c == 45)))

unfoldable pub name_codes : Text → Bool
name_codes [] = true
name_codes (c ∷ t) = is_name_code c && name_codes t

-- ^[A-Za-z0-9][A-Za-z0-9_.-]{0,63}$
unfoldable pub matches_name : Text → Bool
matches_name [] = false
matches_name (c ∷ t) = is_alphanumeric c && (name_codes t && leb (length t) 63)

unfoldable pub safe_range_name : Text → Bool
safe_range_name name = matches_name (trim_space name)

-- A code that cannot leave a directory, name a stream or end a text: no separator, no colon, no control code.
abbrev pub IsHarmless : ℕ → Type 0
IsHarmless c = (c ≢ b'/') × (c ≢ b'\\') × (c ≢ b':') × (32 ≤ c)

name_codes-IsHarmless : (t : Text) → name_codes t ≡ true → All IsHarmless t
unfolding name_codes
name_codes-IsHarmless [] h = tt
name_codes-IsHarmless (c ∷ t) h =
    let (now, rest) = &&_parts (is_name_code c) (name_codes t) h in
    (ground arith, name_codes-IsHarmless t rest)

matches_name_lem :
    (t : Text) → matches_name t ≡ true → (length t ≤ 64) × All IsHarmless t × (t ≢ [])
unfolding matches_name
matches_name_lem [] h = cc
matches_name_lem (c ∷ t) h = ground (arith, name_codes-IsHarmless t)

-- A name that SafeRangeName accepts has from 1 to 64 codes after trimming, and none of them is a path separator, a
-- colon or a control code, so that the file name made of it stays in its directory.
pub safe_range_name_lem :
    (name : Text)
    → safe_range_name name ≡ true
    → (length (trim_space name) ≤ 64) × All IsHarmless (trim_space name) × (trim_space name ≢ [])
unfolding safe_range_name
safe_range_name_lem name h = matches_name_lem (trim_space name) h
