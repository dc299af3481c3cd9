-- ===== src/Cli/Bar.antt =====
-- renderBar and the percentage of statusBar.progress, of cmd/cdnscan/main.go. The width of a bar and the counts are
-- small enough for Go's int.
use rain_scanner.Base.{
  ℕ, zero, suc, ◌+◌, ◌*◌, ◌/◌, ◌-◌, ◌≡◌, ◌≤◌, refl, ap, Bool-cases, inl, inr, [], ◌∷◌, ◌++◌,
  if◌then◌else◌, ltb, ◌==◌, Text, length, length-append, ℤ, pos, pos_part, arith, ltb_ℤ,
}
use native.Mathlib.Nat.{div-le_of_le-mul}

-- strings.Repeat of one byte
unfoldable pub repeat : ℕ → ℕ → Text
repeat c zero = []
repeat c (suc n) = c ∷ repeat c n

-- The percentage that is drawn.
abbrev pub clamped : ℤ → ℕ
clamped pct = if ltb_ℤ (pos 100) pct then 100 else pos_part pct

abbrev pub filled : ℤ → ℕ → ℕ
filled pct width = clamped pct * width / 100

-- Between the brackets: strings.Repeat("=", filled), and where a cell is left, the head and the spaces.
unfoldable pub cells : ℕ → ℕ → Text
cells n width =
    let bar = repeat b'=' n in
    if ltb n width then bar ++ b'>' ∷ repeat b' ' (width - n - 1) else bar

unfoldable pub render_bar : ℤ → ℕ → Text
render_bar pct width = b'[' ∷ cells (filled pct width) width ++ b']' ∷ []

-- pct := 0; if p.Total > 0 { pct = p.Done * 100 / p.Total }
unfoldable pub percent_of : ℕ → ℕ → ℕ
percent_of done zero = 0
percent_of done (suc t) = done * 100 / suc t

pub length-repeat : (c n : ℕ) → length (repeat c n) ≡ n
unfolding repeat
length-repeat c zero = refl
length-repeat c (suc n) = ap suc (length-repeat c n)

-- How often a byte occurs in a text.
unfoldable pub occurs : ℕ → Text → ℕ
occurs d [] = 0
occurs d (c ∷ t) = let rest = occurs d t in if c == d then suc rest else rest

occurs-repeat : (d c n : ℕ) → occurs d (repeat c n) ≡ (if c == d then n else 0)
unfolding repeat occurs
occurs-repeat d c zero = ground arith
occurs-repeat d c (suc n) = ground (arith, occurs-repeat d c n)

occurs-append : (d : ℕ) (s t : Text) → occurs d (s ++ t) ≡ occurs d s + occurs d t
unfolding occurs
occurs-append d [] t = omega arith
occurs-append d (c ∷ s) t = ground (arith, occurs-append d s t)

mul-le : (a b w : ℕ) → a ≤ b → a * w ≤ b * w
mul-le a b zero h = omega arith
mul-le a b (suc w) h = omega (arith, mul-le a b w h)

filled-le : (pct : ℤ) (width : ℕ) → filled pct width ≤ width
filled-le pct width = div-le_of_le-mul 100 (mul-le (clamped pct) 100 width (ground arith))

-- The cells of a bar, for the number that is filled.
bar_cells :
    (n width : ℕ)
    → n ≤ width
    → (length (cells n width) ≡ width)
      × (occurs b'=' (cells n width) ≡ n)
      × (occurs b'>' (cells n width) ≡ (if ltb n width then 1 else 0))
unfolding cells occurs
bar_cells n width h = elim (Bool-cases (ltb n width)) [
  | inl less ↦
      let tail : Text = b'>' ∷ repeat b' ' (width - n - 1) in
      ground (
        arith,
        length-append (repeat b'=' n) tail,
        length-repeat b'=' n,
        length-repeat b' ' (width - n - 1),
        occurs-append b'=' (repeat b'=' n) tail,
        occurs-append b'>' (repeat b'=' n) tail,
        occurs-repeat b'=' b'=' n,
        occurs-repeat b'>' b'=' n,
        occurs-repeat b'=' b' ' (width - n - 1),
        occurs-repeat b'>' b' ' (width - n - 1),
      )
  | inr more ↦
      ground (arith, length-repeat b'=' n, occurs-repeat b'=' b'=' n, occurs-repeat b'>' b'=' n)
]

-- Whatever the percentage, below 0 and above 100 as well, a bar is two brackets and `width` cells between them. The
-- cells that are '=' are the percentage of the width, rounded down, and one '>' follows them where a cell is left.
pub render_bar_lem :
    (pct : ℤ) (width : ℕ)
    → (length (render_bar pct width) ≡ width + 2)
      × (occurs b'=' (render_bar pct width) ≡ filled pct width)
      × (occurs b'>' (render_bar pct width) ≡ (if ltb (filled pct width) width then 1 else 0))
unfolding render_bar occurs
render_bar_lem pct width =
    let n : ℕ = filled pct width in
    let inner : Text = cells n width in
    ground (
      arith,
      bar_cells n width (filled-le pct width),
      length-append inner (b']' ∷ []),
      occurs-append b'=' inner (b']' ∷ []),
      occurs-append b'>' inner (b']' ∷ []),
    )

-- The percentage is at most 100 when no more is done than there is.
pub percent_of-le : (done total : ℕ) → done ≤ total → percent_of done total ≤ 100
unfolding percent_of
percent_of-le done zero h = omega arith
percent_of-le done (suc t) h = div-le_of_le-mul (suc t) (omega arith)
