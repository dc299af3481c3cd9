-- ===== src/Base/Decimal.antt =====
-- Decimal numbers as texts: strconv.Itoa and strconv.Atoi.
use rain_scanner.Base.Tests.{leb, ◌==◌, if◌then◌else◌}
use rain_scanner.Base.Ints.{ℤ, pos, negsuc}
use rain_scanner.Base.Texts.{Text}
use Prim.Native.Nat.{ℕ, zero, suc, ◌+◌, ◌-◌, ◌*◌, ◌/◌, ◌%◌, ◌^◌, ◌≤◌, ◌<◌}
use mathlib.Core.Path.{◌≡◌, subst}
use mathlib.Core.Logic.{◌≢◌}
use mathlib.Core.Bool.{◌&&◌}
use mathlib.Core.Option.{Option, none, some}
use mathlib.Core.List.{[], ◌∷◌}
use native.Mathlib.Omega.{arith}

-- `for n > 0 { … }`, the digits written from the last one on; `n` rounds are enough.
unfoldable pub digits : ℕ → ℕ → Text → Text
digits zero n out = out
digits (suc fuel) n out =
    let rest = digits fuel (n / 10) ((48 + n % 10) ∷ out) in if n == 0 then out else rest

unfoldable pub decimal : ℕ → Text
unfolding digits
decimal n = if n == 0 then 48 ∷ [] else digits n n []

unfoldable pub itoa_ℤ : ℤ → Text
itoa_ℤ (pos n) = decimal n
itoa_ℤ (negsuc n) = 45 ∷ decimal (n + 1)

unfoldable pub read_digits : Text → ℕ → Option ℕ
read_digits [] n = some n
read_digits (c ∷ s) n = if leb 48 c && leb c 57 then read_digits s (n * 10 + (c - 48)) else none

abbrev negative : ℕ → ℤ
negative zero = pos 0
negative (suc n) = negsuc n

abbrev up_to : ℕ → (ℕ → ℤ) → Option ℕ → Option ℤ
up_to bound f none = none
up_to bound f (some n) = if leb n bound then some (f n) else none

abbrev unsigned : ℕ → (ℕ → ℤ) → Text → Option ℤ
unsigned bound f [] = none
unsigned bound f (c ∷ s) = up_to bound f (read_digits (c ∷ s) 0)

-- strconv.Atoi of a 64-bit int
unfoldable pub atoi : Text → Option ℤ
unfolding read_digits
atoi [] = none
atoi (c ∷ s) =
    if c == 43
    then unsigned (2 ^ 63 - 1) pos s
    else if c == 45
    then unsigned (2 ^ 63) negative s
    else unsigned (2 ^ 63 - 1) pos (c ∷ s)

-- The value that strconv.Atoi returns beside its error: the nearest int if the number is out of range, and
-- 0 if the text is no number.
abbrev nearest : ℕ → (ℕ → ℤ) → Option ℕ → ℤ
nearest bound f none = pos 0
nearest bound f (some n) = if leb n bound then f n else f bound

abbrev nearest_of : ℕ → (ℕ → ℤ) → Text → ℤ
nearest_of bound f [] = pos 0
nearest_of bound f (c ∷ s) = nearest bound f (read_digits (c ∷ s) 0)

unfoldable pub atoi_value : Text → ℤ
unfolding read_digits
atoi_value [] = pos 0
atoi_value (c ∷ s) =
    if c == 43
    then nearest_of (2 ^ 63 - 1) pos s
    else if c == 45
    then nearest_of (2 ^ 63) negative s
    else nearest_of (2 ^ 63 - 1) pos (c ∷ s)

read_digits-digits :
    (fuel n : ℕ) (out : Text) → n ≤ fuel → read_digits (digits fuel n out) 0 ≡ read_digits out n
unfolding digits read_digits
read_digits-digits zero n out h = ground arith
read_digits-digits (suc fuel) n out h =
    ground (arith, read_digits-digits fuel (n / 10) ((48 + n % 10) ∷ out))

pub read_digits-decimal : (n : ℕ) → read_digits (decimal n) 0 ≡ some n
unfolding decimal read_digits
read_digits-decimal n = ground (arith, read_digits-digits n n [])

abbrev HeadDigit : Text → Type 0
HeadDigit [] = ⊥
HeadDigit (c ∷ s) = (48 ≤ c) × (c ≤ 57)

digits-HeadDigit : (fuel n : ℕ) (out : Text) → HeadDigit out → HeadDigit (digits fuel n out)
unfolding digits
digits-HeadDigit zero n out h = h
digits-HeadDigit (suc fuel) n out h =
    ground (arith, digits-HeadDigit fuel (n / 10) ((48 + n % 10) ∷ out))

decimal-HeadDigit : (n : ℕ) → HeadDigit (decimal n)
unfolding decimal
decimal-HeadDigit zero = omega arith
decimal-HeadDigit (suc n) = ground (arith, digits-HeadDigit n (suc n / 10) ((48 + suc n % 10) ∷ []))

atoi_digits :
    (s : Text) (n : ℕ) → HeadDigit s → read_digits s 0 ≡ some n → n < 2 ^ 63 → atoi s ≡ some (pos n)
unfolding atoi
atoi_digits [] n h r lt = absurd h
atoi_digits (c ∷ s) n h r lt = ground arith

-- strconv.Atoi reads back what strconv.Itoa prints of a number of 63 bits.
pub atoi-decimal : (n : ℕ) → n < 2 ^ 63 → atoi (decimal n) ≡ some (pos n)
atoi-decimal n = atoi_digits (decimal n) n (decimal-HeadDigit n) (read_digits-decimal n)

pub decimal-ne-nil : (n : ℕ) → decimal n ≢ []
decimal-ne-nil n e = subst HeadDigit e (decimal-HeadDigit n)
