-- ===== src/Xray/Itoa.antt =====
-- itoa of internal/xray/prober.go and of internal/scan/tcp.go: decimal digits written into a fixed buffer from
-- its end. A write before the start of the buffer is a panic, here `none`.
use rain_scanner.Base.{
  ℕ, zero, suc, ◌+◌, ◌/◌, ◌%◌, ◌^◌, ◌≤◌, ◌<◌, ◌≡◌, ℤ, pos, negsuc, [], ◌∷◌, Option, none, some,
  arith, if◌then◌else◌, ◌==◌, Text, length, ltb, ltb→lt, ltb→ge, Bool-cases, inl, inr,
}
use native.Mathlib.Nat.{pow-suc, one-le-pow}
use rain_scanner.Base.Decimal.{digits, decimal}

-- `for i > 0 { pos--; buf[pos] = …; i /= 10 }`, with `room` free bytes; each round takes one, so no other fuel is
-- needed.
unfoldable pub write_digits : ℕ → ℕ → Text → Option Text
write_digits zero i out = if i == 0 then some out else none
write_digits (suc room) i out =
    let rest = write_digits room (i / 10) ((48 + i % 10) ∷ out) in if i == 0 then some out else rest

-- scan.itoa, with its buffer of six bytes; a negative number makes no round.
unfoldable pub scan_itoa : ℤ → Option Text
unfolding write_digits
scan_itoa (pos i) = if i == 0 then some (48 ∷ []) else write_digits 6 i []
scan_itoa (negsuc i) = some []

abbrev with_sign : ℕ → Option Text → Option Text
with_sign room none = none
with_sign room (some out) = if length out == room then none else some (45 ∷ out)

-- xray.itoa, with its buffer of twelve bytes.
unfoldable pub xray_itoa : ℤ → Option Text
unfolding write_digits
xray_itoa (pos i) = if i == 0 then some (48 ∷ []) else write_digits 12 i []
xray_itoa (negsuc i) = with_sign 12 (write_digits 12 (i + 1) [])

write_digits-digits :
    (room fuel i : ℕ) (out : Text)
    → i < 10 ^ room
    → i ≤ fuel
    → write_digits room i out ≡ some (digits fuel i out)
unfolding write_digits digits
write_digits-digits zero zero i out fits enough = ground arith
write_digits-digits zero (suc fuel) i out fits enough = ground arith
write_digits-digits (suc room) zero i out fits enough = ground arith
write_digits-digits (suc room) (suc fuel) i out fits enough = ground (
  arith,
  pow-suc 10 room,
  write_digits-digits room fuel (i / 10) ((48 + i % 10) ∷ out) (omega (arith, pow-suc 10 room)),
)

write_digits_full : (room i : ℕ) (out : Text) → 10 ^ room ≤ i → write_digits room i out ≡ none
unfolding write_digits
write_digits_full zero i out h = ground arith
write_digits_full (suc room) i out h = ground (
  arith,
  pow-suc 10 room,
  one-le-pow room 10,
  write_digits_full room (i / 10) ((48 + i % 10) ∷ out) (omega (arith, pow-suc 10 room)),
)

-- The scanner's itoa prints every number below a million, so every port, as strconv.Itoa does; from a million on
-- it runs out of its buffer.
pub scan_itoa-decimal :
    (i : ℕ) → scan_itoa (pos i) ≡ (if ltb i 1000000 then some (decimal i) else none)
unfolding scan_itoa decimal
scan_itoa-decimal i = elim (Bool-cases (ltb i 1000000)) [
  | inl below ↦
      rw below (ground (arith, write_digits-digits 6 i i [] (ltb→lt i 1000000 below) (omega arith)))
  | inr above ↦ rw above (ground (arith, write_digits_full 6 i [] (ltb→ge i 1000000 above)))
]

-- The prober's itoa prints every non-negative number of at most twelve digits as strconv.Itoa does.
pub xray_itoa-decimal : (i : ℕ) → i < 10 ^ 12 → xray_itoa (pos i) ≡ some (decimal i)
unfolding xray_itoa decimal
xray_itoa-decimal i h = ground (arith, write_digits-digits 12 i i [] h (omega arith))
