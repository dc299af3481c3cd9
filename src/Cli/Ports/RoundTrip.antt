-- ===== src/Cli/Ports/RoundTrip.antt =====
-- The ports that parsePorts gives, and lists of ports that are read back.
use rain_scanner.Base.{
  ℕ, ◌+◌, ◌*◌, ◌-◌, ◌≡◌, ◌≢◌, ◌≤◌, ◌⊎◌, refl, sym, ap, ◌∙◌, subst, true, false, List, [], ◌∷◌, ◌++◌,
  map, some, ◌==◌, Text, is_empty, trim, trim_space, drop_while, is_space, split_on, ℤ, pos, arith,
  All, All-append, length,
}
use mathlib.Core.List.{reverse, reverse-reverse, reverse-cons}
use rain_scanner.Base.Decimal.{
  decimal, read_digits, read_digits-decimal, atoi-decimal, decimal-ne-nil,
}
use rain_scanner.Cli.Ports.{in_range, port_of, ports_of, parse_ports}

abbrev IsDigit : ℕ → Type 0
IsDigit c = (48 ≤ c) × (c ≤ 57)

read_digits-IsDigit : (t : Text) (k n : ℕ) → read_digits t k ≡ some n → All IsDigit t
unfolding read_digits
read_digits-IsDigit [] k n h = tt
read_digits-IsDigit (c ∷ t) k n h = ground (arith, read_digits-IsDigit t (k * 10 + (c - 48)) n)

decimal-IsDigit : (n : ℕ) → All IsDigit (decimal n)
decimal-IsDigit n = read_digits-IsDigit (decimal n) 0 n (read_digits-decimal n)

All-reverse : (P : ℕ → Type 0) (s : Text) → All P s → All P (reverse s)
All-reverse P [] h = tt
All-reverse P (c ∷ s) h =
    subst (All P) (sym (reverse-cons c s))
      (All-append P (reverse s) (c ∷ []) (All-reverse P s h.1) (h.0, tt))

drop_while-IsDigit : (s : Text) → All IsDigit s → drop_while is_space s ≡ s
unfolding drop_while
drop_while-IsDigit [] h = refl
drop_while-IsDigit (c ∷ s) h = ground arith

trim_space-IsDigit : (s : Text) → All IsDigit s → trim_space s ≡ s
unfolding trim_space trim
trim_space-IsDigit s h =
    ap (λ l. reverse (drop_while is_space (reverse l))) (drop_while-IsDigit s h)
    ∙ ap reverse (drop_while-IsDigit (reverse s) (All-reverse IsDigit s h))
    ∙ reverse-reverse s

-- A text without the separator, followed by it or not.
split_on-append : (s t : Text) → All IsDigit s → split_on b',' (s ++ b',' ∷ t) ≡ s ∷ split_on b',' t
unfolding split_on
split_on-append [] t h = refl
split_on-append (c ∷ s) t h =
    let other : (c == b',') ≡ false = ground arith in rw (other, split_on-append s t h.1) refl

split_on-last : (s : Text) → All IsDigit s → split_on b',' s ≡ s ∷ []
unfolding split_on
split_on-last [] h = refl
split_on-last (c ∷ s) h =
    let other : (c == b',') ≡ false = ground arith in rw (other, split_on-last s h.1) refl

-- A port.
abbrev pub IsPort : ℕ → Type 0
IsPort n = (1 ≤ n) × (n ≤ 65535)

is_empty-ne_nil : (t : Text) → t ≢ [] → is_empty t ≡ false
is_empty-ne_nil [] h = absurd (h refl)
is_empty-ne_nil (c ∷ t) h = refl

is_empty-decimal : (n : ℕ) → is_empty (decimal n) ≡ false
is_empty-decimal n = is_empty-ne_nil (decimal n) (decimal-ne-nil n)

port_of-decimal : (n : ℕ) → IsPort n → port_of (decimal n) ≡ some (pos n)
unfolding port_of
port_of-decimal n h =
    rw
      (
        trim_space-IsDigit (decimal n) (decimal-IsDigit n),
        atoi-decimal n (omega arith),
        is_empty-decimal n,
      )
      (ground arith)

-- The ports with commas between them, as the flag takes them.
unfoldable pub join_ports : ℕ → List ℕ → Text
join_ports n [] = decimal n
join_ports n (m ∷ ns) = decimal n ++ b',' ∷ join_ports m ns

ports_of-join :
    (n : ℕ) (ns : List ℕ)
    → All IsPort (n ∷ ns)
    → ports_of (split_on b',' (join_ports n ns)) ≡ map pos (n ∷ ns)
unfolding join_ports ports_of
ports_of-join n [] h =
    rw (split_on-last (decimal n) (decimal-IsDigit n), port_of-decimal n h.0, ports_of) refl
ports_of-join n (m ∷ ns) h =
    rw
      (
        split_on-append (decimal n) (join_ports m ns) (decimal-IsDigit n),
        port_of-decimal n h.0,
        ports_of-join m ns h.1,
        ports_of,
      )
      refl

-- A list of ports from 1 to 65535, written in decimals with commas, is read back as it is, whatever the fallback.
pub parse_ports-join :
    (n : ℕ) (ns : List ℕ) (fallback : ℤ)
    → All IsPort (n ∷ ns)
    → parse_ports (join_ports n ns) fallback ≡ map pos (n ∷ ns)
unfolding parse_ports
parse_ports-join n ns fallback h = rw (ports_of-join n ns h) refl

ports_of-valid : (ps : List Text) → All (λ (p : ℤ). in_range p ≡ true) (ports_of ps)
unfolding ports_of port_of
ports_of-valid [] = tt
ports_of-valid (p ∷ ps) = ground (arith, ports_of-valid ps)

-- Whatever the flag says, parsePorts gives at least one port; all are from 1 to 65535, or it is the fallback alone, which
-- may be any number.
pub parse_ports_valid :
    (arg : Text) (fallback : ℤ)
    → (1 ≤ length (parse_ports arg fallback))
      × ((parse_ports arg fallback ≡ fallback ∷ [])
          ⊎ All (λ (p : ℤ). in_range p ≡ true) (parse_ports arg fallback))
unfolding parse_ports
parse_ports_valid arg fallback = ground (arith, ports_of-valid (split_on b',' arg))
