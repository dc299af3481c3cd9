-- ===== src/Cli/Ports.antt =====
-- parsePorts of cmd/cdnscan/main.go.
pub mod RoundTrip
use rain_scanner.Base.{
  ℕ, Bool, ◌&&◌, List, [], ◌∷◌, Option, none, some, if◌then◌else◌, ltb, leb, Text, is_empty,
  trim_space, split_on, ℤ, pos, is_pos, pos_part,
}
use rain_scanner.Base.Decimal.{atoi}

-- What the loop makes of one entry: nothing if it is blank, no number or out of range.
abbrev pub in_range : ℤ → Bool
in_range n = is_pos n && leb (pos_part n) 65535

unfoldable pub port_of : Text → Option ℤ
port_of p =
    let t = trim_space p in
    if is_empty t
    then none
    else elim (atoi t) [ none ↦ none | some n ↦ if in_range n then some n else none ]

unfoldable pub ports_of : List Text → List ℤ
ports_of [] = []
ports_of (p ∷ ps) = let rest = ports_of ps in elim (port_of p) [ none ↦ rest | some n ↦ n ∷ rest ]

unfoldable pub parse_ports : Text → ℤ → List ℤ
parse_ports arg fallback =
    let out = ports_of (split_on b',' arg) in if is_empty out then fallback ∷ [] else out
