-- ===== src/Output.antt =====
-- internal/output/output.go: the entries of a result file, their order, the name of the file and its text. json.Marshal of
-- a text is the parameter `quote`; the time is the text `now`.
pub mod Names
pub mod Tests
use rain_scanner.Base.{
  ℕ, zero, suc, ◌+◌, Bool, true, false, ◌&&◌, ◌||◌, not, List, [], ◌∷◌, ◌++◌, if◌then◌else◌, Text,
  codes, ltb, leb, ◌==◌, to_lower, trim_space, trim, is_empty, length, ℤ, pos,
}
use rain_scanner.Base.Sorting.{sort_by}
use rain_scanner.Base.Decimal.{decimal, itoa_ℤ}

pub record Entry : Type 0 where
  pub ip : Text
  pub port : ℤ
  pub median_ms : ℕ
  pub successes : ℕ
  pub total : ℕ

-- The order of Write; sort.Slice promises no order among equals, and this is one that it may choose.
abbrev pub faster : Entry → Entry → Bool
faster a b = ltb a.median_ms b.median_ms

unfoldable pub sorted : List Entry → List Entry
sorted es = sort_by faster es

abbrev pub is_plain : ℕ → Bool
is_plain c = (leb 97 c && leb c 122) || (leb 48 c && leb c 57)

-- The loop of sanitizeName, from a state of `prevDash` on.
unfoldable pub dashed : Bool → Text → Text
dashed prev [] = []
dashed prev (c ∷ t) =
    let kept = c ∷ dashed false t in
    let run = dashed true t in if is_plain c then kept else if prev then run else b'-' ∷ run

unfoldable pub sanitize_name : Text → Text
sanitize_name name =
    let out = trim (λ c. c == b'-') (dashed false (to_lower (trim_space name))) in
    if is_empty out then codes "custom" else out

-- The name of the file that Path gives, in its directory.
unfoldable pub file_name : Text → Text
file_name name = sanitize_name name ++ codes ".json"

module _ (quote : Text → Text) (now : Text) where
  -- writeField and writeRawField, on the printed value.
  abbrev pub write_field : Text → Text → Bool → Text
  write_field key val more =
      codes "  " ++ quote key ++ codes ": " ++ val ++ (if more then codes "," else []) ++ codes "\n"

  -- json.Marshal of an Entry.
  unfoldable pub print_entry : Entry → Text
  print_entry e =
      codes "{"
      ++ quote (codes "ip")
      ++ codes ":"
      ++ quote e.ip
      ++ codes ","
      ++ quote (codes "port")
      ++ codes ":"
      ++ itoa_ℤ e.port
      ++ codes ","
      ++ quote (codes "median_ms")
      ++ codes ":"
      ++ decimal e.median_ms
      ++ codes ","
      ++ quote (codes "successes")
      ++ codes ":"
      ++ decimal e.successes
      ++ codes ","
      ++ quote (codes "total")
      ++ codes ":"
      ++ decimal e.total
      ++ codes "}"

  -- The entries, one on each line.
  unfoldable pub print_entries : Bool → List Entry → Text
  print_entries later [] = []
  print_entries later (e ∷ es) =
      (if later then codes "," else []) ++ codes "\n    " ++ print_entry e ++ print_entries true es

  -- The text that Write saves.
  unfoldable pub render : Text → List Entry → Text
  render cdn entries =
      let es = sorted entries in
      codes "{\n"
      ++ write_field (codes "cdn") (quote cdn) true
      ++ write_field (codes "generated_at") (quote now) true
      ++ write_field (codes "count") (decimal (length es)) true
      ++ codes "  \"results\": ["
      ++ print_entries false es
      ++ (if is_empty es then [] else codes "\n  ")
      ++ codes "]\n}\n"
