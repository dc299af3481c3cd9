-- ===== src/Cli/Status.antt =====
-- statusBar of cmd/cdnscan/main.go, and the line of the terminal that it draws on. A drawn text is what fmt.Sprintf makes
-- of a progress event after its carriage return; the terminal is wide enough for it.
pub mod Screen
pub mod Play
use rain_scanner.Base.{
  ℕ, zero, suc, ◌+◌, List, [], ◌∷◌, ◌++◌, Option, none, some, if◌then◌else◌, Text, take, drop,
  length, is_empty, ◌==◌,
}
use rain_scanner.Cli.Bar.{repeat}

-- lastLine
abbrev pub Bar : Type 0
Bar = Text

abbrev pub return_code : ℕ
return_code = 13

-- What clear writes.
unfoldable pub clear : Bar → Text
clear last =
    if is_empty last then [] else return_code ∷ repeat b' ' (length last) ++ return_code ∷ []

-- What a call writes, and lastLine after it.
unfoldable pub progress : Text → Bar → Text × Bar
progress drawn last = (return_code ∷ drawn, return_code ∷ drawn)

unfoldable pub logf : Text → Bar → Text × Bar
unfolding clear
logf line last = (clear last ++ (line ++ 10 ∷ []) ++ last, last)

unfoldable pub finish : Bar → Text × Bar
unfolding clear
finish last = (clear last, [])

-- The line of the terminal with the cursor, and the lines above it, the newest first.
pub record Terminal : Type 0 where
  pub row : Text
  pub column : ℕ
  pub above : List Text

-- A character at the cursor.
abbrev pub put : ℕ → ℕ → Text → Text
put c zero [] = c ∷ []
put c zero (x ∷ row) = c ∷ row
put c (suc n) [] = b' ' ∷ put c n []
put c (suc n) (x ∷ row) = x ∷ put c n row

-- One byte: a carriage return, the end of a line, or a character.
unfoldable pub write_byte : ℕ → Terminal → Terminal
write_byte c t =
    if c == return_code
    then record t { column = 0 }
    else if c == 10
    then record { row = []; column = 0; above = t.row ∷ t.above }
    else record t { row = put c t.column t.row; column = t.column + 1 }

unfoldable pub write : Text → Terminal → Terminal
write [] t = t
write (c ∷ s) t = write s (write_byte c t)
