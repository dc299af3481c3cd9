-- ===== src/Cli/Status/Screen.antt =====
-- What is on the terminal after log lines and progress.
use rain_scanner.Base.{
  ℕ, zero, suc, ◌+◌, ◌≤◌, ◌≡◌, ◌≢◌, refl, sym, ap, ◌∙◌, subst, ◌⊎◌, inl, inr, [], ◌∷◌, ◌++◌, Text,
  drop, length, length-append, ==_iff, All, All-append, arith, append_assoc,
}
use rain_scanner.Cli.Bar.{repeat, length-repeat}
use rain_scanner.Cli.Status.{Bar, return_code, clear, Terminal, put, write_byte, write}

abbrev pub IsPrintable : Text → Type 0
IsPrintable s = All (λ (c : ℕ). (c ≢ 13) × (c ≢ 10)) s

abbrev pub IsBlank : Text → Type 0
IsBlank s = All (λ (c : ℕ). c ≡ b' ') s

-- A text written over a line from some column on.
unfoldable over : Text → ℕ → Text → Text
over [] n row = row
over (c ∷ s) n row = over s (n + 1) (put c n row)

printed :
    (c : ℕ) (t : Terminal)
    → (c ≢ 13) × (c ≢ 10)
    → write_byte c t ≡ record { row = put c t.column t.row; column = t.column + 1; above = t.above }
unfolding write_byte
printed c t h = ground (arith, ==_iff c 13, ==_iff c 10)

write_text :
    (s : Text) (t : Terminal)
    → IsPrintable s
    → write s t
      ≡ record { row = over s t.column t.row; column = t.column + length s; above = t.above }
unfolding write write_byte over
write_text [] t h =
    let e : t.column ≡ t.column + 0 = omega arith in ap (λ n. record t { column = n }) e
write_text (c ∷ s) t h =
    let t' : Terminal = record {
      row = put c t.column t.row;
      column = t.column + 1;
      above = t.above;
    } in
    let e : t.column + 1 + length s ≡ t.column + suc (length s) = omega arith in
    ap (write s) (printed c t h.0)
    ∙ write_text s t' h.1
    ∙ ap
        (λ n. record {
          row = over s (t.column + 1) (put c t.column t.row);
          column = n;
          above = t.above;
        })
        e

pub write-append : (s s' : Text) (t : Terminal) → write (s ++ s') t ≡ write s' (write s t)
unfolding write
write-append [] s' t = refl
write-append (c ∷ s) s' t = write-append s s' (write_byte c t)

put-length : (c : ℕ) (pre row : Text) → put c (length pre) (pre ++ row) ≡ pre ++ c ∷ drop 1 row
put-length c [] [] = refl
put-length c [] (x ∷ row) = refl
put-length c (p ∷ pre) row = ap (λ l. p ∷ l) (put-length c pre row)

drop-drop_one : (n : ℕ) (row : Text) → drop n (drop 1 row) ≡ drop (suc n) row
drop-drop_one zero [] = refl
drop-drop_one (suc n) [] = refl
drop-drop_one n (x ∷ row) = refl

over-length :
    (s pre row : Text) → over s (length pre) (pre ++ row) ≡ pre ++ (s ++ drop (length s) row)
unfolding over
over-length [] pre row = refl
over-length (c ∷ s) pre row =
    let e : length pre + 1 ≡ length (pre ++ c ∷ []) = omega (arith, length-append pre (c ∷ [])) in
    let first : put c (length pre) (pre ++ row) ≡ (pre ++ c ∷ []) ++ drop 1 row =
      put-length c pre row ∙ sym (append_assoc pre (c ∷ []) (drop 1 row)) in
    rw (first, e)
      (over-length s (pre ++ c ∷ []) (drop 1 row)
        ∙ append_assoc pre (c ∷ []) (s ++ drop (length s) (drop 1 row))
        ∙ ap (λ l. pre ++ (c ∷ (s ++ l))) (drop-drop_one (length s) row))

drop-IsBlank : (n : ℕ) (s : Text) → IsBlank s → IsBlank (drop n s)
drop-IsBlank zero s h = h
drop-IsBlank (suc n) [] h = tt
drop-IsBlank (suc n) (c ∷ s) h = drop-IsBlank n s h.1

drop_past : (n : ℕ) (s rest : Text) → length s ≤ n → IsBlank rest → IsBlank (drop n (s ++ rest))
drop_past n [] rest le h = drop-IsBlank n rest h
drop_past zero (c ∷ s) rest le h = absurd (omega (arith, le))
drop_past (suc n) (c ∷ s) rest le h = drop_past n s rest (omega (arith, le)) h

repeat-IsBlank : (n : ℕ) → IsBlank (repeat b' ' n)
unfolding repeat
repeat-IsBlank zero = tt
repeat-IsBlank (suc n) = (refl, repeat-IsBlank n)

repeat-IsPrintable : (n : ℕ) → IsPrintable (repeat b' ' n)
unfolding repeat
repeat-IsPrintable zero = tt
repeat-IsPrintable (suc n) = ((omega arith, omega arith), repeat-IsPrintable n)

-- The terminal shows a text on its last line with blanks behind it, the cursor after the text.
pub record Shows (drawn : Text) (t : Terminal) : Type 0 where
  pub rest : Text
  pub shown : t.row ≡ drawn ++ rest
  pub blank : IsBlank rest
  pub at : t.column ≡ length drawn

-- What a text at the start of a line makes of it, when the text covers what was drawn.
pub drawn_over :
    (drawn drawn' : Text) (t : Terminal)
    → IsPrintable drawn'
    → length drawn ≤ length drawn'
    → t.column ≡ 0
    → (rest : Text) → t.row ≡ drawn ++ rest
    → IsBlank rest
    → Shows drawn' (write drawn' t) × ((write drawn' t).above ≡ t.above)
drawn_over drawn drawn' t h covers start rest shown blank =
    let e : over drawn' t.column t.row ≡ drawn' ++ drop (length drawn') (drawn ++ rest) =
      rw (start, shown) (over-length drawn' [] (drawn ++ rest)) in
    let v : Shows drawn' (write drawn' t) = rw (write_text drawn' t h) (record {
      rest = drop (length drawn') (drawn ++ rest);
      shown = e;
      blank = drop_past (length drawn') drawn rest covers blank;
      at = omega (arith, start);
    }) in
    (v, ap (λ (x : Terminal). x.above) (write_text drawn' t h))

returned_to : (t : Terminal) → write_byte return_code t ≡ record t { column = 0 }
unfolding write_byte
returned_to t = refl

pub redrawn :
    (drawn drawn' : Text) (t : Terminal)
    → IsPrintable drawn'
    → length drawn ≤ length drawn'
    → Shows drawn t
    → Shows drawn' (write (return_code ∷ drawn') t)
      × ((write (return_code ∷ drawn') t).above ≡ t.above)
unfolding write write_byte
redrawn drawn drawn' t h covers v =
    drawn_over drawn drawn' (record t { column = 0 }) h covers refl v.rest v.shown v.blank

-- lastLine is what is drawn, or empty where nothing is.
abbrev pub IsBar : Text → Bar → Type 0
IsBar drawn last = ((last ≡ []) × (drawn ≡ [])) ⊎ (last ≡ return_code ∷ drawn)

-- Blanks over what was drawn, between two carriage returns.
blanked :
    (n : ℕ) (drawn : Text) (t : Terminal)
    → length drawn ≤ n
    → Shows drawn t
    → Shows [] (write (return_code ∷ (repeat b' ' n ++ return_code ∷ [])) t)
      × ((write (return_code ∷ (repeat b' ' n ++ return_code ∷ [])) t).above ≡ t.above)
unfolding write write_byte
blanked n drawn t covers v =
    let spaces : Text = repeat b' ' n in
    let t0 : Terminal = record t { column = 0 } in
    let fits : length drawn ≤ length spaces = omega (arith, covers, length-repeat b' ' n) in
    let (w, same) = redrawn drawn spaces t (repeat-IsPrintable n) fits v in
    rw (write-append spaces (return_code ∷ []) t0) (
      record {
        rest = spaces ++ w.rest;
        shown = w.shown;
        blank = All-append (λ c. c ≡ b' ') spaces w.rest (repeat-IsBlank n) w.blank;
        at = refl;
      },
      same,
    )

-- clear leaves a line of blanks, the cursor at its start.
pub cleared :
    (drawn : Text) (last : Bar) (t : Terminal)
    → IsBar drawn last
    → Shows drawn t
    → Shows [] (write (clear last) t) × ((write (clear last) t).above ≡ t.above)
unfolding clear write write_byte
cleared drawn [] t bar v = elim bar [ inl (_, e) ↦ (subst (λ d. Shows d t) e v, refl) | inr e ↦ cc ]
cleared drawn (c ∷ last) t bar v =
    let e : (c ∷ last) ≡ return_code ∷ drawn = elim bar [ inl r ↦ cc | inr e ↦ e ] in
    let n : length last ≡ length drawn = ap (λ l. length (drop 1 l)) e in
    blanked (suc (length last)) drawn t (omega (arith, n)) v

-- The end of a line, and lastLine on the next.
pub ended :
    (drawn : Text) (last : Bar) (t : Terminal)
    → IsPrintable drawn
    → IsBar drawn last
    → Shows drawn (write last (write (10 ∷ []) t))
      × ((write last (write (10 ∷ []) t)).above ≡ t.row ∷ t.above)
unfolding write write_byte
ended drawn last t h bar =
    let t' : Terminal = record { row = []; column = 0; above = t.row ∷ t.above } in
    let empty : Shows [] t' = record { rest = []; shown = refl; blank = tt; at = refl } in
    elim bar [
      | inl (e, e') ↦ rw (e, e') (empty, refl)
      | inr e ↦ rw e (redrawn [] drawn t' h (omega arith) empty)
    ]
