-- ===== src/Cli/Status/Play.antt =====
-- Log lines and progress events one after the other, and what is on the terminal at the end.
use rain_scanner.Base.{
  ◌≤◌, ◌≡◌, refl, sym, ap, ◌∙◌, subst, inl, inr, List, [], ◌∷◌, ◌++◌, Text, length, arith,
}
use rain_scanner.Cli.Status.{Bar, return_code, clear, progress, logf, finish, Terminal, write}
use rain_scanner.Cli.Status.Screen.{
  IsPrintable, IsBlank, Shows, IsBar, drawn_over, redrawn, cleared, ended, write-append,
}

-- What the command does with the bar: a log line, or the text of a progress event.
pub data Event : Type 0 where
  logs drawn_as : Text → Event

abbrev pub act : Event → Bar → Text × Bar
act (logs line) last = logf line last
act (drawn_as drawn) last = progress drawn last

-- The events one after the other, and finish.
unfoldable pub play : List Event → Bar → Terminal → Terminal
play [] last t = write (finish last).0 t
play (e ∷ events) last t = play events (act e last).1 (write (act e last).0 t)

-- No event has a control character, and no text is shorter than the one that it replaces.
abbrev pub Covers : Text → List Event → Type 0
Covers drawn [] = Unit {0}
Covers drawn (logs line ∷ events) = IsPrintable line × Covers drawn events
Covers drawn (drawn_as text ∷ events) =
    IsPrintable text × (length drawn ≤ length text) × Covers text events

-- The logged lines above, the newest first, each with blanks behind it.
abbrev pub IsLogged : List Text → List Text → List Text → Type 0
IsLogged old [] above = above ≡ old
IsLogged old (line ∷ lines) [] = ⊥
IsLogged old (line ∷ lines) (row ∷ above) =
    ((rest : Text) × (row ≡ line ++ rest) × IsBlank rest) × IsLogged old lines above

abbrev pub lines_of : List Event → List Text → List Text
lines_of [] acc = acc
lines_of (logs line ∷ events) acc = lines_of events (line ∷ acc)
lines_of (drawn_as text ∷ events) acc = lines_of events acc

progress_lem :
    (drawn text : Text) (last : Bar) (t : Terminal)
    → IsPrintable text
    → length drawn ≤ length text
    → Shows drawn t
    → Shows text (write (progress text last).0 t)
      × ((write (progress text last).0 t).above ≡ t.above)
unfolding progress
progress_lem drawn text last t h covers v = redrawn drawn text t h covers v

logf_lem :
    (drawn line : Text) (last : Bar) (t : Terminal)
    → IsPrintable line
    → IsPrintable drawn
    → IsBar drawn last
    → Shows drawn t
    → Shows drawn (write (logf line last).0 t)
      × ((rest : Text) × ((write (logf line last).0 t).above ≡ (line ++ rest) ∷ t.above)
          × IsBlank rest)
unfolding logf
logf_lem drawn line last t h h' bar v =
    let (v1, s1) = cleared drawn last t bar v in
    let t1 : Terminal = write (clear last) t in
    let (v2, s2) = drawn_over [] line t1 h (omega arith) v1.at v1.rest v1.shown v1.blank in
    let t2 : Terminal = write line t1 in
    let (v3, s3) = ended drawn last t2 h' bar in
    let whole : write (clear last ++ (line ++ 10 ∷ []) ++ last) t
        ≡ write last (write (10 ∷ []) t2) =
      write-append (clear last ++ (line ++ 10 ∷ [])) last t
      ∙ ap (write last)
          (write-append (clear last) (line ++ 10 ∷ []) t ∙ write-append line (10 ∷ []) t1) in
    rw whole (
      v3,
      (
        v2.rest,
        s3 ∙ ap (λ l. l ∷ t2.above) v2.shown ∙ ap (λ l. (line ++ v2.rest) ∷ l) (s2 ∙ s1),
        v2.blank,
      ),
    )

play_lem :
    (events : List Event) (drawn : Text) (last : Bar) (t : Terminal) (old logged : List Text)
    → Covers drawn events
    → IsPrintable drawn
    → IsBar drawn last
    → Shows drawn t
    → IsLogged old logged t.above
    → IsBlank (play events last t).row
      × IsLogged old (lines_of events logged) (play events last t).above
unfolding play finish logf progress
play_lem [] drawn last t old logged c h bar v above =
    let (w, same) = cleared drawn last t bar v in
    (subst IsBlank (sym w.shown) w.blank, subst (IsLogged old logged) (sym same) above)
play_lem (logs line ∷ events) drawn last t old logged c h bar v above =
    let (w, (rest, e, blank)) = logf_lem drawn line last t c.0 h bar v in
    play_lem events drawn last (write (logf line last).0 t) old (line ∷ logged) c.1 h bar w
      (subst (IsLogged old (line ∷ logged)) (sym e) ((rest, refl, blank), above))
play_lem (drawn_as text ∷ events) drawn last t old logged c h bar v above =
    let (w, same) = redrawn drawn text t c.0 c.1 v in
    play_lem events text (return_code ∷ text) (write (return_code ∷ text) t) old logged c.2 c.0
      (inr refl) w (subst (IsLogged old logged) (sym same) above)

-- From an empty line on, whatever is logged and drawn, when it has no line ends or carriage returns of its own and no
-- text of the bar is shorter than the one that it replaces: at the end the last line is blank, and above it are the
-- logged lines in their order, each with nothing but blanks behind it.
pub play_clean :
    (events : List Event) (t : Terminal)
    → t.row ≡ []
    → t.column ≡ 0
    → Covers [] events
    → IsBlank (play events [] t).row
      × IsLogged t.above (lines_of events []) (play events [] t).above
play_clean events t empty start covers =
    play_lem events [] [] t t.above [] covers tt (inl (refl, refl))
      (record { rest = []; shown = empty; blank = tt; at = start }) refl
