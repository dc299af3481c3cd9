-- ===== src/Output/Names.antt =====
-- The file names of results stay in their directory, and the entries are in order of their latency.
use mathlib.Core.List.{Perm}
use rain_scanner.Base.{
  ℕ, ◌≡◌, ◌≢◌, Bool, true, false, ◌||◌, List, [], ◌∷◌, Text, ◌==◌, All, trim, drop_while, to_lower,
  trim_space, arith,
}
use mathlib.Core.List.{reverse, reverse_aux}
use rain_scanner.Base.Sorting.{IsSorted, IsWeakOrder, sort_by-IsSorted, sort_by-perm}
use rain_scanner.Output.{Entry, faster, sorted, dashed, sanitize_name, is_plain}

-- A code that a sanitized name may have: a small letter, a digit or a dash.
abbrev pub IsSafe : ℕ → Type 0
IsSafe c = (is_plain c || (c == b'-')) ≡ true

dashed-IsSafe : (prev : Bool) (t : Text) → All IsSafe (dashed prev t)
unfolding dashed
dashed-IsSafe prev [] = tt
dashed-IsSafe prev (c ∷ t) = ground (arith, dashed-IsSafe false t, dashed-IsSafe true t)

All-drop_while : (P : ℕ → Type 0) (p : ℕ → Bool) (t : Text) → All P t → All P (drop_while p t)
unfolding drop_while
All-drop_while P p [] h = tt
All-drop_while P p (c ∷ t) h = ground (arith, All-drop_while P p t h.1)

All-reverse_aux : (P : ℕ → Type 0) (t acc : Text) → All P t → All P acc → All P (reverse_aux t acc)
All-reverse_aux P [] acc h k = k
All-reverse_aux P (c ∷ t) acc h k = All-reverse_aux P t (c ∷ acc) h.1 (h.0, k)

All-trim : (P : ℕ → Type 0) (p : ℕ → Bool) (t : Text) → All P t → All P (trim p t)
unfolding trim
All-trim P p t h =
    let front = All-drop_while P p t h in
    let back = All-drop_while P p (reverse (drop_while p t)) (All-reverse_aux P _ [] front tt) in
    All-reverse_aux P _ [] back tt

-- The name that sanitizeName gives has no code but small letters, digits and dashes, and is not empty, whatever
-- name it is given.
pub sanitize_name-IsSafe :
    (name : Text) → All IsSafe (sanitize_name name) × (sanitize_name name ≢ [])
unfolding sanitize_name
sanitize_name-IsSafe name =
    let t = dashed false (to_lower (trim_space name)) in
    let safe =
      All-trim IsSafe (λ c. c == b'-') t (dashed-IsSafe false (to_lower (trim_space name))) in
    ground (arith, safe)

faster-IsWeakOrder : IsWeakOrder faster
faster-IsWeakOrder = record { asym = λ x y h. ground arith; chain = λ x y z h k. ground arith }

-- Write keeps the entries and puts no entry behind a slower one.
pub sorted-IsSorted : (es : List Entry) → Perm (sorted es) es × IsSorted faster (sorted es)
unfolding sorted
sorted-IsSorted es = (sort_by-perm faster es, sort_by-IsSorted faster faster-IsWeakOrder es)
