-- ===== src/Storage/Tests.antt =====
-- The promises of FileStore at a printer that knows envelopes without targets and with at most one hidden name.
use rain_scanner.Base.{
  ℕ, zero, suc, ◌≡◌, refl, sym, subst, ap, List, [], ◌∷◌, ◌++◌, Option, some, none, Text, length,
  take, drop,
}
use rain_scanner.Storage.{CustomTarget, RangeFile, IsStore}
use rain_scanner.Storage.Files.{Envelope, file_store, file_store-IsStore}

abbrev print_lists : Text → List CustomTarget → List Text → Option Text
print_lists now [] [] = some (0 ∷ now)
print_lists now [] (h ∷ []) = some (suc (length now) ∷ now ++ h)
print_lists now [] (h ∷ k ∷ hs) = none
print_lists now (c ∷ cs) hs = none

abbrev print_small : Envelope → Option Text
print_small e = print_lists e.updated_at e.targets e.hidden

abbrev read_small : Text → Option Envelope
read_small [] = none
read_small (zero ∷ t) = some (record { updated_at = t; targets = []; hidden = [] })
read_small (suc n ∷ t) =
    some (record { updated_at = take n t; targets = []; hidden = drop n t ∷ [] })

take-length : (s t : Text) → take (length s) (s ++ t) ≡ s
take-length [] t = refl
take-length (c ∷ s) t = ap (λ l. c ∷ l) (take-length s t)

drop-length : (s t : Text) → drop (length s) (s ++ t) ≡ t
drop-length [] t = refl
drop-length (c ∷ s) t = drop-length s t

read_lists :
    (now : Text) (cs : List CustomTarget) (hs : List Text) (t : Text)
    → print_lists now cs hs ≡ some t
    → read_small t ≡ some (record { updated_at = now; targets = cs; hidden = hs })
read_lists now [] [] t h =
    let same : 0 ∷ now ≡ t = cc in
    subst (λ u. read_small u ≡ some (record { updated_at = now; targets = []; hidden = [] })) same
      refl
read_lists now [] (k ∷ []) t h =
    let same : suc (length now) ∷ now ++ k ≡ t = cc in
    subst (λ u. read_small u ≡ some (record { updated_at = now; targets = []; hidden = k ∷ [] }))
      same (rw (take-length now k, drop-length now k) refl)
read_lists now [] (k ∷ k' ∷ hs) t h = cc
read_lists now (c ∷ cs) hs t h = cc

read_printed : (e : Envelope) (t : Text) → print_small e ≡ some t → read_small t ≡ some e
read_printed e t h = read_lists e.updated_at e.targets e.hidden t h

abbrev print_parts : Text → ℕ → List Text → Text → Option Text
print_parts cdn zero [] [] = some cdn
print_parts cdn zero [] (c ∷ source) = none
print_parts cdn zero (c ∷ cidrs) source = none
print_parts cdn (suc n) cidrs source = none

-- A printer of range files that hold nothing.
abbrev print_cdn : RangeFile → Option Text
print_cdn rf = print_parts rf.cdn rf.count rf.cidrs rf.source

abbrev read_cdn : Text → Option RangeFile
read_cdn t = some (record { cdn = t; count = 0; cidrs = []; source = [] })

read_parts :
    (cdn : Text) (n : ℕ) (cidrs : List Text) (source t : Text)
    → print_parts cdn n cidrs source ≡ some t
    → read_cdn t ≡ some (record { cdn = cdn; count = n; cidrs = cidrs; source = source })
read_parts cdn zero [] [] t h =
    let same : cdn ≡ t = cc in
    ap (λ u. some (record { cdn = u; count = 0; cidrs = []; source = [] })) (sym same)
read_parts cdn zero [] (c ∷ source) t h = cc
read_parts cdn zero (c ∷ cidrs) source t h = cc
read_parts cdn (suc n) cidrs source t h = cc

read_range : (rf : RangeFile) (t : Text) → print_cdn rf ≡ some t → read_cdn t ≡ some rf
read_range rf t h = read_parts rf.cdn rf.count rf.cidrs rf.source t h

file_store-IsStore_example : IsStore (file_store print_small read_small print_cdn read_cdn)
file_store-IsStore_example =
    file_store-IsStore print_small read_small print_cdn read_cdn read_printed read_range
