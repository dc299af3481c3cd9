-- ===== src/Targets/Customs.antt =====
-- Which records are saved as custom targets, and the flag that tells them apart.
use rain_scanner.Base.{
  ℕ, zero, suc, ◌≡◌, refl, subst, true, List, [], ◌∷◌, ◌++◌, some, to_lower, get_elem?, set, arith,
  All,
}
use rain_scanner.Targets.{Record, Registry, customs_of, remove_at, has_name}

-- A built-in that is removed, replaced by another or added changes nothing of what is saved as custom.
pub customs_of-remove_at :
    (rs : List Record) (i : ℕ) (old : Record)
    → get_elem? rs i ≡ some old
    → old.builtin ≡ true
    → customs_of (remove_at i rs) ≡ customs_of rs
unfolding customs_of remove_at
customs_of-remove_at [] i old h b = refl
customs_of-remove_at (x ∷ rs) zero old h b = ground arith
customs_of-remove_at (x ∷ rs) (suc i) old h b = ground (arith, customs_of-remove_at rs i old)

pub customs_of-set :
    (rs : List Record) (i : ℕ) (old new : Record)
    → get_elem? rs i ≡ some old
    → old.builtin ≡ true
    → new.builtin ≡ true
    → customs_of (set rs i new) ≡ customs_of rs
unfolding customs_of
customs_of-set [] i old new h b b' = refl
customs_of-set (x ∷ rs) zero old new h b b' = ground arith
customs_of-set (x ∷ rs) (suc i) old new h b b' = ground (arith, customs_of-set rs i old new)

pub customs_of-append :
    (rs : List Record) (new : Record)
    → new.builtin ≡ true
    → customs_of (rs ++ new ∷ []) ≡ customs_of rs
unfolding customs_of
customs_of-append [] new b = ground arith
customs_of-append (x ∷ rs) new b = ground (arith, customs_of-append rs new b)

-- Each record carries the flag that the manifest gives its name.
abbrev pub IsFlagged : Registry → Type 0
IsFlagged r = All (λ (x : Record). x.builtin ≡ has_name (to_lower x.name) r.builtin_names) r.recs

pub All-at :
    (P : Record → Type 0) (rs : List Record) (i : ℕ) (x : Record)
    → All P rs
    → get_elem? rs i ≡ some x
    → P x
All-at P [] i x h e = cc
All-at P (y ∷ rs) zero x h e = subst P (ground arith) h.0
All-at P (y ∷ rs) (suc i) x h e = All-at P rs i x h.1 e
