-- ===== src/Targets/Names.antt =====
-- The names that the registry compares: white space at the ends and the case of letters do not count.
use rain_scanner.Base.{
  ℕ, ◌≡◌, refl, sym, ap, ◌∙◌, subst, ◌↔◌, Bool, true, false, [], ◌∷◌, ◌++◌, Text, text_eq_iff,
  text_eq_refl, equal_fold, to_lower, trim, trim_space, drop_while, is_space, Bool-cases, inl, inr,
}
use mathlib.Core.List.{reverse, reverse-append, reverse-reverse}

-- A list that starts with no code that passes the test.
abbrev Starts : (ℕ → Bool) → Text → Type 0
Starts p [] = Unit
Starts p (c ∷ s) = p c ≡ false

Starts-drop_while : (p : ℕ → Bool) (s : Text) → Starts p (drop_while p s)
unfolding drop_while
Starts-drop_while p [] = tt
Starts-drop_while p (c ∷ s) = elim (Bool-cases (p c)) [
  | inl e ↦ rw e (Starts-drop_while p s)
  | inr e ↦ rw e e
]

drop_while-Starts : (p : ℕ → Bool) (s : Text) → Starts p s → drop_while p s ≡ s
unfolding drop_while
drop_while-Starts p [] h = refl
drop_while-Starts p (c ∷ s) h = rw h

-- What is dropped stands in front.
drop_while_split : (p : ℕ → Bool) (s : Text) → (pre : Text) × (s ≡ pre ++ drop_while p s)
unfolding drop_while
drop_while_split p [] = ([], refl)
drop_while_split p (c ∷ s) = elim (Bool-cases (p c)) [
  | inl e ↦ let (pre, h) = drop_while_split p s in (c ∷ pre, rw e (ap (λ l. c ∷ l) h))
  | inr e ↦ ([], rw e)
]

Starts-left : (p : ℕ → Bool) (s t : Text) → Starts p (s ++ t) → Starts p s
Starts-left p [] t h = tt
Starts-left p (c ∷ s) t h = h

trim_idem : (p : ℕ → Bool) (s : Text) → trim p (trim p s) ≡ trim p s
unfolding trim
trim_idem p s =
    let u = drop_while p s in
    let w = drop_while p (reverse u) in
    let (pre, h) = drop_while_split p (reverse u) in
    let whole : u ≡ reverse w ++ reverse pre =
      sym (reverse-reverse u) ∙ ap reverse h ∙ reverse-append pre w in
    let left : drop_while p (reverse w) ≡ reverse w =
      drop_while-Starts p (reverse w) (
        Starts-left p (reverse w) (reverse pre) (subst (Starts p) whole (Starts-drop_while p s))) in
    let right : drop_while p w ≡ w = drop_while-Starts p w (Starts-drop_while p (reverse u)) in
    ap (λ l. reverse (drop_while p (reverse l))) left
    ∙ ap (λ l. reverse (drop_while p l)) (reverse-reverse w)
    ∙ ap reverse right

pub trim_space_idem : (s : Text) → trim_space (trim_space s) ≡ trim_space s
unfolding trim_space
trim_space_idem s = trim_idem is_space s

pub equal_fold_iff : (s t : Text) → (equal_fold s t ≡ true) ↔ (to_lower s ≡ to_lower t)
unfolding equal_fold
equal_fold_iff s t = text_eq_iff (to_lower s) (to_lower t)

pub equal_fold_refl : (s : Text) → equal_fold s s ≡ true
unfolding equal_fold
equal_fold_refl s = text_eq_refl (to_lower s)
