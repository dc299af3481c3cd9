-- ===== src/Scan/Pool/Weights.antt =====
-- Sums over the goroutines of a sweep, and counts of elements.
use rain_scanner.Base.{
  ℕ, zero, suc, ◌+◌, ◌≡◌, Bool, List, [], ◌∷◌, ◌++◌, if◌then◌else◌, arith, count_if,
}
use rain_scanner.Scan.Pool.{Worker, dialing, sending, counting, reporting, finishing}

-- The sum of a weight over the goroutines.
abbrev pub total : (Worker → ℕ) → List Worker → ℕ
total f [] = 0
total f (w ∷ ws) = f w + total f ws

pub total-append :
    (f : Worker → ℕ) (xs ys : List Worker) → total f (xs ++ ys) ≡ total f xs + total f ys
total-append f [] ys = omega arith
total-append f (x ∷ xs) ys = omega (arith, total-append f xs ys)

pub total_around :
    (f : Worker → ℕ) (xs ys zs : List Worker)
    → total f (xs ++ ys ++ zs) ≡ total f xs + total f ys + total f zs
total_around f xs ys zs = omega (arith, total-append f (xs ++ ys) zs, total-append f xs ys)

abbrev pub bit : Bool → ℕ
bit b = if b then 1 else 0

-- The goroutines that hold the semaphore.
abbrev pub holds : Worker → ℕ
holds finishing = 0
holds w = 1

-- The goroutines whose host is not counted yet.
abbrev pub uncounted : Worker → ℕ
uncounted (dialing a) = 1
uncounted (sending a) = 1
uncounted (counting a) = 1
uncounted w = 0

-- The goroutines that are still to call back with a number that passes `q`.
abbrev pub to_report : (ℕ → Bool) → Worker → ℕ
to_report q (reporting d) = bit (q d)
to_report q w = 0

-- The numbers from 1 to n.
abbrev pub numbers : ℕ → List ℕ
numbers zero = []
numbers (suc n) = suc n ∷ numbers n

pub count_if-append {ℓ} :
    {A : Type ℓ} (q : A → Bool) (xs ys : List A)
    → count_if q (xs ++ ys) ≡ count_if q xs + count_if q ys
count_if-append q [] ys = omega arith
count_if-append q (x ∷ xs) ys = ground (arith, count_if-append q xs ys)

pub count_if-cons {ℓ} :
    {A : Type ℓ} (q : A → Bool) (x : A) (xs : List A)
    → count_if q (x ∷ xs) ≡ bit (q x) + count_if q xs
count_if-cons q x xs = ground arith

pub numbers-add_one :
    (r : ℕ → Bool) (n : ℕ) → count_if r (numbers (n + 1)) ≡ bit (r (n + 1)) + count_if r (numbers n)
numbers-add_one r n =
    let e : n + 1 ≡ suc n = omega arith in rw e (count_if-cons r (suc n) (numbers n))
