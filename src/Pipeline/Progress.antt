-- ===== src/Pipeline/Progress.antt =====
-- The progress events of the two stages: which counts are passed on, and what all passes of stage1 together pass on.
use rain_scanner.Base.{
  ℕ, zero, suc, ◌+◌, ◌*◌, ◌/◌, ◌%◌, ◌≡◌, ◌≤◌, ◌<◌, refl, ap, sym, ◌∙◌, Bool, true, false, ◌||◌,
  ◌&&◌, List, [], ◌∷◌, ◌++◌, if◌then◌else◌, map, keep, count_if, arith, length, ltb, ◌==◌, All, leb,
  lt→ltb, ge→ltb, Bool-cases, inl, inr, ==_iff, ◌↔◌, &&_parts,
}
use native.Mathlib.Nat.{
  div-add-mod', mod-lt, suc-mod, mod-eq_of_lt, le-div_iff_mul-le, div-lt_iff_lt-mul, div-one,
}
use native.Mathlib.Decide.{dec_lt}
use rain_scanner.IpRange.Addr.{Addr}
use rain_scanner.Scan.Pool.{Pool, closed, start, Run}
use rain_scanner.Scan.Pool.Invariant.{received_complete}
use rain_scanner.Scan.Pool.Weights.{numbers, count_if-append}

-- The step of both stages: one hundredth of the total, at least 1.
unfoldable pub step_of : ℕ → ℕ
step_of total = let s = total / 100 in if ltb s 1 then 1 else s

-- Whether a count is passed on.
unfoldable pub ticks : ℕ → ℕ → Bool
unfolding step_of
ticks total d = d == total || d % step_of total == 0

-- The events of stage1, from an offset on: for each pass over a port the numbers that the sweep calls back with.
unfoldable pub stage1_events : ℕ → ℕ → ℕ → List (List ℕ) → List ℕ
stage1_events total hosts offset [] = []
stage1_events total hosts offset (calls ∷ passes) =
    keep (ticks total) (map (λ d. offset + d) calls)
    ++ stage1_events total hosts (offset + hosts) passes

-- A sweep called back once with each number from 1 to `n`, in some order.
abbrev pub Counted : ℕ → List ℕ → Type 0
Counted n calls = (r : ℕ → Bool) → count_if r calls ≡ count_if r (numbers n)

numbers-add :
    (r : ℕ → Bool) (m n : ℕ)
    → count_if r (numbers (m + n)) ≡ count_if r (numbers m) + count_if (λ d. r (m + d)) (numbers n)
numbers-add r m zero = let e : m + 0 ≡ m = omega arith in rw e (omega arith)
numbers-add r m (suc n) =
    let e : m + suc n ≡ suc (m + n) = omega arith in
    rw e (ground (arith, numbers-add r m n, ap r e))

count_if-keep-map :
    (r p : ℕ → Bool) (k : ℕ) (xs : List ℕ)
    → count_if r (keep p (map (λ d. k + d) xs)) ≡ count_if (λ d. p (k + d) && r (k + d)) xs
count_if-keep-map r p k [] = refl
count_if-keep-map r p k (x ∷ xs) = ground (arith, count_if-keep-map r p k xs)

count_if-stage1_events :
    (total hosts : ℕ) (r : ℕ → Bool) (offset : ℕ) (passes : List (List ℕ))
    → All (Counted hosts) passes
    → count_if (λ d. ticks total d && r d) (numbers offset)
        + count_if r (stage1_events total hosts offset passes)
      ≡ count_if (λ d. ticks total d && r d) (numbers (offset + hosts * length passes))
unfolding stage1_events
count_if-stage1_events total hosts r offset [] h =
    let e : offset + hosts * 0 ≡ offset = omega arith in rw e (omega arith)
count_if-stage1_events total hosts r offset (calls ∷ passes) h =
    let q = λ (d : ℕ). ticks total d && r d in
    let here =
      count_if-append r (keep (ticks total) (map (λ d. offset + d) calls))
        (stage1_events total hosts (offset + hosts) passes) in
    let this = count_if-keep-map r (ticks total) offset calls ∙ h.0 (λ d. q (offset + d)) in
    let rest = count_if-stage1_events total hosts r (offset + hosts) passes h.1 in
    let last : offset + hosts * suc (length passes) ≡ offset + hosts + hosts * length passes =
      grind arith in
    rw last (omega (arith, here, this, rest, numbers-add q offset hosts))

-- There are at most n / k multiples of k among the numbers from 1 to n.
count_multiples-le : (k n : ℕ) → 0 < k → count_if (λ d. d % k == 0) (numbers n) ≤ n / k
count_multiples-le k zero h = omega arith
count_multiples-le k (suc n) h =
    let parts = div-add-mod' n k in
    let below : n % k < k = mod-lt n h in
    let before = count_multiples-le k n h in
    elim (Bool-cases (suc n % k == 0)) [
      | inl divides ↦
          let none_left : suc (n % k) ≡ k = round n k h ((==_iff (suc n % k) 0).0 divides) in
          let whole : n / k * k + k ≤ suc n = omega (arith, parts, none_left) in
          let more : suc (n / k) ≤ suc n / k = (le-div_iff_mul-le h).1 (grind (arith, whole)) in
          rw divides (omega (arith, before, more))
      | inr other ↦
          let more : n / k ≤ suc n / k = (le-div_iff_mul-le h).1 (omega (arith, parts)) in
          rw other (omega (arith, before, more))
    ]
  where
    round : (n k : ℕ) → 0 < k → suc n % k ≡ 0 → suc (n % k) ≡ k
    round n k h e = elim (dec_lt (suc (n % k)) k) [
      | yes small ↦ absurd (omega (arith, suc-mod n k, mod-eq_of_lt small, e))
      | no large ↦ omega (arith, large, mod-lt n h)
    ]

step_bounds : (total : ℕ) → (0 < step_of total) × (total / step_of total ≤ 199)
unfolding step_of
step_bounds total = elim (dec_lt (total / 100) 1) [
  | yes small ↦ rw (lt→ltb _ _ small) (omega arith, omega (arith, div-one total))
  | no large ↦ rw (ge→ltb (total / 100) 1 (omega arith)) (
    omega arith,
    let bound : total < 200 * (total / 100) = omega arith in
        omega (arith, (div-lt_iff_lt-mul {k = total / 100} {y = 200} (omega arith)).1 bound),
  )
]

count_if-||-le :
    (p q : ℕ → Bool) (xs : List ℕ) → count_if (λ d. p d || q d) xs ≤ count_if p xs + count_if q xs
count_if-||-le p q [] = omega arith
count_if-||-le p q (x ∷ xs) = ground (arith, count_if-||-le p q xs)

abbrev found : ℕ → ℕ → ℕ
found m n = if ltb 0 m && leb m n then 1 else 0

-- Among the numbers from 1 to n, those that equal m.
count_equal : (m n : ℕ) → count_if (λ d. d == m) (numbers n) ≡ found m n
count_equal m zero = ground arith
count_equal m (suc n) = ground (arith, count_equal m n)

count_if-le {ℓ} :
    {A : Type ℓ} (p q : A → Bool) (xs : List A)
    → ((x : A) → p x ≡ true → q x ≡ true)
    → count_if p xs ≤ count_if q xs
count_if-le p q [] h = omega arith
count_if-le p q (x ∷ xs) h = ground (arith, h x, count_if-le p q xs h)

pub count_if-all {ℓ} : {A : Type ℓ} (xs : List A) → count_if (λ _. true) xs ≡ length xs
count_if-all [] = refl
count_if-all (x ∷ xs) = omega (arith, count_if-all xs)

ticks-le : (total : ℕ) → count_if (ticks total) (numbers total) ≤ 200
unfolding ticks
ticks-le total =
    let (positive, few) = step_bounds total in
    omega (
      arith,
      count_if-||-le (λ d. d == total) (λ d. d % step_of total == 0) (numbers total),
      count_equal total total,
      last total,
      count_multiples-le (step_of total) total positive,
      few,
    )
  where
    last : (m : ℕ) → found m m ≤ 1
    last m = ground arith

ticks_total : (total d : ℕ) → ((ticks total d && (d == total)) ≡ true) ↔ ((d == total) ≡ true)
unfolding ticks
ticks_total total d = ground arith

-- Of the numbers from 1 to the total, at most 200 are passed on, and the total itself is.
pub events-le : (total : ℕ) → count_if (λ d. ticks total d && true) (numbers total) ≤ 200
events-le total = omega (
  arith,
  count_if-le (λ d. ticks total d && true) (ticks total) (numbers total)
      (λ d t. (&&_parts (ticks total d) true t).0),
  ticks-le total,
)

pub events_end :
    (total : ℕ) → 0 < total → count_if (λ d. ticks total d && (d == total)) (numbers total) ≡ 1
events_end total some_left = omega (
  arith,
  count_if-le (λ d. ticks total d && (d == total)) (λ d. d == total) (numbers total)
      (λ d. (ticks_total total d).0),
  count_if-le (λ d. d == total) (λ d. ticks total d && (d == total)) (numbers total)
      (λ d. (ticks_total total d).1),
  count_equal total total,
  one total some_left,
)
  where
    one : (m : ℕ) → 0 < m → found m m ≡ 1
    one m h = ground arith

-- The calls of one pass: a sweep of the hosts, in any interleaving, that is over and was not cancelled.
pub record Swept (capacity : ℕ) (hosts : List Addr) (calls : List ℕ) : Type 0 where
  pub reachable : Addr → Bool
  pub steps : ℕ
  pub last : Pool
  pub run : Run reachable capacity (start hosts) steps last
  pub over : last.phase ≡ closed
  pub received : last.shared.queue ≡ []
  pub running : last.shared.cancelled ≡ false
  pub called : last.shared.reported ≡ calls

Swept-Counted :
    (capacity : ℕ) (hosts : List Addr) (passes : List (List ℕ))
    → All (Swept capacity hosts) passes
    → All (Counted (length hosts)) passes
Swept-Counted capacity hosts [] h = tt
Swept-Counted capacity hosts (calls ∷ passes) h =
    let s = h.0 in
    let done =
      received_complete s.reachable capacity hosts s.steps s.last s.run s.over s.received
        s.running in
    (λ r. ap (count_if r) (sym s.called) ∙ done.2 r, Swept-Counted capacity hosts passes h.1)

-- The progress of stage1 over all its ports, in every interleaving of sweeps that nobody cancels: the caller gets at
-- most 200 events, however many candidates there are, and exactly one of them says that all are done, if there
-- are any.
pub length-stage1_events :
    (capacity : ℕ) (hosts : List Addr) (passes : List (List ℕ)) (total : ℕ)
    → total ≡ length hosts * length passes
    → 0 < total
    → All (Swept capacity hosts) passes
    → (length (stage1_events total (length hosts) 0 passes) ≤ 200)
      × (count_if (λ d. d == total) (stage1_events total (length hosts) 0 passes) ≡ 1)
length-stage1_events capacity hosts passes total e some_left h =
    let counted = Swept-Counted capacity hosts passes h in
    let sums = λ (r : ℕ → Bool). count_if-stage1_events total (length hosts) r 0 passes counted in
    let e' : total ≡ 0 + length hosts * length passes = omega (arith, e) in
    let end = λ (r : ℕ → Bool). ap (λ k. count_if (λ d. ticks total d && r d) (numbers k)) e' in
    let events = stage1_events total (length hosts) 0 passes in
    (
      omega (arith, count_if-all events, sums (λ _. true), end (λ _. true), events-le total),
      omega (arith, sums (λ d. d == total), end (λ d. d == total), events_end total some_left),
    )
