-- ===== src/Xray/Probe/Laws.antt =====
-- The fail-fast loop and the verdict of probeEndpoint.
use rain_scanner.Base.{
  ℕ, zero, suc, ◌+◌, ◌-◌, ◌/◌, ◌≤◌, ◌<◌, ◌≡◌, refl, Bool, true, false, List, [], ◌∷◌, ◌++◌, Option,
  arith, if◌then◌else◌, leb, ltb, length, length-append, All, get_or, is_some, ◌↔◌, Option-cases,
  inl, inr,
}
use rain_scanner.Base.Sorting.{sort_by, sort_by-All, insert_by}
use rain_scanner.IpRange.Addr.{Addr}
use rain_scanner.Xray.Options.{Prober, IsSound}
use rain_scanner.Xray.Probe.{
  Tally, no_tally, measure, measure_all, median, accept, verdict, probe_endpoint,
}

-- The successes among `left` replies from the i-th on: what a loop that never stops early would count.
abbrev pub successes_from : (ℕ → Option ℕ) → ℕ → ℕ → ℕ
successes_from reply i zero = 0
successes_from reply i (suc left) =
    let rest = successes_from reply (i + 1) left in if is_some (reply i) then rest + 1 else rest

successes_from-le : (reply : ℕ → Option ℕ) (i left : ℕ) → successes_from reply i left ≤ left
successes_from-le reply i zero = omega arith
successes_from-le reply i (suc left) = ground (arith, successes_from-le reply (i + 1) left)

module _ (confirm max_fails : ℕ) (reply : ℕ → Option ℕ) where
  abbrev pub never : ℕ → Bool
  never i = false

  -- With no cancellation, the loop that stops early decides as the full count does.
  pub measure_all-decides :
      (left i : ℕ) (t : Tally)
      → length t.lats + t.fails + left ≡ confirm + max_fails
      → t.fails ≤ max_fails
      → leb confirm (length (measure_all confirm max_fails never reply left i t).lats)
        ≡ leb confirm (length t.lats + successes_from reply i left)
  unfolding measure_all measure
  measure_all-decides zero i t a b = ground arith
  measure_all-decides (suc left) i t a b = elim (Option-cases (reply i)) [
    | inl e ↦ rw e (
        ground (
          arith,
          measure_all-decides left (i + 1)
              (record t { fails = t.fails + 1; attempts = t.attempts + 1 }),
          successes_from-le reply (i + 1) left,
        ))
    | inr (d, e) ↦ rw e (
        ground (
          arith,
          measure_all-decides left (i + 1)
              (record t { lats = t.lats ++ d ∷ []; attempts = t.attempts + 1 }),
          length-append t.lats (d ∷ []),
        ))
  ]

-- Each latency of the sorted list is within the bounds of the list.
get_or-All : (P : ℕ → Type 0) (ds : List ℕ) (i d : ℕ) → All P ds → i < length ds → P (get_or ds i d)
get_or-All P [] i d h lt = absurd (omega arith)
get_or-All P (x ∷ ds) zero d h lt = h.0
get_or-All P (x ∷ ds) (suc i) d h lt = get_or-All P ds i d h.1 (omega arith)

length-insert_by : (x : ℕ) (l : List ℕ) → length (insert_by ltb x l) ≡ suc (length l)
unfolding insert_by
length-insert_by x [] = refl
length-insert_by x (y ∷ l) = ground (arith, length-insert_by x l)

length-sort_by : (ds : List ℕ) → length (sort_by ltb ds) ≡ length ds
unfolding sort_by
length-sort_by [] = refl
length-sort_by (d ∷ ds) = omega (arith, length-insert_by d (sort_by ltb ds), length-sort_by ds)

-- The median of a list that is not empty lies between any bounds that all its elements keep.
pub median-between :
    (ds : List ℕ) (low high : ℕ)
    → 0 < length ds
    → All (λ d. (low ≤ d) × (d ≤ high)) ds
    → (low ≤ median ds) × (median ds ≤ high)
unfolding median
median-between ds low high some_d h =
    let In : ℕ → Type 0 = λ d. (low ≤ d) × (d ≤ high) in
    let s = sort_by ltb ds in
    let n = length s in
    let sorted = sort_by-All ltb In ds h in
    let size = length-sort_by ds in
    let a = get_or-All In s (n / 2) 0 sorted (grind (arith, size)) in
    let b = get_or-All In s (n / 2 - 1) 0 sorted (grind (arith, size)) in grind (arith, a, b, size)

-- What holds of the loop's variables in every round.
abbrev pub Counts : ℕ → ℕ → Tally → Type 0
Counts confirm attempts t =
    (length t.lats + t.fails ≡ t.attempts) × (t.attempts ≤ attempts) × (length t.lats ≤ confirm)

measure_all-Counts :
    (confirm max_fails : ℕ) (cancelled : ℕ → Bool) (reply : ℕ → Option ℕ) (left i : ℕ) (t : Tally)
    → Counts confirm i t
    → length t.lats < confirm
    → Counts confirm (i + left) (measure_all confirm max_fails cancelled reply left i t)
unfolding measure_all measure
measure_all-Counts confirm max_fails cancelled reply zero i t h lt = ground arith
measure_all-Counts confirm max_fails cancelled reply (suc left) i t h lt =
    elim (Option-cases (reply i)) [
      | inl e ↦ rw e (
          ground (
            arith,
            measure_all-Counts confirm max_fails cancelled reply left (i + 1)
                (record t { fails = t.fails + 1; attempts = t.attempts + 1 }),
          ))
      | inr (d, e) ↦ rw e (
          ground (
            arith,
            measure_all-Counts confirm max_fails cancelled reply left (i + 1)
                (record t { lats = t.lats ++ d ∷ []; attempts = t.attempts + 1 }),
            length-append t.lats (d ∷ []),
          ))
    ]

-- Whatever the replies and whenever the caller cancels, a probe of a candidate makes at most the configured
-- number of requests and reports at most as many successes as requests, and never more than it needs.
pub probe_endpoint-bounds :
    (p : Prober) (a : Addr) (cancelled : ℕ → Bool) (reply : ℕ → Option ℕ)
    → IsSound p
    → let r = probe_endpoint p a cancelled reply in
      (r.total ≤ p.probes) × (r.successes ≤ r.total) × (r.successes ≤ p.confirm)
unfolding probe_endpoint verdict
probe_endpoint-bounds p a cancelled reply sound =
    let low = sound.confirm_low in
    ground (
      arith,
      measure_all-Counts p.confirm (p.probes - p.confirm) cancelled reply p.probes 0 no_tally
          (omega arith) low,
    )

measure_all-running :
    (confirm max_fails : ℕ) (reply : ℕ → Option ℕ) (left i : ℕ) (t : Tally)
    → t.stopped ≡ false
    → (measure_all confirm max_fails (λ _. false) reply left i t).stopped ≡ false
unfolding measure_all measure
measure_all-running confirm max_fails reply zero i t h = h
measure_all-running confirm max_fails reply (suc left) i t h = elim (Option-cases (reply i)) [
  | inl e ↦ rw e (
      ground (
        arith,
        measure_all-running confirm max_fails reply left (i + 1)
            (record t { fails = t.fails + 1; attempts = t.attempts + 1 }),
      ))
  | inr (d, e) ↦ rw e (
      ground (
        arith,
        measure_all-running confirm max_fails reply left (i + 1)
            (record t { lats = t.lats ++ d ∷ []; attempts = t.attempts + 1 }),
      ))
]

-- The accept rule of a probe that nobody cancels: it passes exactly when at least Confirm of all the Probes
-- replies are successes, also of those that the early exit never asks for, and the median of the measured
-- latencies is positive and within the budget.
pub probe_endpoint-passed :
    (p : Prober) (a : Addr) (reply : ℕ → Option ℕ)
    → IsSound p
    → let r = probe_endpoint p a (λ _. false) reply in
      (r.passed ≡ true) ↔ (
        (p.confirm ≤ successes_from reply 0 p.probes) × (0 < r.median) × (r.median ≤ p.max_latency))
unfolding probe_endpoint verdict accept
probe_endpoint-passed p a reply sound =
    let max_fails = p.probes - p.confirm in
    let high = sound.confirm_high in
    ground (
      arith,
      measure_all-running p.confirm max_fails reply p.probes 0 no_tally refl,
      measure_all-decides p.confirm max_fails reply p.probes 0 no_tally (omega arith) (omega arith),
    )
