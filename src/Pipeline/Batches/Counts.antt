-- ===== src/Pipeline/Batches/Counts.antt =====
-- What stage2 has counted and reported.
use rain_scanner.Base.{
  ℕ, suc, ◌+◌, ◌≡◌, refl, ap, ◌∙◌, Bool, true, false, List, [], ◌∷◌, ◌++◌, length, count_if,
  if◌then◌else◌, arith, keep,
}
use rain_scanner.IpRange.Netip.{Netip}
use rain_scanner.Xray.Batch.{BatchItem}
use rain_scanner.Xray.Probe.{TestResult}
use rain_scanner.Scan.Pool.Weights.{numbers, count_if-append}
use rain_scanner.Pipeline.{Endpoint, parsed, items_of}
use rain_scanner.Pipeline.Progress.{ticks}
use rain_scanner.Pipeline.Batches.{
  Action, appends, counts, reports, probes, Stage, begun, settled, Step, launches, stops, ends,
  returns, adds, increments, calls, tests, aborts, exits, cancels,
}
use rain_scanner.Pipeline.Batches.Weights.{
  weigh, weigh_all, weigh-append, weigh_all-moved, weigh_all-ended,
}

one_more :
    (total : ℕ) (r : ℕ → Bool) (n : ℕ)
    → count_if r (keep (ticks total) (numbers (n + 1)))
      ≡ (if ticks total (n + 1) then count_if r ((n + 1) ∷ []) else 0)
        + count_if r (keep (ticks total) (numbers n))
one_more total r n = let e : n + 1 ≡ suc n = omega arith in rw e (ground arith)

count_if-if :
    (r : ℕ → Bool) (b : Bool) (d : ℕ)
    → count_if r (if b then d ∷ [] else []) ≡ (if b then count_if r (d ∷ []) else 0)
count_if-if r true d = refl
count_if-if r false d = refl

module _ (np : Netip) (test : List BatchItem → List TestResult) where
  -- TestBatch gives a result for each item
  abbrev pub IsAligned : Type 0
  IsAligned = (items : List BatchItem) → length (test items) ≡ length items

  -- How often an action will count.
  unfoldable pub count_weight : Action → ℕ
  count_weight (appends e) = 0
  count_weight counts = 1
  count_weight (reports d) = 0
  count_weight (probes b) = length (parsed np test b)

  length-parsed : (b : List Endpoint) → length (items_of np test b) ≡ length (parsed np test b)
  length-parsed [] = refl
  length-parsed (ep ∷ eps) = ground (arith, length-parsed eps)

  begun-counts :
      (b eps : List Endpoint)
      → weigh count_weight (begun np b eps) + length (parsed np test eps)
        ≡ length eps + length (parsed np test b)
  unfolding weigh count_weight
  begun-counts b [] = omega arith
  begun-counts b (ep ∷ eps) = ground (arith, begun-counts b eps)

  settled-counts :
      (eps : List Endpoint) (trs : List TestResult)
      → length trs ≡ length eps
      → weigh count_weight (settled np test eps trs) ≡ length eps
  unfolding weigh count_weight settled
  settled-counts [] trs h = refl
  settled-counts (ep ∷ eps) [] h = omega (arith, h)
  settled-counts (ep ∷ eps) (tr ∷ trs) h =
      let same : length trs ≡ length eps = omega (arith, h) in
      ground (arith, settled-counts eps trs same)

  unfoldable pub sizes : List (List Endpoint) → ℕ
  sizes [] = 0
  sizes (b ∷ bs) = length b + sizes bs

  module _ (aligned : IsAligned) (capacity total : ℕ) (batches : List (List Endpoint)) where
    -- The endpoints that are counted, that goroutines will count and that no goroutine has begun on.
    abbrev pub Counted : Stage → Type 0
    Counted p =
        p.cancelled ≡ false
        → p.done + (weigh_all count_weight p.workers + sizes p.left) ≡ sizes batches

    pub Step-Counted : {a b : Stage} → Step np test capacity total a b → Counted a → Counted b
    unfolding weigh weigh_all count_weight sizes
    Step-Counted (launches p b bs _ left _) v live =
        omega (arith, v live, ap sizes left, begun-counts b b)
    Step-Counted (stops p _ _) v live = v live
    Step-Counted (ends p _ _) v live = v live
    Step-Counted (returns p _ _) v live = v live
    Step-Counted (adds p before behind e acts at) v live =
        omega
          (arith, v live, weigh_all-moved count_weight p before behind (appends e ∷ acts) acts at)
    Step-Counted (increments p before behind acts at) v live = omega (
      arith,
      v live,
      weigh_all-moved count_weight p before behind (counts ∷ acts) (reports (p.done + 1) ∷ acts) at,
    )
    Step-Counted (calls p before behind d acts at) v live =
        omega
          (arith, v live, weigh_all-moved count_weight p before behind (reports d ∷ acts) acts at)
    Step-Counted (tests p before behind b acts at _) v live =
        let trs : List TestResult = test (items_of np test b) in
        let new : List Action = settled np test (parsed np test b) trs in
        omega (
          arith,
          v live,
          weigh_all-moved count_weight p before behind (probes b ∷ acts) (new ++ acts) at,
          weigh-append count_weight new acts,
          settled-counts (parsed np test b) trs (aligned (items_of np test b) ∙ length-parsed b),
        )
    Step-Counted (aborts p before behind b acts trs at dead) v live = cc
    Step-Counted (exits p before behind at) v live =
        omega (arith, v live, weigh_all-ended count_weight p before behind at)
    Step-Counted (cancels p _) v live = cc

  -- The calls of the callback that a goroutine has yet to make.
  unfoldable pub report_weight : ℕ → (ℕ → Bool) → Action → ℕ
  report_weight total r (appends e) = 0
  report_weight total r counts = 0
  report_weight total r (reports d) = if ticks total d then count_if r (d ∷ []) else 0
  report_weight total r (probes b) = 0

  begun-reports :
      (total : ℕ) (r : ℕ → Bool) (b eps : List Endpoint)
      → weigh (report_weight total r) (begun np b eps) ≡ 0
  unfolding weigh report_weight
  begun-reports total r b [] = refl
  begun-reports total r b (ep ∷ eps) = ground (arith, begun-reports total r b eps)

  settled-reports :
      (total : ℕ) (r : ℕ → Bool) (eps : List Endpoint) (trs : List TestResult)
      → weigh (report_weight total r) (settled np test eps trs) ≡ 0
  unfolding weigh report_weight settled
  settled-reports total r [] trs = refl
  settled-reports total r (ep ∷ eps) [] = refl
  settled-reports total r (ep ∷ eps) (tr ∷ trs) = ground (arith, settled-reports total r eps trs)

  module _ (capacity total : ℕ) (r : ℕ → Bool) where
    -- The calls that were made and that will be made are those of the numbers up to the count.
    abbrev pub Reported : Stage → Type 0
    Reported p =
        count_if r p.reported + weigh_all (report_weight total r) p.workers
        ≡ count_if r (keep (ticks total) (numbers p.done))

    pub Step-Reported : {a b : Stage} → Step np test capacity total a b → Reported a → Reported b
    unfolding weigh weigh_all report_weight
    Step-Reported (launches p b bs _ left _) v = omega (arith, v, begun-reports total r b b)
    Step-Reported (stops p _ _) v = v
    Step-Reported (ends p _ _) v = v
    Step-Reported (returns p _ _) v = v
    Step-Reported (adds p before behind e acts at) v = omega (
      arith,
      v,
      weigh_all-moved (report_weight total r) p before behind (appends e ∷ acts) acts at,
    )
    Step-Reported (increments p before behind acts at) v = omega (
      arith,
      v,
      weigh_all-moved (report_weight total r) p before behind (counts ∷ acts)
          (reports (p.done + 1) ∷ acts) at,
      one_more total r p.done,
    )
    Step-Reported (calls p before behind d acts at) v = omega (
      arith,
      v,
      weigh_all-moved (report_weight total r) p before behind (reports d ∷ acts) acts at,
      count_if-append r p.reported (if ticks total d then d ∷ [] else []),
      count_if-if r (ticks total d) d,
    )
    Step-Reported (tests p before behind b acts at _) v =
        let new : List Action = settled np test (parsed np test b) (test (items_of np test b)) in
        omega (
          arith,
          v,
          weigh_all-moved (report_weight total r) p before behind (probes b ∷ acts) (new ++ acts)
              at,
          weigh-append (report_weight total r) new acts,
          settled-reports total r (parsed np test b) (test (items_of np test b)),
        )
    Step-Reported (aborts p before behind b acts trs at dead) v =
        let new : List Action = settled np test (parsed np test b) trs in
        omega (
          arith,
          v,
          weigh_all-moved (report_weight total r) p before behind (probes b ∷ acts) (new ++ acts)
              at,
          weigh-append (report_weight total r) new acts,
          settled-reports total r (parsed np test b) trs,
        )
    Step-Reported (exits p before behind at) v =
        omega (arith, v, weigh_all-ended (report_weight total r) p before behind at)
    Step-Reported (cancels p _) v = v
