-- ===== src/Pipeline/Batches/Complete.antt =====
-- What stage2 gives when its goroutines have ended and nobody cancelled it, in every interleaving.
use rain_scanner.Base.{
  ℕ, ◌<◌, ◌≤◌, ◌≡◌, ◌≢◌, refl, ap, ◌∙◌, Bool, true, false, List, [], ◌∷◌, ◌++◌, length,
  length-append, count_if, arith, keep, ℤ, ◌&&◌, ◌==◌,
}
use rain_scanner.IpRange.Netip.{Netip}
use rain_scanner.Xray.Batch.{BatchItem}
use rain_scanner.Xray.Probe.{TestResult}
use rain_scanner.Output.{Entry}
use rain_scanner.Scan.Pool.Weights.{numbers}
use rain_scanner.Pipeline.{Endpoint, confirm_all, chunk_endpoints, stage2}
use rain_scanner.Pipeline.Chunks.{concat, chunk_endpoints_lem}
use rain_scanner.Pipeline.Progress.{ticks, events-le, events_end, count_if-all}
use rain_scanner.Pipeline.Batches.{
  launching, returned, Stage, start, Step, launches, stops, ends, returns, adds, increments, calls,
  tests, aborts, exits, cancels, Steps, here, next,
}
use rain_scanner.Pipeline.Batches.Weights.{weigh_all}
use rain_scanner.Pipeline.Batches.Entries.{entry_weight, Live, Step-Live}
use rain_scanner.Pipeline.Batches.Counts.{
  IsAligned, sizes, count_weight, report_weight, Counted, Step-Counted, Reported, Step-Reported,
}

no_middle :
    {A : Type 0} (xs : List A) (before behind : List A) (x : A)
    → xs ≡ []
    → xs ≢ before ++ x ∷ behind
no_middle xs [] behind x e at = cc
no_middle xs (b ∷ before) behind x e at = cc

-- The loop over the batches is over only when none is left or the context is cancelled, and stage2 returns when no goroutine
-- is there.
abbrev AllLaunched : Stage → Type 0
AllLaunched p = p.phase ≢ launching → p.cancelled ≡ false → p.left ≡ []

abbrev AllEnded : Stage → Type 0
AllEnded p = p.phase ≡ returned → p.workers ≡ []

module _ (np : Netip) (test : List BatchItem → List TestResult) (capacity total : ℕ) where
  Step-AllLaunched : {a b : Stage} → Step np test capacity total a b → AllLaunched a → AllLaunched b
  Step-AllLaunched (launches p b bs phase left _) v other live = absurd (other phase)
  Step-AllLaunched (stops p _ dead) v other live = cc
  Step-AllLaunched (ends p _ left) v other live = left
  Step-AllLaunched (returns p phase _) v other live = v (λ e. cc) live
  Step-AllLaunched (adds p before behind e acts at) v other live = v other live
  Step-AllLaunched (increments p before behind acts at) v other live = v other live
  Step-AllLaunched (calls p before behind d acts at) v other live = v other live
  Step-AllLaunched (tests p before behind b acts at _) v other live = v other live
  Step-AllLaunched (aborts p before behind b acts trs at _) v other live = v other live
  Step-AllLaunched (exits p before behind at) v other live = v other live
  Step-AllLaunched (cancels p _) v other live = cc

  Step-AllEnded : {a b : Stage} → Step np test capacity total a b → AllEnded a → AllEnded b
  Step-AllEnded (launches p b bs phase left _) v over = cc
  Step-AllEnded (stops p _ dead) v over = cc
  Step-AllEnded (ends p _ left) v over = cc
  Step-AllEnded (returns p phase none_left) v over = none_left
  Step-AllEnded (adds p before behind e acts at) v over =
      absurd (no_middle _ before behind _ (v over) at)
  Step-AllEnded (increments p before behind acts at) v over =
      absurd (no_middle _ before behind _ (v over) at)
  Step-AllEnded (calls p before behind d acts at) v over =
      absurd (no_middle _ before behind _ (v over) at)
  Step-AllEnded (tests p before behind b acts at _) v over =
      absurd (no_middle _ before behind _ (v over) at)
  Step-AllEnded (aborts p before behind b acts trs at _) v over =
      absurd (no_middle _ before behind _ (v over) at)
  Step-AllEnded (exits p before behind at) v over = absurd (no_middle _ before behind _ (v over) at)
  Step-AllEnded (cancels p _) v over = v over

  -- What holds of a stage that began with the batches.
  pub record Holds (batches : List (List Endpoint)) (p : Stage) : Type 0 where
    pub launched : AllLaunched p
    pub ended : AllEnded p
    pub added : (q : Entry → Bool) → Live np test capacity total batches q p
    pub counted : (aligned : IsAligned np test) → Counted np test aligned capacity total batches p
    pub called : (r : ℕ → Bool) → Reported np test capacity total r p

  start-Holds : (batches : List (List Endpoint)) → Holds batches (start batches)
  unfolding start weigh_all
  start-Holds batches = record {
    launched = λ other live. absurd (other refl);
    ended = λ over. cc;
    added = λ q live. omega arith;
    counted = λ aligned live. omega arith;
    called = λ r. refl;
  }

  Step-Holds :
      (batches : List (List Endpoint)) {a b : Stage}
      → Step np test capacity total a b
      → Holds batches a
      → Holds batches b
  Step-Holds batches step v = record {
    launched = Step-AllLaunched step v.launched;
    ended = Step-AllEnded step v.ended;
    added = λ q. Step-Live np test capacity total batches q step (v.added q);
    counted =
        λ aligned. Step-Counted np test aligned capacity total batches step (v.counted aligned);
    called = λ r. Step-Reported np test capacity total r step (v.called r);
  }

  Steps-Holds :
      (batches : List (List Endpoint)) (p : Stage)
      → Steps np test capacity total (start batches) p
      → Holds batches p
  Steps-Holds batches _ here = start-Holds batches
  Steps-Holds batches _ (next b c steps step) =
      Step-Holds batches step (Steps-Holds batches b steps)

-- When stage2 has returned and nobody cancelled it: what is there is what the batches stand for.
stage2_complete :
    (np : Netip) (test : List BatchItem → List TestResult) (capacity total : ℕ)
    (batches : List (List Endpoint)) (p : Stage)
    → IsAligned np test
    → Steps np test capacity total (start batches) p
    → p.phase ≡ returned
    → p.cancelled ≡ false
    → ((q : Entry → Bool) → count_if q p.entries ≡ count_if q (confirm_all np test batches))
      × (p.done ≡ sizes np test batches)
      × ((r : ℕ → Bool)
          → count_if r p.reported
            ≡ count_if r (keep (ticks total) (numbers (sizes np test batches))))
unfolding weigh_all sizes
stage2_complete np test capacity total batches p aligned steps over live =
    let v = Steps-Holds np test capacity total batches p steps in
    let no_workers : p.workers ≡ [] = v.ended over in
    let no_batches : p.left ≡ [] = v.launched (λ e. cc) live in
    let counted : p.done ≡ sizes np test batches = omega (
      arith,
      v.counted aligned live,
      ap (weigh_all (count_weight np test)) no_workers,
      ap (sizes np test) no_batches,
    ) in
    (
      (λ q. omega (
        arith,
        v.added q live,
        ap (weigh_all (entry_weight np test q)) no_workers,
        ap (λ l. count_if q (confirm_all np test l)) no_batches,
      )),
      counted,
      (λ r. omega (
        arith,
        v.called r,
        ap (weigh_all (report_weight np test total r)) no_workers,
        ap (λ n. count_if r (keep (ticks total) (numbers n))) counted,
      )),
    )

sizes-concat :
    (np : Netip) (test : List BatchItem → List TestResult) (batches : List (List Endpoint))
    → sizes np test batches ≡ length (concat batches)
unfolding sizes
sizes-concat np test [] = refl
sizes-concat np test (b ∷ bs) = omega (arith, length-append b (concat bs), sizes-concat np test bs)

count_if-keep :
    (r p : ℕ → Bool) (xs : List ℕ) → count_if r (keep p xs) ≡ count_if (λ d. p d && r d) xs
count_if-keep r p [] = refl
count_if-keep r p (x ∷ xs) = ground (arith, count_if-keep r p xs)

-- In every interleaving of the goroutines of stage2 over one or more candidates, when it has returned and nobody
-- cancelled it, and TestBatch gives a result for each item: the entries are, order aside, those that the batches give
-- one after the other, each as often; every candidate is counted; and the caller got at most 200 progress events,
-- exactly one of which says that all are done.
pub stage2_complete-stage2 :
    (np : Netip) (test : List BatchItem → List TestResult) (capacity : ℕ) (size : ℤ)
    (survivors : List Endpoint) (p : Stage)
    → IsAligned np test
    → 0 < length survivors
    → Steps np test capacity (length survivors) (start (chunk_endpoints survivors size)) p
    → p.phase ≡ returned
    → p.cancelled ≡ false
    → ((q : Entry → Bool) → count_if q p.entries ≡ count_if q (stage2 np test true size survivors))
      × (p.done ≡ length survivors)
      × (length p.reported ≤ 200)
      × (count_if (λ d. d == length survivors) p.reported ≡ 1)
unfolding stage2
stage2_complete-stage2 np test capacity size [] p aligned some_left steps over live =
    absurd (omega (arith, some_left))
stage2_complete-stage2 np test capacity size (s ∷ ss) p aligned some_left steps over live =
    let n : ℕ = length (s ∷ ss) in
    let batches : List (List Endpoint) = chunk_endpoints (s ∷ ss) size in
    let whole : sizes np test batches ≡ n =
      sizes-concat np test batches ∙ ap length (chunk_endpoints_lem (s ∷ ss) size).0 in
    let r = stage2_complete np test capacity n batches p aligned steps over live in
    let events = λ (f : ℕ → Bool).
      r.2 f
      ∙ ap (λ k. count_if f (keep (ticks n) (numbers k))) whole
      ∙ count_if-keep f (ticks n) (numbers n) in
    (
      r.0,
      r.1 ∙ whole,
      omega (arith, count_if-all p.reported, events (λ _. true), events-le n),
      events (λ d. d == n) ∙ events_end n some_left,
    )
