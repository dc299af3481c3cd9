-- ===== src/Pipeline/Batches/Ends.antt =====
-- Stage2 is never stuck, and each of its steps brings it nearer to its end.
use rain_scanner.Base.{
  ℕ, ◌+◌, ◌*◌, ◌<◌, ◌≤◌, ◌≡◌, refl, ap, List, [], ◌∷◌, ◌++◌, length, length-append, if◌then◌else◌,
  arith, ◌⊎◌, inl, inr, Bool-cases,
}
use rain_scanner.IpRange.Netip.{Netip}
use rain_scanner.Xray.Batch.{BatchItem}
use rain_scanner.Xray.Probe.{TestResult}
use rain_scanner.Pipeline.{Endpoint, parsed, items_of}
use rain_scanner.Pipeline.Batches.{
  Action, appends, counts, reports, probes, Phase, launching, draining, returned, Stage, begun,
  settled, Step, launches, stops, ends, returns, adds, increments, calls, tests, aborts, exits,
  cancels,
}
use rain_scanner.Pipeline.Batches.Weights.{
  weigh, weigh_all, weigh-append, weigh_all-moved, weigh_all-ended,
}

module _ (np : Netip) (test : List BatchItem → List TestResult) where
  -- The steps that an action may still take.
  unfoldable pub cost : Action → ℕ
  cost (appends e) = 1
  cost counts = 2
  cost (reports d) = 1
  cost (probes b) = 3 * length b + 1

  length-parsed-le : (b : List Endpoint) → length (parsed np test b) ≤ length b
  length-parsed-le [] = omega arith
  length-parsed-le (ep ∷ eps) = ground (arith, length-parsed-le eps)

  begun-cost :
      (b eps : List Endpoint) → weigh cost (begun np b eps) ≤ 2 * length eps + (3 * length b + 1)
  unfolding weigh cost
  begun-cost b [] = omega arith
  begun-cost b (ep ∷ eps) = ground (arith, begun-cost b eps)

  settled-cost :
      (eps : List Endpoint) (trs : List TestResult)
      → weigh cost (settled np test eps trs) ≤ 3 * length eps
  unfolding weigh cost settled
  settled-cost [] trs = omega arith
  settled-cost (ep ∷ eps) [] = omega arith
  settled-cost (ep ∷ eps) (tr ∷ trs) = ground (arith, settled-cost eps trs)

  -- Of a batch that no goroutine has begun on.
  unfoldable pub costs : List (List Endpoint) → ℕ
  costs [] = 0
  costs (b ∷ bs) = 5 * length b + 3 + costs bs

  abbrev pub phase_cost : Phase → ℕ
  phase_cost launching = 2
  phase_cost draining = 1
  phase_cost returned = 0

  -- A bound on the steps that are left.
  unfoldable pub measure : Stage → ℕ
  measure p =
      weigh_all cost p.workers
      + length p.workers
      + costs p.left
      + (phase_cost p.phase + (if p.cancelled then 0 else 1))

  module _ (capacity total : ℕ) where
    length_moved :
        (p : Stage) (before behind : List (List Action)) (old new : List Action)
        → p.workers ≡ before ++ old ∷ behind
        → length (before ++ new ∷ behind) ≡ length p.workers
    length_moved p before behind old new at =
        rw at
          (omega (arith, length-append before (old ∷ behind), length-append before (new ∷ behind)))

    tested :
        (p : Stage) (before behind : List (List Action)) (b : List Endpoint) (acts : List Action)
        (trs : List TestResult)
        → p.workers ≡ before ++ (probes b ∷ acts) ∷ behind
        → measure (record p {
          workers = before ++ (settled np test (parsed np test b) trs ++ acts) ∷ behind;
        })
          < measure p
    unfolding measure weigh cost
    tested p before behind b acts trs at =
        let new : List Action = settled np test (parsed np test b) trs in
        omega (
          arith,
          weigh_all-moved cost p before behind (probes b ∷ acts) (new ++ acts) at,
          length_moved p before behind (probes b ∷ acts) (new ++ acts) at,
          weigh-append cost new acts,
          settled-cost (parsed np test b) trs,
          length-parsed-le b,
        )

    Step-measure : {a b : Stage} → Step np test capacity total a b → measure b < measure a
    unfolding measure weigh weigh_all cost costs
    Step-measure (launches p b bs phase left _) = omega (arith, ap costs left, begun-cost b b)
    Step-measure (stops p phase _) = omega (arith, ap phase_cost phase)
    Step-measure (ends p phase _) = omega (arith, ap phase_cost phase)
    Step-measure (returns p phase _) = omega (arith, ap phase_cost phase)
    Step-measure (adds p before behind e acts at) = omega (
      arith,
      weigh_all-moved cost p before behind (appends e ∷ acts) acts at,
      length_moved p before behind (appends e ∷ acts) acts at,
    )
    Step-measure (increments p before behind acts at) = omega (
      arith,
      weigh_all-moved cost p before behind (counts ∷ acts) (reports (p.done + 1) ∷ acts) at,
      length_moved p before behind (counts ∷ acts) (reports (p.done + 1) ∷ acts) at,
    )
    Step-measure (calls p before behind d acts at) = omega (
      arith,
      weigh_all-moved cost p before behind (reports d ∷ acts) acts at,
      length_moved p before behind (reports d ∷ acts) acts at,
    )
    Step-measure (tests p before behind b acts at _) =
        tested p before behind b acts (test (items_of np test b)) at
    Step-measure (aborts p before behind b acts trs at _) = tested p before behind b acts trs at
    Step-measure (exits p before behind at) = omega (
      arith,
      weigh_all-ended cost p before behind at,
      ap length at,
      length-append before behind,
      length-append before ([] ∷ behind),
    )
    Step-measure (cancels p live) = ground (arith, live)

    unfoldable pub Next : Stage → Type 0
    Next p = (p' : Stage) × Step np test capacity total p p' × (p'.cancelled ≡ p.cancelled)

    -- The first statement of a goroutine that is there.
    works :
        (p : Stage) (acts : List Action) (behind : List (List Action))
        → p.workers ≡ acts ∷ behind
        → Next p
    unfolding Next
    works p [] behind at = (_, exits p [] behind at, refl)
    works p (appends e ∷ acts) behind at = (_, adds p [] behind e acts at, refl)
    works p (counts ∷ acts) behind at = (_, increments p [] behind acts at, refl)
    works p (reports d ∷ acts) behind at = (_, calls p [] behind d acts at, refl)
    works p (probes b ∷ acts) behind at = elim (Bool-cases p.cancelled) [
      | inl dead ↦ (_, aborts p [] behind b acts [] at dead, refl)
      | inr live ↦ (_, tests p [] behind b acts at live, refl)
    ]

    launches-Next :
        (p : Stage) (left : List (List Endpoint))
        → 0 < capacity
        → p.phase ≡ launching
        → p.workers ≡ []
        → p.left ≡ left
        → Next p
    unfolding Next
    launches-Next p [] some_slot phase idle e = (_, ends p phase e, refl)
    launches-Next p (b ∷ bs) some_slot phase idle e =
        (_, launches p b bs phase e (omega (arith, ap length idle)), refl)

    idle-Next :
        (p : Stage) (phase : Phase)
        → 0 < capacity
        → p.workers ≡ []
        → p.phase ≡ phase
        → (p.phase ≡ returned) ⊎ Next p
    unfolding Next
    idle-Next p launching some_slot idle e = inr (launches-Next p p.left some_slot e idle refl)
    idle-Next p draining some_slot idle e = inr (_, returns p e idle, refl)
    idle-Next p returned some_slot idle e = inl e

    workers-Next :
        (p : Stage) (workers : List (List Action))
        → 0 < capacity
        → p.workers ≡ workers
        → (p.phase ≡ returned) ⊎ Next p
    workers-Next p [] some_slot e = idle-Next p p.phase some_slot e refl
    workers-Next p (acts ∷ behind) some_slot e = inr (works p acts behind e)

    -- Stage2 returns, however its goroutines are scheduled, if it may run one at all: a stage that has not returned has a step
    -- to take that is no cancellation, and every step, a cancellation included, lowers a number.
    pub stage2_ends :
        (p : Stage)
        → 0 < capacity
        → ((p.phase ≡ returned) ⊎ Next p)
          × ((p' : Stage) → Step np test capacity total p p' → measure p' < measure p)
    stage2_ends p some_slot =
        (workers-Next p p.workers some_slot refl, λ p' step. Step-measure step)
