-- ===== src/Pipeline/Batches/Entries.antt =====
-- The entries that stage2 has and that its goroutines have yet to add.
use rain_scanner.Base.{ℕ, ◌+◌, ◌≡◌, refl, ap, Bool, false, List, [], ◌∷◌, ◌++◌, count_if, arith}
use rain_scanner.IpRange.Netip.{Netip}
use rain_scanner.Xray.Batch.{BatchItem}
use rain_scanner.Xray.Probe.{TestResult}
use rain_scanner.Output.{Entry}
use rain_scanner.Scan.Pool.Weights.{count_if-append}
use rain_scanner.Pipeline.{Endpoint, parsed, items_of, entries_of, confirm_batch, confirm_all}
use rain_scanner.Pipeline.Batches.{
  Action, appends, counts, reports, probes, Stage, begun, settled, Step, launches, stops, ends,
  returns, adds, increments, calls, tests, aborts, exits, cancels,
}
use rain_scanner.Pipeline.Batches.Weights.{
  weigh, weigh_all, weigh-append, weigh_all-moved, weigh_all-ended,
}

module _ (np : Netip) (test : List BatchItem → List TestResult) where
  -- The entries that an action stands for.
  unfoldable pub entry_weight : (Entry → Bool) → Action → ℕ
  entry_weight q (appends e) = count_if q (e ∷ [])
  entry_weight q counts = 0
  entry_weight q (reports d) = 0
  entry_weight q (probes b) = count_if q (confirm_batch np test b)

  begun-entries :
      (q : Entry → Bool) (b eps : List Endpoint)
      → weigh (entry_weight q) (begun np b eps) ≡ count_if q (confirm_batch np test b)
  unfolding weigh entry_weight
  begun-entries q b [] = omega arith
  begun-entries q b (ep ∷ eps) = ground (arith, begun-entries q b eps)

  settled-entries :
      (q : Entry → Bool) (eps : List Endpoint) (trs : List TestResult)
      → weigh (entry_weight q) (settled np test eps trs) ≡ count_if q (entries_of np test eps trs)
  unfolding weigh entry_weight settled entries_of
  settled-entries q [] trs = refl
  settled-entries q (ep ∷ eps) [] = refl
  settled-entries q (ep ∷ eps) (tr ∷ trs) = ground (arith, settled-entries q eps trs)

  confirmed :
      (q : Entry → Bool) (b : List Endpoint)
      → count_if q (entries_of np test (parsed np test b) (test (items_of np test b)))
        ≡ count_if q (confirm_batch np test b)
  unfolding confirm_batch
  confirmed q b = refl

  module _ (capacity total : ℕ) (batches : List (List Endpoint)) where
    -- The entries that are there, that goroutines have yet to add and that no goroutine has begun on.
    abbrev pub Balanced : (Entry → Bool) → Stage → Type 0
    Balanced q p =
        count_if q p.entries
          + (weigh_all (entry_weight q) p.workers + count_if q (confirm_all np test p.left))
        ≡ count_if q (confirm_all np test batches)

    abbrev pub Live : (Entry → Bool) → Stage → Type 0
    Live q p = p.cancelled ≡ false → Balanced q p

    pub Step-Live :
        (q : Entry → Bool) {a b : Stage} → Step np test capacity total a b → Live q a → Live q b
    unfolding weigh weigh_all entry_weight
    Step-Live q (launches p b bs _ left _) v live = omega (
      arith,
      v live,
      ap (λ l. count_if q (confirm_all np test l)) left,
      begun-entries q b b,
      count_if-append q (confirm_batch np test b) (confirm_all np test bs),
    )
    Step-Live q (stops p _ _) v live = v live
    Step-Live q (ends p _ _) v live = v live
    Step-Live q (returns p _ _) v live = v live
    Step-Live q (adds p before behind e acts at) v live = omega (
      arith,
      v live,
      weigh_all-moved (entry_weight q) p before behind (appends e ∷ acts) acts at,
      count_if-append q p.entries (e ∷ []),
    )
    Step-Live q (increments p before behind acts at) v live = omega (
      arith,
      v live,
      weigh_all-moved (entry_weight q) p before behind (counts ∷ acts) (reports (p.done + 1) ∷ acts)
          at,
    )
    Step-Live q (calls p before behind d acts at) v live =
        omega (
          arith,
          v live,
          weigh_all-moved (entry_weight q) p before behind (reports d ∷ acts) acts at,
        )
    Step-Live q (tests p before behind b acts at _) v live =
        let new : List Action = settled np test (parsed np test b) (test (items_of np test b)) in
        omega (
          arith,
          v live,
          weigh_all-moved (entry_weight q) p before behind (probes b ∷ acts) (new ++ acts) at,
          weigh-append (entry_weight q) new acts,
          settled-entries q (parsed np test b) (test (items_of np test b)),
          confirmed q b,
        )
    Step-Live q (aborts p before behind b acts trs at dead) v live = cc
    Step-Live q (exits p before behind at) v live =
        omega (arith, v live, weigh_all-ended (entry_weight q) p before behind at)
    Step-Live q (cancels p _) v live = cc
