-- ===== src/Pipeline/Batches/Tests.antt =====
-- A run of stage2 over one candidate.
use rain_scanner.Base.{
  ℕ, suc, ◌≡◌, ◌≤◌, ◌<◌, ◌⊎◌, refl, ap, Bool, true, false, List, [], ◌∷◌, ◌++◌, length, count_if,
  ◌==◌, ℤ, pos, codes, arith,
}
use rain_scanner.Examples.{two_texts}
use rain_scanner.Xray.Batch.{BatchItem}
use rain_scanner.Xray.Probe.{TestResult, no_error}
use rain_scanner.Output.{Entry}
use rain_scanner.Pipeline.{Endpoint, chunk_endpoints, chunks, stage2}
use rain_scanner.Pipeline.Progress.{ticks, step_of}
use rain_scanner.Pipeline.Batches.{
  Action, appends, counts, reports, probes, launching, draining, returned, Stage, start, settled,
  Step, launches, ends, returns, adds, increments, calls, tests, exits, Steps, here, next,
}
use rain_scanner.Pipeline.Batches.Counts.{IsAligned}
use rain_scanner.Pipeline.Batches.Ends.{Next, measure, stage2_ends}
use rain_scanner.Pipeline.Batches.Complete.{stage2_complete-stage2}

abbrev candidate : Endpoint
candidate = record { ip = codes "8.8.8.8"; port = pos 443 }

abbrev candidates : List Endpoint
candidates = candidate ∷ []

abbrev passes : BatchItem → TestResult
passes it = record {
  addr = it.addr;
  passed = true;
  median = 30000000;
  successes = 3;
  total = 3;
  error = no_error;
}

abbrev pass_all : List BatchItem → List TestResult
pass_all [] = []
pass_all (it ∷ items) = passes it ∷ pass_all items

aligned : IsAligned two_texts pass_all
aligned [] = refl
aligned (it ∷ items) = ap suc (aligned items)

abbrev entry : Entry
entry = record { ip = codes "8.8.8.8"; port = pos 443; median_ms = 30; successes = 3; total = 3 }

-- The stage with its one goroutine at some action.
abbrev at_work : List (List Action) → List Entry → ℕ → List ℕ → Stage
at_work workers entries done reported = record {
  left = [];
  workers = workers;
  phase = launching;
  entries = entries;
  done = done;
  reported = reported;
  cancelled = false;
}

abbrev drained : Stage
drained = record {
  left = [];
  workers = [];
  phase = draining;
  entries = entry ∷ [];
  done = 1;
  reported = 1 ∷ [];
  cancelled = false;
}

abbrev over : Stage
over = record drained { phase = returned }

abbrev One : Stage → Stage → Type 0
One = Step two_texts pass_all 1 1

abbrev begin : Stage
begin = record {
  left = candidates ∷ [];
  workers = [];
  phase = launching;
  entries = [];
  done = 0;
  reported = [];
  cancelled = false;
}

abbrev tested : Stage
tested = at_work ((appends entry ∷ counts ∷ []) ∷ []) [] 0 []

abbrev probing : Stage
probing = at_work ((probes candidates ∷ []) ∷ []) [] 0 []

abbrev idle : Stage
idle = at_work [] (entry ∷ []) 1 (1 ∷ [])

to_probing : One begin probing
unfolding rain_scanner.Base.text_eq
to_probing = launches begin candidates [] refl refl (omega arith)

to_tested : One probing tested
unfolding rain_scanner.Base.text_eq settled
to_tested = tests probing [] [] candidates [] refl refl

to_added : One tested (at_work ((counts ∷ []) ∷ []) (entry ∷ []) 0 [])
to_added = adds tested [] [] entry (counts ∷ []) refl

to_idle : Steps two_texts pass_all 1 1 tested idle
unfolding ticks step_of
to_idle =
    let s3 : Stage = at_work ((counts ∷ []) ∷ []) (entry ∷ []) 0 [] in
    let s4 : Stage = at_work ((reports 1 ∷ []) ∷ []) (entry ∷ []) 1 [] in
    let s5 : Stage = at_work ([] ∷ []) (entry ∷ []) 1 (1 ∷ []) in
    next s5 idle
      (next s4 s5 (next s3 s4 (next tested s3 here to_added) (increments s3 [] [] [] refl))
        (calls s4 [] [] 1 [] refl))
      (exits s5 [] [] refl)

-- Steps after steps.
then :
    {a b c : Stage}
    → Steps two_texts pass_all 1 1 a b
    → Steps two_texts pass_all 1 1 b c
    → Steps two_texts pass_all 1 1 a c
then xs here = xs
then xs (next b c ys y) = next b c (then xs ys) y

run : Steps two_texts pass_all 1 1 (start (chunk_endpoints candidates (pos 50))) over
unfolding start chunk_endpoints chunks
run =
    next drained over
      (next idle drained
        (then (next probing tested (next begin probing here to_probing) to_tested) to_idle)
        (ends idle refl refl))
      (returns drained refl refl)

stage2_complete-stage2_example :
    ((q : Entry → Bool)
      → count_if q over.entries ≡ count_if q (stage2 two_texts pass_all true (pos 50) candidates))
    × (over.done ≡ 1)
    × (length over.reported ≤ 200)
    × (count_if (λ d. d == 1) over.reported ≡ 1)
stage2_complete-stage2_example =
    stage2_complete-stage2 two_texts pass_all 1 (pos 50) candidates over aligned (omega arith) run
      refl refl

stage2_ends_example :
    ((drained.phase ≡ returned) ⊎ Next two_texts pass_all 1 1 drained)
    × ((p' : Stage)
        → One drained p'
        → measure two_texts pass_all p' < measure two_texts pass_all drained)
stage2_ends_example = stage2_ends two_texts pass_all 1 1 drained (omega arith)
