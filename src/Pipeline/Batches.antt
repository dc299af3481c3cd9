-- ===== src/Pipeline/Batches.antt =====
-- stage2 of internal/pipeline/pipeline.go with its goroutines: one for each batch that has a slot, in every interleaving,
-- and a cancellation at any time.
pub mod Weights
pub mod Entries
pub mod Counts
pub mod Complete
pub mod Ends
pub mod Tests
use rain_scanner.Base.{
  ℕ, zero, suc, ◌+◌, ◌<◌, ◌≡◌, Bool, true, false, List, [], ◌∷◌, ◌++◌, Option, none, some, length,
  if◌then◌else◌,
}
use rain_scanner.IpRange.Netip.{Netip}
use rain_scanner.Xray.Batch.{BatchItem}
use rain_scanner.Xray.Probe.{TestResult}
use rain_scanner.Output.{Entry}
use rain_scanner.Pipeline.{Endpoint, parsed, items_of, entry_of}
use rain_scanner.Pipeline.Progress.{ticks}

-- The statements of a goroutine that touch what the goroutines share: the append under the mutex, the atomic addition,
-- the callback with its result, and TestBatch on a batch.
pub data Action : Type 0 where
  appends : Entry → Action
  counts : Action
  reports : ℕ → Action
  probes : List Endpoint → Action

pub data Phase : Type 0 where
  launching draining returned : Phase

-- The goroutines by what they have left to do, and the variables that they share.
pub record Stage : Type 0 where
  pub left : List (List Endpoint)
  pub workers : List (List Action)
  pub phase : Phase
  pub entries : List Entry
  pub done : ℕ
  pub reported : List ℕ
  pub cancelled : Bool

unfoldable pub start : List (List Endpoint) → Stage
start batches = record {
  left = batches;
  workers = [];
  phase = launching;
  entries = [];
  done = 0;
  reported = [];
  cancelled = false;
}

module _ (np : Netip) where
  -- A goroutine at its start: the first loop counts the endpoints whose address does not parse.
  abbrev pub begun : List Endpoint → List Endpoint → List Action
  begun batch [] = probes batch ∷ []
  begun batch (ep ∷ eps) =
      let rest = begun batch eps in
      elim (np.parse_addr ep.ip) [ none ↦ counts ∷ rest | some a ↦ rest ]

  -- The loop over the results, beside idx.
  unfoldable pub settled :
      (List BatchItem → List TestResult) → List Endpoint → List TestResult → List Action
  settled test [] trs = []
  settled test (ep ∷ eps) [] = []
  settled test (ep ∷ eps) (tr ∷ trs) =
      let rest = settled test eps trs in
      if tr.passed then appends (entry_of np test ep tr) ∷ counts ∷ rest else counts ∷ rest

  -- `test` is TestBatch while the context lives; after that its results may be any.
  module _ (test : List BatchItem → List TestResult) (capacity total : ℕ) where
    pub data Step : Stage → Stage → Type 0 where
      launches :
          (p : Stage) (b : List Endpoint) (bs : List (List Endpoint))
          → p.phase ≡ launching
          → p.left ≡ b ∷ bs
          → length p.workers < capacity
          → Step p (record p { left = bs; workers = begun b b ∷ p.workers })
      stops :
          (p : Stage)
          → p.phase ≡ launching
          → p.cancelled ≡ true
          → Step p (record p { phase = draining })
      ends :
          (p : Stage) → p.phase ≡ launching → p.left ≡ [] → Step p (record p { phase = draining })
      returns :
          (p : Stage) → p.phase ≡ draining → p.workers ≡ [] → Step p (record p { phase = returned })
      adds :
          (p : Stage) (before behind : List (List Action)) (e : Entry) (acts : List Action)
          → p.workers ≡ before ++ (appends e ∷ acts) ∷ behind
          → Step p (record p { workers = before ++ acts ∷ behind; entries = p.entries ++ e ∷ [] })
      increments :
          (p : Stage) (before behind : List (List Action)) (acts : List Action)
          → p.workers ≡ before ++ (counts ∷ acts) ∷ behind
          → Step p (record p {
            workers = before ++ (reports (p.done + 1) ∷ acts) ∷ behind;
            done = p.done + 1;
          })
      calls :
          (p : Stage) (before behind : List (List Action)) (d : ℕ) (acts : List Action)
          → p.workers ≡ before ++ (reports d ∷ acts) ∷ behind
          → Step p (record p {
            workers = before ++ acts ∷ behind;
            reported = p.reported ++ (if ticks total d then d ∷ [] else []);
          })
      tests :
          (p : Stage) (before behind : List (List Action)) (b : List Endpoint) (acts : List Action)
          → p.workers ≡ before ++ (probes b ∷ acts) ∷ behind
          → p.cancelled ≡ false
          → Step p (record p {
            workers =
                before
                ++ (settled test (parsed np test b) (test (items_of np test b)) ++ acts) ∷ behind;
          })
      aborts :
          (p : Stage) (before behind : List (List Action)) (b : List Endpoint) (acts : List Action)
          (trs : List TestResult)
          → p.workers ≡ before ++ (probes b ∷ acts) ∷ behind
          → p.cancelled ≡ true
          → Step p (record p {
            workers = before ++ (settled test (parsed np test b) trs ++ acts) ∷ behind;
          })
      exits :
          (p : Stage) (before behind : List (List Action))
          → p.workers ≡ before ++ [] ∷ behind
          → Step p (record p { workers = before ++ behind })
      cancels : (p : Stage) → p.cancelled ≡ false → Step p (record p { cancelled = true })

    pub data Steps (a : Stage) : Stage → Type 0 where
      here : Steps a a
      next : (b c : Stage) → Steps a b → Step b c → Steps a c
