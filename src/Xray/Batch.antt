-- ===== src/Xray/Batch.antt =====
-- TestBatch and freePorts of internal/xray/prober.go. The listeners that the system opens are the list `offered`
-- (a port, or a failure to listen); whether the process starts and its last inbound comes up are Booleans; and
-- `probe i` is what the i-th candidate's goroutine makes of its inbound port. The goroutines write different
-- indices, so their order is the order of the list; one that the caller's cancellation stops before it has the
-- semaphore (`skipped i`) leaves its entry as it was.
use rain_scanner.Base.{
  ℕ, zero, suc, ◌+◌, ◌-◌, ◌≡◌, refl, ap, ℤ, Bool, false, List, [], ◌∷◌, Option, none, some,
  if◌then◌else◌, Text, length, get_or, is_empty, is_ok, arith,
}
use rain_scanner.IpRange.Addr.{Addr}
use rain_scanner.Xray.Options.{Prober}
use rain_scanner.Xray.Config.{BatchTarget, generate_batch_config}
use rain_scanner.Xray.Probe.{
  TestResult, ProbeError, no_error, alloc_ports, gen_config, start_xray, inbounds_not_started,
}
use rain_scanner.Base.Json.{Json}

pub record BatchItem : Type 0 where
  pub addr : Addr
  pub port : ℤ

-- A result that no probe has filled.
abbrev pub blank : Prober → ProbeError → Addr → TestResult
blank p error a = record {
  addr = a;
  passed = false;
  median = 0;
  successes = 0;
  total = p.probes;
  error = error;
}

-- The entries of `res` after setErr, or before it with no error.
abbrev pub all_blank : Prober → ProbeError → List BatchItem → List TestResult
all_blank p error [] = []
all_blank p error (it ∷ items) = blank p error it.addr ∷ all_blank p error items

-- freePorts: `n` listeners, or nothing if one of them fails; every one is closed again.
unfoldable pub free_ports : ℕ → List (Option ℕ) → Option (List ℕ)
free_ports zero offered = some []
free_ports (suc n) [] = none
free_ports (suc n) (none ∷ offered) = none
free_ports (suc n) (some port ∷ offered) = elim (free_ports n offered) [
  | none ↦ none
  | some ports ↦ some (port ∷ ports)
]

module _ (string_of : Addr → Text) where
  abbrev pub batch_targets : List BatchItem → List ℕ → List BatchTarget
  batch_targets [] ports = []
  batch_targets (it ∷ items) ports =
      record { ip = string_of it.addr; port = it.port; inbound_port = get_or ports 0 0 }
      ∷ batch_targets items (drop_one ports)
    where
      drop_one : List ℕ → List ℕ
      drop_one [] = []
      drop_one (x ∷ xs) = xs

-- The goroutines, from index `i` on.
abbrev pub probe_all :
    Prober
    → (ℕ → Bool)
    → (ℕ → ℕ → Addr → TestResult)
    → List ℕ
    → ℕ
    → List BatchItem
    → List TestResult
probe_all p skipped probe ports i [] = []
probe_all p skipped probe ports i (it ∷ items) =
    (if skipped i then blank p no_error it.addr else probe i (get_or ports i 0) it.addr)
    ∷ probe_all p skipped probe ports (i + 1) items

-- What the system answers during one batch.
pub record Run : Type 0 where
  pub offered : List (Option ℕ)
  pub starts : Bool
  pub comes_up : ℕ → Bool
  pub skipped : ℕ → Bool
  pub probe : ℕ → ℕ → Addr → TestResult

module _ (marshal : Json → Option Text) (string_of : Addr → Text) where
  abbrev with_ports : Prober → Run → List BatchItem → Option (List ℕ) → List TestResult
  with_ports p run items none = all_blank p alloc_ports items
  with_ports p run items (some ports) =
      if is_ok (generate_batch_config marshal p.outbound (batch_targets string_of items ports))
      then if run.starts
        then if run.comes_up (get_or ports (length ports - 1) 0)
          then probe_all p run.skipped run.probe ports 0 items
          else all_blank p inbounds_not_started items
        else all_blank p start_xray items
      else all_blank p gen_config items

  unfoldable pub test_batch : Prober → Run → List BatchItem → List TestResult
  unfolding free_ports
  test_batch p run items =
      if is_empty items
      then all_blank p no_error items
      else with_ports p run items (free_ports (length items) run.offered)

-- The addresses of the items, and of the results.
abbrev pub addresses : List BatchItem → List Addr
addresses [] = []
addresses (it ∷ items) = it.addr ∷ addresses items

abbrev pub result_addresses : List TestResult → List Addr
result_addresses [] = []
result_addresses (r ∷ rs) = r.addr ∷ result_addresses rs

all_blank_lem :
    (p : Prober) (e : ProbeError) (items : List BatchItem)
    → result_addresses (all_blank p e items) ≡ addresses items
all_blank_lem p e [] = refl
all_blank_lem p e (it ∷ items) = ap (λ l. it.addr ∷ l) (all_blank_lem p e items)

probe_all_lem :
    (p : Prober) (skipped : ℕ → Bool) (probe : ℕ → ℕ → Addr → TestResult) (ports : List ℕ) (i : ℕ)
    (items : List BatchItem)
    → ((i port : ℕ) (a : Addr) → (probe i port a).addr ≡ a)
    → result_addresses (probe_all p skipped probe ports i items) ≡ addresses items
probe_all_lem p skipped probe ports i [] h = refl
probe_all_lem p skipped probe ports i (it ∷ items) h =
    ground
      (arith, probe_all_lem p skipped probe ports (i + 1) items h, h i (get_or ports i 0) it.addr)

module _ (marshal : Json → Option Text) (string_of : Addr → Text) (p : Prober) (run : Run)
    (items : List BatchItem) (own : (i port : ℕ) (a : Addr) → (run.probe i port a).addr ≡ a) where
  with_ports_lem :
      (offer : Option (List ℕ))
      → result_addresses (with_ports marshal string_of p run items offer) ≡ addresses items
  with_ports_lem none = all_blank_lem p alloc_ports items
  with_ports_lem (some ports) = ground (
    arith,
    all_blank_lem p gen_config items,
    all_blank_lem p start_xray items,
    all_blank_lem p inbounds_not_started items,
    probe_all_lem p run.skipped run.probe ports 0 items own,
  )

  -- On every path of TestBatch, its errors included, the results are aligned with the items: as many, and the k-th
  -- carries the address of the k-th item, when each probe reports the address it was given.
  pub test_batch-aligned :
      result_addresses (test_batch marshal string_of p run items) ≡ addresses items
  unfolding test_batch
  test_batch-aligned = ground (
    arith,
    all_blank_lem p no_error items,
    with_ports_lem (free_ports (length items) run.offered),
  )
