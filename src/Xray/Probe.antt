-- ===== src/Xray/Probe.antt =====
-- probeEndpoint and median of internal/xray/prober.go. The outcomes of the requests are the list `replies`:
-- the latency of the i-th measured request or its failure; `cancelled i` tells whether the caller's context
-- is done before the i-th. Durations are nanoseconds.
pub mod Laws
use rain_scanner.Base.{
  ℕ, zero, suc, ◌+◌, ◌-◌, ◌*◌, ◌/◌, ◌%◌, ◌≡◌, refl, Bool, true, false, ◌&&◌, List, [], ◌∷◌, ◌++◌,
  Option, none, some, if◌then◌else◌, ltb, leb, ◌==◌, get_or, length,
}
use rain_scanner.Base.Sorting.{sort_by}
use rain_scanner.IpRange.Addr.{Addr}
use rain_scanner.Xray.Options.{Prober}

pub data ProbeError : Type 0 where
  no_error cancelled_error alloc_ports gen_config start_xray inbounds_not_started : ProbeError

pub record TestResult : Type 0 where
  pub addr : Addr
  pub passed : Bool
  pub median : ℕ
  pub successes : ℕ
  pub total : ℕ
  pub error : ProbeError

unfoldable pub median : List ℕ → ℕ
median ds =
    let s = sort_by ltb ds in
    let n = length s in
    if n == 0
    then 0
    else if n % 2 == 1
    then get_or s (n / 2) 0
    else (get_or s (n / 2 - 1) 0 + get_or s (n / 2) 0) / 2

-- The variables of the loop; `stopped` is the context's cancellation.
pub record Tally : Type 0 where
  pub lats : List ℕ
  pub fails : ℕ
  pub attempts : ℕ
  pub stopped : Bool

abbrev pub no_tally : Tally
no_tally = record { lats = []; fails = 0; attempts = 0; stopped = false }

-- One measured request, with whether the loop goes on.
unfoldable pub measure : ℕ → ℕ → Option ℕ → Tally → Tally × Bool
measure confirm max_fails (some d) t = (
  record t { lats = t.lats ++ d ∷ []; attempts = t.attempts + 1 },
  ltb (length (t.lats ++ d ∷ [])) confirm,
)
measure confirm max_fails none t =
    (record t { fails = t.fails + 1; attempts = t.attempts + 1 }, leb (t.fails + 1) max_fails)

-- The loop, with `left` rounds to go.
unfoldable pub measure_all : ℕ → ℕ → (ℕ → Bool) → (ℕ → Option ℕ) → ℕ → ℕ → Tally → Tally
measure_all confirm max_fails cancelled reply zero i t = t
measure_all confirm max_fails cancelled reply (suc left) i t =
    let (t', more) = measure confirm max_fails (reply i) t in
    let rest = measure_all confirm max_fails cancelled reply left (i + 1) t' in
    if cancelled i then record t { stopped = true } else if more then rest else t'

unfoldable pub accept : Prober → ℕ → ℕ → Bool
accept p successes med = leb p.confirm successes && (ltb 0 med && leb med p.max_latency)

-- The result after the loop.
unfoldable pub verdict : Prober → Addr → Tally → TestResult
unfolding accept
verdict p a t =
    let med = median t.lats in
    if t.stopped
    then record {
      addr = a;
      passed = false;
      median = 0;
      successes = 0;
      total = t.attempts;
      error = cancelled_error;
    }
    else record {
      addr = a;
      passed = accept p (length t.lats) med;
      median = med;
      successes = length t.lats;
      total = t.attempts;
      error = no_error;
    }

unfoldable pub probe_endpoint : Prober → Addr → (ℕ → Bool) → (ℕ → Option ℕ) → TestResult
probe_endpoint p a cancelled reply =
    verdict p a (measure_all p.confirm (p.probes - p.confirm) cancelled reply p.probes 0 no_tally)
