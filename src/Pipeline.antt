-- ===== src/Pipeline.antt =====
-- internal/pipeline/pipeline.go. The goroutines of a stage write what does not depend on their order but for the order of
-- what they append; the model appends in the order in which they are started. Logging and progress change no
-- result and are left out. `string_of` is netip's String, and `test` a prober's TestBatch.
pub mod Chunks
pub mod Counts
pub mod Survivors
pub mod Progress
pub mod Batches
pub mod Tests
use rain_scanner.Base.{
  ℕ, zero, suc, ◌+◌, ◌-◌, ◌*◌, ◌/◌, Bool, true, false, ◌&&◌, not, List, [], ◌∷◌, ◌++◌, Option, none,
  some, if◌then◌else◌, ltb, length, take, drop, keep, count_if, is_empty, min, max, ℤ, pos, is_pos,
  pos_part, Text, Result, ok, err, ◌>>=◌, ◌>>◌,
}
use rain_scanner.IpRange.Addr.{Addr, is4}
use rain_scanner.IpRange.Family.{Family, auto, v4_only, both, Strategy}
use rain_scanner.IpRange.Netip.{Netip}
use rain_scanner.IpRange.Entries.{filter, split}
use rain_scanner.IpRange.Expand.{expand}
use rain_scanner.Xray.Batch.{BatchItem}
use rain_scanner.Xray.Probe.{TestResult}
use rain_scanner.Output.{Entry, sorted}

abbrev pub lite_xray_concurrency : ℕ
lite_xray_concurrency = 1

abbrev pub lite_tcp_concurrency : ℕ
lite_tcp_concurrency = 100

abbrev pub lite_batch_size : ℕ
lite_batch_size = 25

abbrev pub default_batch_size : ℕ
default_batch_size = 50

-- DefaultXrayConcurrency and DefaultTCPConcurrency, by the number of CPUs.
unfoldable pub default_xray_concurrency : ℕ → ℕ
default_xray_concurrency cpus = min (max (cpus / 6) 1) 3

unfoldable pub default_tcp_concurrency : ℕ → ℕ
default_tcp_concurrency cpus = min (max (cpus * 8) 64) 128

pub record Endpoint : Type 0 where
  pub ip : Text
  pub port : ℤ

pub record Summary : Type 0 where
  pub cdn : Text
  pub ranges : ℕ
  pub ranges_v4 : ℕ
  pub ranges_v6 : ℕ
  pub hosts : ℕ
  pub hosts_v4 : ℕ
  pub hosts_v6 : ℕ
  pub tcp_open : ℕ
  pub confirmed : ℕ
  pub endpoints : List Endpoint
  pub entries : List Entry

-- resolveFamily, given whether the machine has a global IPv6 address
unfoldable pub resolve_family : Bool → Family → Family
resolve_family v6 auto = if v6 then both else v4_only
resolve_family v6 f = f

-- Config.ports
unfoldable pub ports : List ℤ → ℤ → List ℤ
ports ps port = if is_empty ps then port ∷ [] else ps

-- The loop of chunkEndpoints over what is left of the list; each round takes some of it, so as many rounds as there are
-- endpoints are enough.
unfoldable pub chunks : ℕ → ℕ → List Endpoint → List (List Endpoint)
chunks zero size eps = []
chunks (suc fuel) size eps =
    let rest = chunks fuel size (drop size eps) in if is_empty eps then [] else take size eps ∷ rest

unfoldable pub chunk_endpoints : List Endpoint → ℤ → List (List Endpoint)
chunk_endpoints eps size =
    let n = if is_pos size then pos_part size else default_batch_size in chunks (length eps) n eps

-- The pass of stage1 over one port: the hosts that accept a connection.
abbrev pub survivors_of : (Addr → Text) → (Addr → ℤ → Bool) → ℤ → List Addr → List Endpoint
survivors_of string_of reachable port [] = []
survivors_of string_of reachable port (h ∷ hosts) =
    let rest = survivors_of string_of reachable port hosts in
    if reachable h port then record { ip = string_of h; port = port } ∷ rest else rest

unfoldable pub stage1 : (Addr → Text) → (Addr → ℤ → Bool) → List ℤ → List Addr → List Endpoint
stage1 string_of reachable [] hosts = []
stage1 string_of reachable (p ∷ ps) hosts =
    survivors_of string_of reachable p hosts ++ stage1 string_of reachable ps hosts

module _ (np : Netip) (test : List BatchItem → List TestResult) where
  -- The endpoints of a batch whose address parses (`idx`), and their items.
  abbrev pub parsed : List Endpoint → List Endpoint
  parsed [] = []
  parsed (ep ∷ eps) =
      let rest = parsed eps in elim (np.parse_addr ep.ip) [ none ↦ rest | some a ↦ ep ∷ rest ]

  abbrev pub items_of : List Endpoint → List BatchItem
  items_of [] = []
  items_of (ep ∷ eps) =
      let rest = items_of eps in
      elim (np.parse_addr ep.ip) [
        | none ↦ rest
        | some a ↦ record { addr = a; port = ep.port } ∷ rest
      ]

  abbrev pub entry_of : Endpoint → TestResult → Entry
  entry_of ep tr = record {
    ip = ep.ip;
    port = ep.port;
    median_ms = tr.median / 1000000;
    successes = tr.successes;
    total = tr.total;
  }

  -- The loop over the results, beside idx.
  unfoldable pub entries_of : List Endpoint → List TestResult → List Entry
  entries_of [] trs = []
  entries_of (ep ∷ eps) [] = []
  entries_of (ep ∷ eps) (tr ∷ trs) =
      let rest = entries_of eps trs in if tr.passed then entry_of ep tr ∷ rest else rest

  unfoldable pub confirm_batch : List Endpoint → List Entry
  confirm_batch batch = entries_of (parsed batch) (test (items_of batch))

  abbrev pub confirm_all : List (List Endpoint) → List Entry
  confirm_all [] = []
  confirm_all (b ∷ bs) = confirm_batch b ++ confirm_all bs

  -- stage2, without a cancellation; `probing` tells whether there is a prober.
  unfoldable pub stage2 : Bool → ℤ → List Endpoint → List Entry
  stage2 probing size survivors =
      if probing && not (is_empty survivors)
      then confirm_all (chunk_endpoints survivors size)
      else []

  -- The summary of runOne, once the ranges are expanded; the entries are in the order of the result file.
  abbrev pub summarize :
      (Addr → Text) → (Addr → ℤ → Bool) → List ℤ → Bool → ℤ → Text → List Text → List Addr → Summary
  summarize string_of reachable ps probing size name kept hosts =
      let survivors = stage1 string_of reachable ps hosts in
      let entries = stage2 probing size survivors in
      record {
        cdn = name;
        ranges = length kept;
        ranges_v4 = (split np kept).0;
        ranges_v6 = (split np kept).1;
        hosts = length hosts;
        hosts_v4 = count_if is4 hosts;
        hosts_v6 = count_if (λ h. not (is4 h)) hosts;
        tcp_open = length survivors;
        confirmed = length entries;
        endpoints = survivors;
        entries = sorted entries;
      }

  -- runOne, on ranges that are given or were loaded; `write` is output.Write, which may fail on the file.
  unfoldable pub run_one :
      (Text → List Entry → Result Text (Unit {0}))
      → (Addr → Text)
      → (Addr → ℤ → Bool)
      → (ℕ → ℕ)
      → (ℕ → ℕ)
      → Strategy
      → List ℤ
      → Bool
      → ℤ
      → Text
      → List Text
      → Result Text Summary
  run_one write string_of reachable draws picks s ps probing size name cidrs = do
    let kept = filter np cidrs s.family
    hosts ← expand np kept s draws picks
    let summary = summarize string_of reachable ps probing size name kept hosts
    write name summary.entries
    ok summary

  -- Run: a target that is given alone, or each of the CDNs with its ranges; one that fails is left out.
  abbrev pub gather : Result Text Summary → List Summary → List Summary
  gather (err c) rest = rest
  gather (ok s) rest = s ∷ rest

  unfoldable pub run :
      (Text → List Text → Result Text Summary)
      → Option (Text × List Text)
      → List (Text × List Text)
      → List Summary
  run one (some (name, cidrs)) cdns = gather (one name cidrs) []
  run one none [] = []
  run one none ((name, cidrs) ∷ cdns) = gather (one name cidrs) (run one none cdns)
