-- ===== src/Pipeline/Tests.antt =====
-- The pipeline's theorems at a run over four hosts.
use rain_scanner.Base.{
  ℕ, ◌≡◌, ◌≤◌, refl, true, false, Bool, List, [], ◌∷◌, Text, codes, ℤ, pos, length, All, Result, ok,
  err, ◌==◌, text_eq, count_if, arith,
}
use rain_scanner.Examples.{two_texts, unlimited}
use rain_scanner.IpRange.Addr.{Addr, v4, v6}
use rain_scanner.Xray.Batch.{BatchItem}
use rain_scanner.Xray.Probe.{TestResult}
use rain_scanner.Output.{Entry}
use rain_scanner.Pipeline.{Endpoint, Summary, chunk_endpoints, run_one, stage1}
use rain_scanner.Pipeline.Survivors.{Sweep, collected_all, collected_all-stage1}
use rain_scanner.Scan.Pool.{Options, slots}
use rain_scanner.Scan.Example.{one_host, finished}
use rain_scanner.Pipeline.Counts.{IsConsistent, run_one-IsConsistent}

abbrev three_endpoints : List Endpoint
three_endpoints =
    record { ip = codes "a"; port = pos 443 }
    ∷ record { ip = codes "b"; port = pos 443 }
    ∷ record { ip = codes "c"; port = pos 443 }
    ∷ []

abbrev no_results : List BatchItem → List TestResult
no_results items = []

abbrev name_of : Addr → Text
name_of a = codes "8.8.8.8"

-- Only 10.0.0.1 accepts a connection.
abbrev reachable : Addr → ℤ → Bool
reachable (v4 n) port = n == 167772161
reachable (v6 hi lo z) port = false

abbrev counting : ℕ → ℕ
counting i = i

abbrev block : List Text
block = codes "10.0.0.0/30" ∷ []

abbrev summary : Summary
summary = record {
  cdn = codes "mine";
  ranges = 1;
  ranges_v4 = 1;
  ranges_v6 = 0;
  hosts = 4;
  hosts_v4 = 4;
  hosts_v6 = 0;
  tcp_open = 1;
  confirmed = 0;
  endpoints = record { ip = codes "8.8.8.8"; port = pos 443 } ∷ [];
  entries = [];
}

-- A file system that takes every result file.
abbrev writable : Text → List Entry → Result Text (Unit {0})
writable name entries = ok tt

run_one-IsConsistent_example : IsConsistent two_texts no_results 1 summary
unfolding run_one rain_scanner.Base.◌>>=◌ rain_scanner.IpRange.Expand.expand
    rain_scanner.IpRange.Expand.expand_loop rain_scanner.IpRange.Entries.filter
    rain_scanner.IpRange.Entries.entry_addr rain_scanner.Base.text_eq rain_scanner.Base.trim_space
    rain_scanner.IpRange.Family.allows rain_scanner.IpRange.Expand.entry_hosts
    rain_scanner.IpRange.Expand.guard_pool rain_scanner.IpRange.Entries.split
    rain_scanner.IpRange.Expand.emit_all rain_scanner.Pipeline.stage1 rain_scanner.Pipeline.stage2
    rain_scanner.Output.sorted rain_scanner.IpRange.Walk.expand_prefix4
    rain_scanner.Base.Sorting.sort_by rain_scanner.IpRange.Walk.walk4
    rain_scanner.IpRange.Walk.stride4 rain_scanner.IpRange.Expand.emit
    rain_scanner.IpRange.Expand.emit_new rain_scanner.IpRange.Addr.has_addr
    rain_scanner.IpRange.Addr.ip_to_u32 rain_scanner.IpRange.Addr.u32_to_ip
    rain_scanner.IpRange.Expand.parse_all rain_scanner.IpRange.Expand.pool_size chunk_endpoints
    rain_scanner.Pipeline.chunks rain_scanner.Pipeline.confirm_batch
    rain_scanner.Pipeline.entries_of
run_one-IsConsistent_example =
    run_one-IsConsistent two_texts no_results writable name_of reachable counting counting unlimited
      (pos 443 ∷ []) true (pos 50) (codes "mine") block summary refl

abbrev two_slots : Options
two_slots = record { port = pos 443; concurrency = pos 2; timeout = pos 0 }

abbrev accepts : Addr → ℤ → Bool
accepts a port = true

-- A test that the one endpoint passes.
abbrev on_443 : Endpoint → Bool
on_443 e = text_eq e.ip (codes "8.8.8.8")

one_sweep : Sweep name_of accepts two_slots one_host (pos 443)
unfolding finished slots
one_sweep = record {
  steps = 10;
  last = finished.last;
  run = finished.run;
  over = refl;
  drained = refl;
  running = refl;
}

collected_all-stage1_example :
    count_if on_443
      (collected_all name_of accepts two_slots one_host (pos 443 ∷ []) (one_sweep, tt))
    ≡ count_if on_443 (stage1 name_of accepts (pos 443 ∷ []) one_host)
collected_all-stage1_example =
    collected_all-stage1 name_of accepts two_slots one_host (pos 443 ∷ []) (one_sweep, tt) on_443
