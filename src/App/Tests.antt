-- ===== src/App/Tests.antt =====
-- The ceilings at a request that asks for too much.
use rain_scanner.Base.{
  ℕ, ◌≡◌, ◌≤◌, true, false, List, [], ◌∷◌, Option, some, none, Text, codes, ℤ, pos, Result, ok, All,
}
use rain_scanner.Examples.{simple_links, memory, empty_memory}
use rain_scanner.Link.Outbound.{apply_defaults}
use rain_scanner.Link.Parse.{vless_outbound}
use rain_scanner.Link.Tests.{link, origin}
use rain_scanner.Xray.Options.{Prober, IsSound, prober_of}
use rain_scanner.Targets.{Registry}
use rain_scanner.App.{ScanRequest, prober_options}
use rain_scanner.Providers.Fetch.{FetchOptions}
use rain_scanner.App.Service.{Service}

abbrev pub greedy : ScanRequest
greedy = record {
  cdn = codes "fastly";
  custom = none;
  ports = [];
  port = pos 0;
  link = link;
  xray_path = [];
  tcp_concurrency = pos 1000000;
  tcp_timeout_ms = pos 0;
  xray_concurrency = pos 1000000;
  batch_size = pos 1000000;
  probes = pos 1000000;
  confirm = pos 0;
  max_latency_ms = pos 0;
  probe_timeout_ms = pos 0;
  probe_url = [];
  sample_per_24 = pos 0;
  max_hosts_per_cidr = pos 0;
  max_total = pos 0;
  family = [];
  max_hosts_per_v6_cidr = pos 0;
  lite = false;
  refresh = false;
}

abbrev no_targets : Registry
no_targets = record { builtin_names = []; hidden = []; recs = [] }

abbrev on_path : Text → Option Text
on_path t = some (codes "xray")

abbrev made : Prober
made =
    let o = apply_defaults (vless_outbound simple_links origin (pos 443)) in
    prober_of (prober_options greedy (codes "xray") o) o

-- A service with one target, whose ranges are old.
abbrev one_target : Service memory
one_target = record {
  registry = record {
    builtin_names = codes "fastly" ∷ [];
    hidden = [];
    recs =
        record { name = codes "fastly"; cidrs = codes "8.8.8.8" ∷ []; api_url = []; builtin = true }
        ∷ [];
  };
  state = empty_memory;
  manifest = none;
}

abbrev no_options : FetchOptions
no_options = record { prefer_backup = false; no_backup = false }
