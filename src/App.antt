-- ===== src/App.antt =====
-- internal/app/service.go: the configuration that a scan request gives, and ReloadAll. Durations are the
-- nanoseconds of an int64.
pub mod Limits
pub mod Service
pub mod Tests
use rain_scanner.Base.{
  ℕ, suc, ◌+◌, ◌*◌, ◌≡◌, ◌≤◌, Bool, true, false, ◌&&◌, not, List, [], ◌∷◌, ◌++◌, Option, none, some,
  if◌then◌else◌, ltb, ℤ, pos, negsuc, is_pos, pos_part, int64, Text, is_empty, length, Result, ok,
  err, ◌>>=◌, or_error,
}
use rain_scanner.IpRange.Family.{Strategy, parse_family}
use rain_scanner.Link.Outbound.{Outbound}
use rain_scanner.Link.Codec.{Codec}
use rain_scanner.Link.Parse.{parse}
use rain_scanner.Xray.Options.{ProberOptions, Prober, new_prober}
use rain_scanner.Targets.{Record, Registry, get}
use rain_scanner.Pipeline.{
  lite_tcp_concurrency, lite_xray_concurrency, lite_batch_size, default_tcp_concurrency, ports,
}

pub record CustomRange : Type 0 where
  pub name : Text
  pub cidrs : List Text

pub record ScanRequest : Type 0 where
  pub cdn : Text
  pub custom : Option CustomRange
  pub ports : List ℤ
  pub port : ℤ
  pub link : Text
  pub xray_path : Text
  pub tcp_concurrency : ℤ
  pub tcp_timeout_ms : ℤ
  pub xray_concurrency : ℤ
  pub batch_size : ℤ
  pub probes : ℤ
  pub confirm : ℤ
  pub max_latency_ms : ℤ
  pub probe_timeout_ms : ℤ
  pub probe_url : Text
  pub sample_per_24 : ℤ
  pub max_hosts_per_cidr : ℤ
  pub max_total : ℤ
  pub family : Text
  pub max_hosts_per_v6_cidr : ℤ
  pub lite : Bool
  pub refresh : Bool

-- What is scanned: ranges that are at hand, or a CDN whose ranges are still to be loaded.
pub data Target : Type 0 where
  given : Text → List Text → Target
  cdn_named : Text → Target

pub record Config : Type 0 where
  pub ports : List ℤ
  pub sample : Strategy
  pub tcp_port : ℕ
  pub tcp_concurrency : ℕ
  pub tcp_timeout : ℤ
  pub prober : Option Prober
  pub xray_concurrency : ℤ
  pub batch_size : ℤ
  pub target : Target

pub data ScanError : Type 0 where
  bad_link no_xray bad_options : ScanError

unfoldable pub or_int : ℤ → ℕ → ℕ
or_int v def = if is_pos v then pos_part v else def

-- Zero and negative numbers pass.
unfoldable pub clamp_max : ℤ → ℕ → ℤ
clamp_max v max = if ltb max (pos_part v) then pos max else v

abbrev times_million : ℤ → ℤ
times_million (pos n) = pos (n * 1000000)
times_million (negsuc n) = negsuc (n * 1000000 + 999999)

-- time.Duration(v) * time.Millisecond, which wraps around.
unfoldable pub millis : ℤ → ℤ
millis v = int64 (times_million v)

unfoldable pub prober_options : ScanRequest → Text → Outbound → ProberOptions
prober_options req bin o = record {
  xray_path = bin;
  outbound = some o;
  probe_url = req.probe_url;
  probes = clamp_max (pos (or_int req.probes 5)) 64;
  confirm = clamp_max (pos (or_int req.confirm 3)) 64;
  max_latency = millis (clamp_max (pos (or_int req.max_latency_ms 800)) 60000);
  probe_timeout = millis (clamp_max req.probe_timeout_ms 120000);
  startup = pos 0;
  batch_concurrency = pos 0;
}

-- The switch on the target: an explicit range, the registry's ranges, or the CDN by its name.
abbrev stored_target : ScanRequest → Option Record → Target
stored_target req none = cdn_named req.cdn
stored_target req (some rec) =
    if not (is_empty rec.cidrs) && not req.refresh
    then given rec.name rec.cidrs
    else cdn_named req.cdn

unfoldable pub target_of : Registry → ScanRequest → Target
target_of r req = elim req.custom [
  | some c ↦ given c.name c.cidrs
  | none ↦ stored_target req (get r req.cdn)
]

-- The fields that do not depend on the link, with the prober that it gives.
unfoldable pub config_of : ℕ → Registry → ScanRequest → Option Prober → Config
config_of cpus r req prober =
    let port = or_int req.port 443 in
    record {
      ports = ports req.ports (pos port);
      sample = record {
        sample_per_24 = req.sample_per_24;
        max_hosts_per_cidr = req.max_hosts_per_cidr;
        max_total = req.max_total;
        family = parse_family req.family;
        max_hosts_per_v6_cidr = clamp_max req.max_hosts_per_v6_cidr 100000;
      };
      tcp_port = port;
      tcp_concurrency =
          if req.lite
          then lite_tcp_concurrency
          else pos_part
              (clamp_max (pos (or_int req.tcp_concurrency (default_tcp_concurrency cpus))) 4096);
      tcp_timeout = millis (pos (or_int req.tcp_timeout_ms 3000));
      prober = prober;
      xray_concurrency =
          if req.lite then pos lite_xray_concurrency else clamp_max req.xray_concurrency 32;
      batch_size = if req.lite then pos lite_batch_size else clamp_max req.batch_size 500;
      target = target_of r req;
    }

abbrev or_fail {ℓ} : {E : Type ℓ} {A : Type 0} → Result E A → ScanError → Result ScanError A
or_fail (ok a) e = ok a
or_fail (err _) e = err e

module _ (c : Codec) (resolve : Text → Option Text) where
  unfoldable pub prober_for : ScanRequest → Result ScanError Prober
  prober_for req = do
    o ← or_fail (parse c req.link) bad_link
    bin ← or_error (resolve req.xray_path) no_xray
    or_fail (new_prober (prober_options req bin o)) bad_options

  -- buildConfig
  unfoldable pub build_config : ℕ → Registry → ScanRequest → Result ScanError Config
  build_config cpus r req =
      if is_empty req.link
      then ok (config_of cpus r req none)
      else do p ← prober_for req; ok (config_of cpus r req (some p))
