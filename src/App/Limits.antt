-- ===== src/App/Limits.antt =====
-- A scan request cannot ask for more than the ceilings of buildConfig.
use rain_scanner.Base.{
  ◌*◌, ◌^◌, negsuc, int64, ◌≡◌, refl, ◌≢◌, ◌≤◌, [], Option, none, some, pos, pos_part,
}
use rain_scanner.Link.Codec.{Codec}
use rain_scanner.Link.Outbound.{Outbound}
use rain_scanner.Xray.Options.{Prober, IsSound}
use rain_scanner.Pipeline.{ports}
use rain_scanner.App.{millis, Config, clamp_max}

-- A prober that is sound, makes at most 64 measured requests for a candidate and asks for an answer within a minute.
pub record IsModest (p : Prober) : Type 0 where
  pub sound : IsSound p
  pub probes_high : p.probes ≤ 64
  pub latency_high : p.max_latency ≤ 60 * 10 ^ 9

-- No prober, or a modest one.
abbrev pub AllowsModest : Option Prober → Type 0
AllowsModest none = Unit
AllowsModest (some p) = IsModest p

-- The ceilings on what one request may use.
pub record IsLimited (cfg : Config) : Type 0 where
  pub some_port : cfg.ports ≢ []
  pub dials_low : 1 ≤ cfg.tcp_concurrency
  pub dials_high : cfg.tcp_concurrency ≤ 4096
  pub processes : pos_part cfg.xray_concurrency ≤ 32
  pub batch : pos_part cfg.batch_size ≤ 500
  pub v6_hosts : pos_part cfg.sample.max_hosts_per_v6_cidr ≤ 100000
  pub prober : AllowsModest cfg.prober

-- The probe timeout has a ceiling only for requests that keep this range: a number far below zero passes clampMax and
-- wraps around to centuries.
timeout_wraps : millis (clamp_max (negsuc 9223372036854) 120000) ≡ pos 9223372036854551616
unfolding millis clamp_max rain_scanner.Base.int64
timeout_wraps = refl
