-- ===== src/Xray/Tests.antt =====
-- The theorems about configurations and probes at concrete arguments.
use rain_scanner.Base.{
  ◌&&◌, err, ℕ, suc, ◌+◌, ◌^◌, ◌≤◌, ◌<◌, ◌≡◌, ◌↔◌, refl, ℤ, pos, true, false, Bool, List, [], ◌∷◌,
  Option, some, none, Text, codes, Result, ok, is_ok, arith, length, ltb, leb, if◌then◌else◌, All,
  ◌==◌,
}
use rain_scanner.Base.Decimal.{decimal}
use rain_scanner.Base.Json.{Json}
use rain_scanner.Examples.{simple_links}
use rain_scanner.IpRange.Addr.{Addr, v4}
use rain_scanner.Link.Outbound.{Outbound, apply_defaults}
use rain_scanner.Link.Parse.{vless_outbound}
use rain_scanner.Link.Substitute.RoundTrip.{moved}
use rain_scanner.Link.Tests.{link, edge, origin, reprinted}
use rain_scanner.Xray.Itoa.{scan_itoa, scan_itoa-decimal}
use rain_scanner.Xray.Config.{
  build_outbound, BatchTarget, Wiring, wire_targets, inbound, add_wire, rule, no_wiring,
}
use rain_scanner.Xray.Stream.{ConfigError}
use rain_scanner.Xray.Config.Laws.{tested-emitted}
use rain_scanner.Xray.Config.Wires.{IsWired, wire_targets-IsWired}
use rain_scanner.Xray.Options.{Prober, IsSound}
use rain_scanner.Xray.Probe.{probe_endpoint, verdict}
use rain_scanner.Xray.Probe.Laws.{successes_from, probe_endpoint-passed}
use rain_scanner.Xray.Wait.{Round, wait_port, IsAnswered, wait_port_lem}
use rain_scanner.Xray.Batch.{BatchItem, Run, test_batch, test_batch-aligned, result_addresses}

-- From a million on the buffer is too small.
scan_itoa-decimal_example :
    scan_itoa (pos 8443) ≡ (if ltb 8443 1000000 then some (decimal 8443) else none)
scan_itoa-decimal_example = scan_itoa-decimal 8443

abbrev before : Outbound
before = apply_defaults (vless_outbound simple_links origin (pos 443))

abbrev after : Outbound
after = apply_defaults (moved simple_links origin edge 8443)

tested-emitted_example :
    build_outbound before edge (pos 8443) [] ≡ build_outbound after after.address after.port []
unfolding rain_scanner.Base.has_prefix rain_scanner.Base.trim_space rain_scanner.Base.split_on
    rain_scanner.Base.text_eq rain_scanner.Link.Parse.parse rain_scanner.Link.Parse.parse_vless
    rain_scanner.Base.◌>>=◌ rain_scanner.Base.Decimal.atoi rain_scanner.Link.Outbound.validate
    apply_defaults rain_scanner.Link.Substitute.substitute
    rain_scanner.Link.Substitute.substitute_url_host rain_scanner.Base.Decimal.itoa_ℤ decimal
    rain_scanner.Link.Codec.join_host_port rain_scanner.Base.has_code
tested-emitted_example =
    tested-emitted simple_links origin link edge 8443 before after [] refl refl reprinted refl refl
      refl (λ e. cc) (omega arith) (omega arith) refl refl

abbrev two_targets : List BatchTarget
two_targets =
    record { ip = edge; port = pos 443; inbound_port = 20001 }
    ∷ record { ip = edge; port = pos 8443; inbound_port = 20002 }
    ∷ []

abbrev wiring_of : Result ConfigError Wiring → Wiring
wiring_of (ok w) = w
wiring_of (err e) = no_wiring

abbrev wired : Wiring
unfolding wire_targets
wired = wiring_of (wire_targets before 0 two_targets)

wire_targets-IsWired_example : IsWired before 0 two_targets wired
unfolding wire_targets rain_scanner.Base.◌>>=◌ rain_scanner.Xray.Itoa.xray_itoa build_outbound
    rain_scanner.Xray.Stream.stream_settings rain_scanner.Xray.Stream.with_security apply_defaults
    rain_scanner.Link.Outbound.default_security rain_scanner.Base.text_eq
    rain_scanner.Link.Outbound.first rain_scanner.Xray.Stream.with_network
    rain_scanner.Link.Outbound.default_network rain_scanner.Xray.Config.protocol_settings
wire_targets-IsWired_example = wire_targets-IsWired before two_targets wired (omega arith) refl

-- Two successes wanted of three probes, with a budget of 100 milliseconds.
abbrev pub prober : Prober
prober = record {
  xray_path = codes "xray";
  outbound = before;
  probe_url = codes "https://www.gstatic.com/generate_204";
  probes = 3;
  confirm = 2;
  max_latency = 100000000;
  probe_timeout = 1500000000;
  startup = 5000000000;
  batch_concurrency = 10;
}

pub prober-IsSound : IsSound prober
prober-IsSound = record {
  confirm_low = omega arith;
  confirm_high = omega arith;
  latency_positive = omega arith;
  timeout_positive = omega arith;
  concurrency_positive = omega arith;
}

-- The second request fails.
abbrev replies : ℕ → Option ℕ
replies i = if i == 1 then none else some 40000000

probe_endpoint-passed_example :
    ((probe_endpoint prober (v4 1) (λ _. false) replies).passed ≡ true) ↔ (
      (2 ≤ successes_from replies 0 3)
      × (0 < (probe_endpoint prober (v4 1) (λ _. false) replies).median)
      × ((probe_endpoint prober (v4 1) (λ _. false) replies).median ≤ 100000000))
probe_endpoint-passed_example = probe_endpoint-passed prober (v4 1) replies prober-IsSound

abbrev after_one : ℕ → Bool
after_one i = leb 1 i

-- A port that answers at the third attempt.
abbrev third : ℕ → Round
third i = record { cancelled = false; answered = leb 2 i; delay = 1000000 }

wait_port_lem_example :
    (b : Bool) × (wait_port third 5000000000 7 ≡ some b)
    × ((b ≡ true) ↔ ((k : ℕ) × IsAnswered third 5000000007 7 k))
wait_port_lem_example = wait_port_lem third 5000000000 7

abbrev no_text : Json → Option Text
no_text j = some []

abbrev same_text : Addr → Text
same_text a = edge

abbrev one_run : Run
one_run = record {
  offered = some 20001 ∷ some 20002 ∷ [];
  starts = true;
  comes_up = λ port. true;
  skipped = λ i. false;
  probe = λ i port a. probe_endpoint prober a (λ _. false) replies;
}

abbrev two_items : List BatchItem
two_items = record { addr = v4 1; port = pos 443 } ∷ record { addr = v4 2; port = pos 443 } ∷ []

own_address : (i port : ℕ) (a : Addr) → (one_run.probe i port a).addr ≡ a
unfolding probe_endpoint verdict
own_address i port a = ground arith

test_batch-aligned_example :
    result_addresses (test_batch no_text same_text prober one_run two_items) ≡ v4 1 ∷ v4 2 ∷ []
test_batch-aligned_example =
    test_batch-aligned no_text same_text prober one_run two_items own_address
