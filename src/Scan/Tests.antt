-- ===== src/Scan/Tests.antt =====
-- The sweep's theorems on a run over one host that accepts a connection.
use rain_scanner.Base.{
  ℕ, ◌+◌, ◌*◌, ◌≡◌, ◌≤◌, ◌⊎◌, refl, Bool, true, false, [], ◌∷◌, some, none, ◌↔◌, arith, keep,
  count_if, length,
}
use rain_scanner.IpRange.Addr.{Addr}
use rain_scanner.Scan.Example.{accepts_all, one_host, launched, counted, finished}
use rain_scanner.Scan.Pool.{Pool, closed, Step}
use rain_scanner.Scan.Pool.Invariant.{Run-bounds, received_complete}
use rain_scanner.Scan.Pool.Weights.{total, holds, numbers}
use rain_scanner.Scan.Pool.Progress.{left_to_do, Run-ends}
use rain_scanner.Scan.Interfaces.{
  ip_net, Interface, addr_from_slice, big_endian, any_reaches, any_interface, detect_global_ipv6,
  has_global_ipv6,
}
use rain_scanner.Scan.Interfaces.Reach.{Any, IsUsable, has_global_ipv6_iff}

Run-bounds_example :
    (total holds launched.last.workers ≤ 2)
    × ((q : Addr → Bool)
        → count_if q launched.last.shared.received ≤ count_if q (keep accepts_all one_host))
Run-bounds_example = Run-bounds accepts_all 2 one_host 1 launched.last launched.run

received_complete_example :
    ((q : Addr → Bool)
      → count_if q finished.last.shared.received ≡ count_if q (keep accepts_all one_host))
    × (finished.last.shared.done ≡ length one_host)
    × ((r : ℕ → Bool)
        → count_if r finished.last.shared.reported ≡ count_if r (numbers (length one_host)))
unfolding finished
received_complete_example =
    received_complete accepts_all 2 one_host 10 finished.last finished.run refl refl refl

Run-ends_example :
    (5 + left_to_do counted.last ≤ 9 * length one_host + 3)
    × (((counted.last.phase ≡ closed) × (counted.last.shared.queue ≡ []))
        ⊎ ((p : Pool) × Step accepts_all 2 counted.last p
            × (p.shared.cancelled ≡ counted.last.shared.cancelled)))
Run-ends_example = Run-ends accepts_all 2 (omega arith) one_host 5 counted.last counted.run

-- fe80::1 on one interface, and 2001:db8::1 on another.
abbrev local_only : Interface
local_only = record {
  up = true;
  loopback = false;
  addrs =
      some (ip_net (254 ∷ 128 ∷ 0 ∷ 0 ∷ 0 ∷ 0 ∷ 0 ∷ 0 ∷ 0 ∷ 0 ∷ 0 ∷ 0 ∷ 0 ∷ 0 ∷ 0 ∷ 1 ∷ []) ∷ []);
}

abbrev global : Interface
global = record {
  up = true;
  loopback = false;
  addrs =
      some (ip_net (32 ∷ 1 ∷ 13 ∷ 184 ∷ 0 ∷ 0 ∷ 0 ∷ 0 ∷ 0 ∷ 0 ∷ 0 ∷ 0 ∷ 0 ∷ 0 ∷ 0 ∷ 1 ∷ []) ∷ []);
}

has_global_ipv6_iff_example :
    (((has_global_ipv6 (some (local_only ∷ global ∷ [])) none).0 ≡ true)
      ↔ Any IsUsable (local_only ∷ global ∷ []))
    × (has_global_ipv6 none (has_global_ipv6 (some (local_only ∷ global ∷ [])) none).1
        ≡ has_global_ipv6 (some (local_only ∷ global ∷ [])) none)
has_global_ipv6_iff_example = has_global_ipv6_iff (local_only ∷ global ∷ []) none

global_detected : detect_global_ipv6 (some (local_only ∷ global ∷ [])) ≡ true
unfolding detect_global_ipv6 any_interface any_reaches addr_from_slice big_endian
global_detected = refl

local_ignored : detect_global_ipv6 (some (local_only ∷ [])) ≡ false
unfolding detect_global_ipv6 any_interface any_reaches addr_from_slice big_endian
local_ignored = refl
