-- ===== src/IpRange/Tests.antt =====
-- Runs of the address code, and the theorems about it at concrete arguments.
use rain_scanner.Base.{
  ℕ, ◌≤◌, ◌≡◌, refl, List, [], ◌∷◌, Text, codes, pos, length, All, some, none, if◌then◌else◌, arith,
  split_on, trim_space, text_eq,
}
use rain_scanner.Examples.{two_texts, unlimited}
use rain_scanner.IpRange.Addr.{Addr, v4, v6, masked, has_addr, u32_to_ip, ip_to_u32}
use rain_scanner.IpRange.Family.{Strategy, allows, v6_only}
use rain_scanner.IpRange.Netip.{Netip}
use rain_scanner.IpRange.Walk.{expand_prefix4, walk4, stride4}
use rain_scanner.IpRange.Walk.Bounds.{InBlock, Ascending, expand_prefix4-InBlock}
use rain_scanner.IpRange.Sample.{limit6}
use rain_scanner.IpRange.Sample.Bounds.{expand_prefix6-InBlock6, emitted6, Inside6}
use rain_scanner.IpRange.Sample.Draws.{Fresh}
use rain_scanner.IpRange.Expand.{
  empty_pool, emit, emit_all, emit_new, guard_pool, pool_size, parse_all, entry_hosts, expand_loop,
  expand,
}
use rain_scanner.IpRange.Expand.Bounds.{emit_all-reservoir}
use rain_scanner.IpRange.Expand.Unique.{Distinct, expand-Distinct}

test_split : split_on b',' (codes "a,,b") ≡ codes "a" ∷ [] ∷ codes "b" ∷ []
unfolding split_on
test_split = refl

test_trim : trim_space (codes "  a b ") ≡ codes "a b"
unfolding trim_space
test_trim = refl

abbrev by_eights : Strategy
by_eights = record unlimited { sample_per_24 = pos 32 }

-- A /28 walked with 32 addresses sampled of each /24.
expand_prefix4-InBlock_example :
    All (InBlock 256 16) (expand_prefix4 (masked (record { addr = v4 260; bits = 28 })) by_eights)
    × Ascending 256 (expand_prefix4 (masked (record { addr = v4 260; bits = 28 })) by_eights)
expand_prefix4-InBlock_example = expand_prefix4-InBlock 260 28 by_eights (omega arith) (omega arith)

abbrev three : Strategy
three = record unlimited { max_hosts_per_v6_cidr = pos 3 }

abbrev counting : ℕ → ℕ
counting i = i

-- Three addresses drawn from a /64.
expand_prefix6-InBlock6_example :
    All
      (Inside6 9 0 64 [] three counting 0 (omega arith))
      (emitted6 9 0 64 [] three counting 0 (omega arith))
    × Fresh [] (emitted6 9 0 64 [] three counting 0 (omega arith))
    × (length (emitted6 9 0 64 [] three counting 0 (omega arith)) ≤ limit6 three)
expand_prefix6-InBlock6_example = expand_prefix6-InBlock6 9 0 64 [] three counting 0 (omega arith)

abbrev five : List Addr
five = v4 1 ∷ v4 2 ∷ v4 3 ∷ v4 4 ∷ v4 5 ∷ []

abbrev IsSmall : Addr → Type 0
IsSmall (v4 n) = n ≤ 5
IsSmall (v6 hi lo z) = ⊥

-- Five addresses offered to a reservoir of two.
emit_all-reservoir_example :
    (length (emit_all (pos 2) counting five empty_pool).out ≡ 2)
    × All IsSmall (emit_all (pos 2) counting five empty_pool).out
emit_all-reservoir_example =
    emit_all-reservoir (pos 2) counting IsSmall five empty_pool refl refl tt
      (omega arith, (omega arith, (omega arith, (omega arith, (omega arith, tt)))))

abbrev one_block : List Text
one_block = codes "10.0.0.0/30" ∷ []

abbrev four_hosts : List Addr
four_hosts = v4 167772160 ∷ v4 167772161 ∷ v4 167772162 ∷ v4 167772163 ∷ []

-- The same block twice: every host once.
expand-Distinct_example : Distinct four_hosts
unfolding expand expand_loop entry_hosts guard_pool pool_size parse_all expand_prefix4 walk4 stride4
    emit_all emit emit_new allows trim_space text_eq has_addr u32_to_ip ip_to_u32
expand-Distinct_example =
    expand-Distinct two_texts (codes "10.0.0.0/30" ∷ codes "10.0.0.0/30" ∷ []) unlimited counting
      counting four_hosts refl refl

abbrev at_most_two : Strategy
at_most_two = record unlimited { max_total = pos 2 }

abbrev two_hosts : List Addr
two_hosts = v4 167772160 ∷ v4 167772161 ∷ []

-- A /8, which an IPv6 scan skips but the guard counts, and an IPv6 prefix of two hosts.
abbrev wide : Netip
wide = record {
  parse_prefix = λ t.
      if text_eq t (codes "10.0.0.0/8")
      then some (record { addr = v4 167772160; bits = 8 })
      else some (record { addr = v6 9 0 []; bits = 127 });
  parse_addr = λ t. none;
}

abbrev only_v6 : Strategy
only_v6 = record unlimited { family = v6_only }

abbrev pair : List Addr
pair = v6 9 0 [] ∷ v6 9 1 [] ∷ []
