-- ===== src/Xray/Config/Wires.antt =====
-- What the wiring of a batch contains.
use rain_scanner.Base.{
  ℕ, zero, suc, ◌+◌, ◌≡◌, ◌<◌, ◌^◌, refl, sym, ap, ◌∙◌, subst, true, ◌&&◌, List, [], ◌∷◌, ◌++◌,
  codes, ok, is_ok, arith, length, or_error, ok_injective, Yields, Yields-bind, is_ok-bind,
  is_ok-bind_ok,
}
use rain_scanner.Base.Decimal.{decimal}
use rain_scanner.Base.Json.{Fields, Items, nil, cons, obj}
use rain_scanner.Link.Outbound.{Outbound}
use rain_scanner.Xray.Itoa.{xray_itoa-decimal}
use rain_scanner.Xray.Stream.{itoa_panic}
use rain_scanner.Xray.Config.{build_outbound, BatchTarget, Wiring, rule, wire_targets}
use rain_scanner.Xray.Config.Servers.{
  IsInbound, inbound-IsInbound, IsOutbound, build_outbound-IsOutbound,
}
use rain_scanner.Xray.Config.Laws.{
  known_protocol, known_security, known_network, is_ok-build_outbound,
}

-- The routing that a batch of `n` targets needs, numbered from `i` on.
abbrev pub rules_from : ℕ → ℕ → Items
rules_from i zero = nil
rules_from i (suc n) =
    cons (rule (codes "in-" ++ decimal i) (codes "out-" ++ decimal i)) (rules_from (i + 1) n)

-- The inbounds of a batch: the k-th has its number in its tag and the port of the k-th target.
abbrev pub InboundsFrom : ℕ → List BatchTarget → Items → Type 0
InboundsFrom i [] js = js ≡ nil
InboundsFrom i (t ∷ targets) js =
    (ib : Fields) × (rest : Items) × (js ≡ cons (obj ib) rest)
    × IsInbound t.inbound_port (codes "in-" ++ decimal i) ib
    × InboundsFrom (i + 1) targets rest

-- The outbounds of a batch: the k-th is what buildOutbound gives for the k-th target, it carries its number in its tag
-- and it dials the address and the port of the target.
abbrev pub OutboundsFrom : Outbound → ℕ → List BatchTarget → Items → Type 0
OutboundsFrom o i [] js = js ≡ nil
OutboundsFrom o i (t ∷ targets) js =
    (ob : Fields) × (rest : Items) × (js ≡ cons (obj ob) rest)
    × (build_outbound o t.ip t.port (codes "out-" ++ decimal i) ≡ ok ob)
    × IsOutbound o t.ip t.port (codes "out-" ++ decimal i) ob
    × OutboundsFrom o (i + 1) targets rest

-- One inbound and one outbound for each target, in the targets' order, joined by the rule of the same number.
pub record IsWired (o : Outbound) (i : ℕ) (targets : List BatchTarget) (w : Wiring) : Type 0 where
  pub inbound_each : InboundsFrom i targets w.inbounds
  pub outbound_each : OutboundsFrom o i targets w.outbounds
  pub joined : w.rules ≡ rules_from i (length targets)

wire_targets-Yields :
    (o : Outbound) (i : ℕ) (targets : List BatchTarget)
    → i + length targets < 10 ^ 12
    → Yields (IsWired o i targets) (wire_targets o i targets)
unfolding wire_targets
wire_targets-Yields o i [] h = record {
  at = λ w e.
      subst (IsWired o i []) (ok_injective e)
        (record { inbound_each = refl; outbound_each = refl; joined = refl });
}
wire_targets-Yields o i (t ∷ targets) h = Yields-bind _ _ _ λ n printed.
    Yields-bind _ _ _ λ ob made. Yields-bind _ _ _ λ w rest. record {
      at = λ w' e.
          let wired = (wire_targets-Yields o (i + 1) targets (omega (arith, h))).at w rest in
          let name : decimal i ≡ n = ok_injective (
            sym (ap (λ r. or_error r itoa_panic) (xray_itoa-decimal i (omega (arith, h))))
            ∙ printed) in
          let tag = codes "out-" ++ decimal i in
          let built : build_outbound o t.ip t.port tag ≡ ok ob = rw name made in
          let outbound = (build_outbound-IsOutbound o t.ip t.port tag refl).at ob built in
          subst (IsWired o i (t ∷ targets)) (ok_injective e) (record {
            inbound_each = (
              _,
              w.inbounds,
              refl,
              rw (sym name) (inbound-IsInbound t.inbound_port (codes "in-" ++ decimal i)),
              wired.inbound_each,
            );
            outbound_each = (ob, w.outbounds, refl, built, outbound, wired.outbound_each);
            joined = rw (sym name, wired.joined);
          });
    }

-- A batch configuration of fewer than 10^12 targets has, for the k-th target, an HTTP inbound on its local port with
-- the tag in-k, listening on 127.0.0.1, an outbound with the tag out-k whose first server is the target's address and
-- port, which is what buildOutbound gives for them, and the rule that joins the two; and it has no other inbound,
-- outbound or rule.
pub wire_targets-IsWired :
    (o : Outbound) (targets : List BatchTarget) (w : Wiring)
    → length targets < 10 ^ 12
    → wire_targets o 0 targets ≡ ok w
    → IsWired o 0 targets w
wire_targets-IsWired o targets w h e = (wire_targets-Yields o 0 targets (omega (arith, h))).at w e

-- For an outbound of a known protocol, security and network the batch configuration never fails, nor does its
-- counter run out of its buffer.
pub is_ok-wire_targets :
    (o : Outbound) (i : ℕ) (targets : List BatchTarget)
    → (known_security o.security && known_network o.network && known_protocol o.protocol) ≡ true
    → i + length targets < 10 ^ 12
    → is_ok (wire_targets o i targets) ≡ true
unfolding wire_targets
is_ok-wire_targets o i [] known h = refl
is_ok-wire_targets o i (t ∷ targets) known h = rw (xray_itoa-decimal i (omega (arith, h))) (
    is_ok-bind_ok (decimal i) _
    ∙ is_ok-bind (build_outbound o t.ip t.port (codes "out-" ++ decimal i)) _ true (λ ob.
      is_ok-bind (wire_targets o (i + 1) targets) _ true (λ _. refl)
      ∙ ap (λ b. b && true) (is_ok-wire_targets o (i + 1) targets known (omega (arith, h))))
    ∙ ap (λ b. b && true) (is_ok-build_outbound o t.ip t.port _ ∙ known))
