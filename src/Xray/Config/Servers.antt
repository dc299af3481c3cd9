-- ===== src/Xray/Config/Servers.antt =====
-- What the outbounds and the inbounds of a configuration say of the server that is dialled and of the port that is
-- listened on: buildOutbound and GenerateBatchConfig of internal/xray/config.go.
use rain_scanner.Base.{
  ◌≡◌, refl, subst, false, Option, none, some, Text, codes, text_eq, is_empty, ℕ, ℤ, pos,
  Bool-cases, inl, inr, Yields, Yields-bind, ok_injective,
}
use rain_scanner.Base.Json.{field, Json, Fields, cons, num, str, arr, obj, end, get, put}
use rain_scanner.Link.Outbound.{Outbound}
use rain_scanner.Xray.Config.{inbound, protocol_settings, build_outbound}

-- The fields of an object that is the first element of an array.
abbrev first_object : Option Json → Option Fields
first_object (some (arr (cons (obj m) js))) = some m
first_object _ = none

abbrev first_of : Fields → Option Json → Option Fields
first_of settings (some vnext) = first_object (some vnext)
first_of settings none = first_object (get (codes "servers") settings)

-- The first server of a protocol's settings, which is in "vnext" or in "servers".
abbrev pub first_server : Fields → Option Fields
first_server settings = first_of settings (get (codes "vnext") settings)

abbrev object_of : Option Json → Fields
object_of (some (obj m)) = m
object_of _ = end

-- The first server is the address and the port.
abbrev pub Dials : Text → ℤ → Fields → Type 0
Dials ip port settings =
    (m : Fields) × (first_server settings ≡ some m)
    × (get (codes "address") m ≡ some (str ip))
    × (get (codes "port") m ≡ some (num port))

-- The outbound has the tag and the protocol, and the first server of its settings is the address and the port.
pub record IsOutbound (o : Outbound) (ip : Text) (port : ℤ) (tag : Text) (ob : Fields)
    : Type 0 where
  pub tagged : get (codes "tag") ob ≡ some (str tag)
  pub protocol : get (codes "protocol") ob ≡ some (str o.protocol)
  pub server : Dials ip port (object_of (get (codes "settings") ob))

-- The inbound is an HTTP proxy on a port of the local host, under the tag.
pub record IsInbound (port : ℕ) (tag : Text) (ib : Fields) : Type 0 where
  pub tagged : get (codes "tag") ib ≡ some (str tag)
  pub protocol : get (codes "protocol") ib ≡ some (str (codes "http"))
  pub local : get (codes "listen") ib ≡ some (str (codes "127.0.0.1"))
  pub at_port : get (codes "port") ib ≡ some (num (pos port))

pub inbound-IsInbound :
    (port : ℕ) (tag : Text) → IsInbound port tag (inbound port (field (codes "tag") (str tag) end))
unfolding get text_eq
inbound-IsInbound port tag = record { tagged = refl; protocol = refl; local = refl; at_port = refl }

protocol_settings-Dials :
    (o : Outbound) (ip : Text) (port : ℤ) → Yields (Dials ip port) (protocol_settings o ip port)
unfolding protocol_settings get text_eq put
protocol_settings-Dials o ip port = record {
  at = λ s e. elim (Bool-cases (text_eq o.protocol (codes "vless"))) [
    | inl vless ↦ subst (Dials ip port) (ok_injective (rw vless at e)) (_, refl, refl, refl)
    | inr v ↦ elim (Bool-cases (text_eq o.protocol (codes "vmess"))) [
      | inl vmess ↦ subst (Dials ip port) (ok_injective (rw (v, vmess) at e)) (_, refl, refl, refl)
      | inr m ↦ elim (Bool-cases (text_eq o.protocol (codes "trojan"))) [
        | inl trojan ↦ elim (Bool-cases (is_empty o.flow)) [
          | inl f ↦
              subst (Dials ip port) (ok_injective (rw (v, m, trojan, f) at e)) (_, refl, refl, refl)
          | inr f ↦
              subst (Dials ip port) (ok_injective (rw (v, m, trojan, f) at e)) (_, refl, refl, refl)
        ]
        | inr other ↦ cc (rw (v, m, other) at e)
      ]
    ]
  ];
}

-- An outbound under a tag that is not empty carries the tag and dials the address and the port that it was built for.
pub build_outbound-IsOutbound :
    (o : Outbound) (ip : Text) (port : ℤ) (tag : Text)
    → is_empty tag ≡ false
    → Yields (IsOutbound o ip port tag) (build_outbound o ip port tag)
unfolding build_outbound get text_eq put
build_outbound-IsOutbound o ip port tag named = Yields-bind _ _ _ λ stream _.
    Yields-bind _ _ _ λ settings made. record {
      at = λ ob e. subst (IsOutbound o ip port tag) (ok_injective (rw named at e)) (record {
        tagged = refl;
        protocol = refl;
        server = (protocol_settings-Dials o ip port).at settings made;
      });
    }
