-- ===== src/Xray/Config/Laws.antt =====
-- Which outbounds a configuration exists for, and what of a link enters it.
use rain_scanner.Base.{
  ℕ, ◌≡◌, ◌≢◌, ◌<◌, refl, sym, ap, ◌∙◌, ℤ, pos, Bool, true, false, not, ◌||◌, ◌&&◌, [], ◌∷◌,
  if◌then◌else◌, Text, codes, text_eq, is_empty, has_prefix, trim_space, ok, ◌>>=◌, is_ok, arith,
  some, ok_injective, ◌≤◌, Yields, Yields-bind, is_ok-bind,
}
use rain_scanner.Base.Json.{Fields, str, field, end}
use rain_scanner.Link.Outbound.{Outbound, apply_defaults, filled, validate-apply_defaults}
use rain_scanner.Link.Codec.{Codec}
use rain_scanner.Link.Parse.{parse, parse_vless, vless_outbound}
use rain_scanner.Link.Substitute.{substitute}
use rain_scanner.Link.Substitute.RoundTrip.{Reprints, moved, substitute-parse}
use rain_scanner.Xray.Stream.{
  with_security, with_network, stream_settings, tls_settings, reality_settings,
}
use rain_scanner.Xray.Config.{protocol_settings, build_outbound}

-- The values that the templates know.
abbrev pub known_protocol : Text → Bool
known_protocol p =
    text_eq p (codes "vless") || (text_eq p (codes "vmess") || text_eq p (codes "trojan"))

abbrev pub known_security : Text → Bool
known_security s =
    is_empty s
    || (text_eq s (codes "none") || (text_eq s (codes "tls") || text_eq s (codes "reality")))

abbrev pub known_network : Text → Bool
known_network n =
    is_empty n
    || (text_eq n (codes "ws")
        || (text_eq n (codes "grpc")
            || (text_eq n (codes "http")
                || (text_eq n (codes "h2")
                    || (text_eq n (codes "xhttp")
                        || (text_eq n (codes "splithttp") || text_eq n (codes "tcp")))))))

is_ok-with_security :
    (o : Outbound) (ss : Fields) → is_ok (with_security o ss) ≡ known_security o.security
unfolding with_security
is_ok-with_security o ss = ground arith

is_ok-with_network :
    (n : Text) (o : Outbound) (ss : Fields)
    → is_empty n ≡ false
    → is_ok (with_network n o ss) ≡ known_network n
unfolding with_network
is_ok-with_network n o ss h = ground arith

is_ok-protocol_settings :
    (o : Outbound) (ip : Text) (port : ℤ)
    → is_ok (protocol_settings o ip port) ≡ known_protocol o.protocol
unfolding protocol_settings
is_ok-protocol_settings o ip port = ground arith

known_network_default :
    (n : Text) → known_network (if is_empty n then codes "tcp" else n) ≡ known_network n
unfolding text_eq
known_network_default [] = refl
known_network_default (x ∷ n) = refl

is_ok-stream_settings :
    (o : Outbound)
    → is_ok (stream_settings o) ≡ (known_security o.security && known_network o.network)
unfolding stream_settings
is_ok-stream_settings o =
    let network = if is_empty o.network then codes "tcp" else o.network in
    is_ok-bind (with_security o (field (codes "network") (str network) end))
      (with_network network o) (known_network o.network)
      (λ ss. is_ok-with_network network o ss (ground arith) ∙ known_network_default o.network)
    ∙ ap (λ b. b && known_network o.network) (is_ok-with_security o _)

-- buildOutbound gives a configuration exactly for the outbounds of a known protocol, security and network, whatever
-- the candidate and the tag; in every other case it gives an error.
pub is_ok-build_outbound :
    (o : Outbound) (ip : Text) (port : ℤ) (tag : Text)
    → is_ok (build_outbound o ip port tag)
      ≡ (known_security o.security && known_network o.network && known_protocol o.protocol)
unfolding build_outbound
is_ok-build_outbound o ip port tag =
    is_ok-bind (stream_settings o) _ (known_protocol o.protocol) (λ ss.
      is_ok-bind (protocol_settings o ip port) _ true (λ _. refl)
      ∙ ap (λ b. b && true) (is_ok-protocol_settings o ip port)
      ∙ ground arith)
    ∙ ap (λ b. b && known_protocol o.protocol) (is_ok-stream_settings o)

-- The address and the port of an outbound that states its SNI and its host do not enter the configuration.
build_outbound_elsewhere :
    (o : Outbound) (a : Text) (p : ℤ) (ip : Text) (port : ℤ) (tag : Text)
    → is_empty o.sni ≡ false
    → is_empty o.host ≡ false
    → build_outbound (apply_defaults o) ip port tag
      ≡ build_outbound (apply_defaults (record o { address = a; port = p })) ip port tag
unfolding build_outbound stream_settings protocol_settings with_security with_network tls_settings
    reality_settings apply_defaults filled
build_outbound_elsewhere o a p ip port tag sni host = rw (sni, host)

parse_vless-defaults :
    (c : Codec) (u : c.Url) (raw : Text)
    → has_prefix (trim_space raw) (codes "vless://") ≡ true
    → c.parse_url (trim_space raw) ≡ some u
    → Yields (λ o. (p : ℤ) × (o ≡ apply_defaults (vless_outbound c u p))) (parse c raw)
unfolding parse parse_vless
parse_vless-defaults c u raw scheme parsed =
    rw (scheme, parsed)
      (Yields-bind _ _ _ λ v e. Yields-bind _ _ _ λ _ _. Yields-bind _ _ _ λ port _. record {
        at = λ o e'. (
          port,
          (validate-apply_defaults _ o e').1
              ∙ ap (λ w. apply_defaults (vless_outbound c w port)) (sym (ok_injective e)),
        );
      })

-- The configuration that is tested is the one that the emitted link describes: a vless link that states its SNI
-- and its host, tested at a candidate address and port in range, and the same link with that address and port
-- substituted, parsed again and dialled where it says, give xray-core the same outbound.
pub tested-emitted :
    (c : Codec) (u : c.Url) (raw ip : Text) (port : ℕ) (o o' : Outbound) (tag : Text)
    → has_prefix (trim_space raw) (codes "vless://") ≡ true
    → c.parse_url (trim_space raw) ≡ some u
    → Reprints c u ip port
    → (c.has_user u && not (is_empty (c.username u))) ≡ true
    → is_empty (c.query u (codes "sni")) ≡ false
    → is_empty (c.query u (codes "host")) ≡ false
    → ip ≢ []
    → 0 < port
    → port ≤ 65535
    → parse c raw ≡ ok o
    → (substitute c raw ip (pos port) >>= parse c) ≡ ok o'
    → build_outbound o ip (pos port) tag ≡ build_outbound o' o'.address o'.port tag
tested-emitted c u raw ip port o o' tag scheme parsed r user sni host named low high e e' =
    let (p, first) = (parse_vless-defaults c u raw scheme parsed).at o e in
    let second : o' ≡ apply_defaults (moved c u ip port) =
      ok_injective
        (sym e' ∙ substitute-parse c u raw ip port scheme parsed r user named low high) in
    rw (first, second)
      (unfold apply_defaults in
        build_outbound_elsewhere (vless_outbound c u p) ip (pos port) ip (pos port) tag sni host)
