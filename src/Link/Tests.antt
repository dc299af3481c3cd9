-- ===== src/Link/Tests.antt =====
-- Runs of the link code, and the theorems about it at concrete arguments.
use rain_scanner.Base.{
  ◌≡◌, refl, ℤ, pos, true, false, List, [], ◌∷◌, Option, some, none, Text, codes, text_eq,
  has_prefix, trim_space, drop, Result, ok, ◌>>=◌, arith, if◌then◌else◌, is_empty, split_on,
}
use rain_scanner.Base.Json.{Fields, field, end, str}
use rain_scanner.Base.Decimal.{decimal, itoa_ℤ, digits}
use rain_scanner.Examples.{simple_links, HostPort}
use rain_scanner.Link.Outbound.{Outbound, apply_defaults, validate}
use rain_scanner.Link.Codec.{join_host_port}
use rain_scanner.Link.Parse.{parse, parse_vless, vless_outbound, Accepted, parse-IsReady}
use rain_scanner.Link.Substitute.{substitute, substitute_url_host}
use rain_scanner.Link.Substitute.RoundTrip.{Reprints, moved, substitute-parse, substitute_identity}

abbrev pub link : Text
link = codes "vless://u@a.example:443"

abbrev pub edge : Text
edge = codes "1.2.3.4"

abbrev pub origin : HostPort
origin = record { name = codes "a.example"; number = codes "443" }

abbrev ready_link : Outbound
ready_link = apply_defaults (vless_outbound simple_links origin (pos 443))

parse-IsReady_example : Accepted simple_links ready_link
unfolding parse has_prefix trim_space parse_vless ◌>>=◌ rain_scanner.Base.Decimal.atoi split_on
    validate apply_defaults
parse-IsReady_example = parse-IsReady simple_links link ready_link refl

-- The link that names the edge, printed and read again.
pub reprinted : Reprints simple_links origin edge 8443
unfolding has_prefix split_on join_host_port rain_scanner.Base.has_code decimal trim_space
reprinted = record {
  v = record { name = edge; number = codes "8443" };
  parses = refl;
  trimmed = refl;
  scheme = refl;
  hostname = refl;
  port_of = refl;
  has_user = refl;
  username = refl;
  query = refl;
  fragment = refl;
}

substitute-parse_example :
    (substitute simple_links link edge (pos 8443) >>= parse simple_links)
    ≡ ok (apply_defaults (moved simple_links origin edge 8443))
unfolding has_prefix trim_space split_on
substitute-parse_example =
    substitute-parse simple_links origin link edge 8443 refl refl reprinted refl (λ e. cc)
      (omega arith) (omega arith)

abbrev moved_link : Outbound
moved_link = apply_defaults (moved simple_links origin edge 8443)

substitute_identity_example : moved_link.sni ≡ codes "sni.example"
unfolding has_prefix trim_space split_on ◌>>=◌ substitute substitute_url_host itoa_ℤ decimal parse
    join_host_port rain_scanner.Base.has_code parse_vless rain_scanner.Base.Decimal.atoi validate
    apply_defaults text_eq
substitute_identity_example =
    substitute_identity simple_links origin link edge 8443 moved_link refl refl reprinted refl
      (λ e. cc) (omega arith) (omega arith) refl

abbrev payload : Fields
payload = field (codes "add") (str (codes "a.example")) (field (codes "x") (str (codes "kept")) end)
