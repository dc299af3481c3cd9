-- ===== src/Link/Substitute.antt =====
-- Substitute, substituteURLHost and substituteVMess of internal/link/link.go.
pub mod RoundTrip
use rain_scanner.Base.{
  ℕ, ◌≡◌, ◌≢◌, refl, ap, sym, ◌∙◌, subst, ◌≤◌, ◌<◌, ◌^◌, ℤ, pos, negsuc, Bool, true, false, ◌&&◌,
  ◌||◌, not, List, [], ◌∷◌, ◌++◌, Option, none, some, arith, if◌then◌else◌, Text, codes, is_empty,
  has_prefix, trim_prefix, trim_space, Result, ok, err, ◌>>=◌, ◌>>◌, require, or_error, is_pos,
  text_eq, Bool-cases, inl, inr, pos_part,
}
use rain_scanner.Base.Decimal.{itoa_ℤ, decimal, atoi, atoi-decimal}
use rain_scanner.Base.Json.{Json, str, Fields, put, get, get-put}
use rain_scanner.Link.Outbound.{
  Outbound, LinkError, unsupported_scheme, bad_url, bad_base64, bad_json, missing_port,
  nil_map_panic,
}
use rain_scanner.Link.Codec.{Codec, join_host_port, decode_base64}

module _ (c : Codec) where
  open c use {Url}

  -- The port that a substituted link carries.
  abbrev pub port_text : Url → ℤ → Text
  port_text u port = if is_pos port then itoa_ℤ port else c.port u

  unfoldable pub substitute_url_host : Text → Text → ℤ → Result LinkError Text
  substitute_url_host raw ip port = do
    u ← or_error (c.parse_url raw) bad_url
    require (not (is_empty (port_text u port))) missing_port
    ok (c.print_url (c.with_host u (join_host_port ip (port_text u port))))

  abbrev pub with_address : Fields → Text → ℤ → Fields
  with_address m ip port =
      let m' = put (codes "add") (str ip) m in
      if is_pos port then put (codes "port") (str (itoa_ℤ port)) m' else m'

  -- The write into the map panics if the payload is `null`.
  unfoldable pub substitute_vmess : Text → Text → ℤ → Result LinkError Text
  substitute_vmess raw ip port = do
    bytes ← or_error (decode_base64 c (trim_prefix raw (codes "vmess://"))) bad_base64
    decoded ← or_error (c.object_of bytes) bad_json
    m ← or_error decoded nil_map_panic
    ok (codes "vmess://" ++ c.encode (c.print_object (with_address m ip port)))

  unfoldable pub substitute : Text → Text → ℤ → Result LinkError Text
  substitute raw ip port =
      let t = trim_space raw in
      if has_prefix t (codes "vless://")
      then substitute_url_host t ip port
      else if has_prefix t (codes "trojan://")
      then substitute_url_host t ip port
      else if has_prefix t (codes "vmess://")
      then substitute_vmess t ip port
      else err unsupported_scheme
