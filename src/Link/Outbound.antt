-- ===== src/Link/Outbound.antt =====
-- Outbound, applyDefaults, validate and the small helpers of internal/link/link.go.
use rain_scanner.Base.{
  ◌≤◌, ◌<◌, ◌≡◌, ◌≢◌, sym, subst, ℤ, Bool, ◌||◌, not, List, [], ◌∷◌, arith, if◌then◌else◌, ltb,
  pos_part, Text, codes, text_eq, text_eq_iff, is_empty, to_lower, trim_space, split_on, Result, ok,
  err,
}

pub record Outbound : Type 0 where
  pub protocol : Text
  pub address : Text
  pub port : ℤ
  pub id : Text
  pub password : Text
  pub network : Text
  pub security : Text
  pub sni : Text
  pub host : Text
  pub path : Text
  pub service : Text
  pub mode : Text
  pub extra : Text
  pub header_type : Text
  pub alpn : List Text
  pub fp : Text
  pub ech : Text
  pub allow_insecure : Bool
  pub flow : Text
  pub public_key : Text
  pub short_id : Text
  pub spider_x : Text
  pub alter_id : ℤ
  pub cipher : Text
  pub remark : Text

-- The errors of Parse and Substitute.
pub data LinkError : Type 0 where
  unsupported_scheme bad_url missing_user bad_port bad_base64 bad_json missing_id : LinkError
  missing_address invalid_port missing_port nil_map_panic : LinkError

-- first(a, b)
unfoldable pub first : Text → Text → Text
first a b = if not (is_empty a) then a else if not (is_empty b) then b else []

unfoldable pub parse_bool : Text → Bool
parse_bool s =
    let t = to_lower (trim_space s) in
    text_eq t (codes "1") || (text_eq t (codes "true") || text_eq t (codes "yes"))

abbrev pub parts_of : List Text → List Text
parts_of [] = []
parts_of (p ∷ parts) =
    let t = trim_space p in let rest = parts_of parts in if not (is_empty t) then t ∷ rest else rest

unfoldable pub split_csv : Text → List Text
split_csv s = parts_of (split_on b',' s)

unfoldable pub default_security : Text → Text
default_security s =
    let t = if is_empty s || text_eq s (codes "0") then codes "none" else s in
    if text_eq t (codes "1") then codes "tls" else t

unfoldable pub default_network : Text → Text
default_network n =
    let t = if text_eq n (codes "h2") then codes "http" else n in
    if text_eq t (codes "splithttp") then codes "xhttp" else t

-- if a == "" { a = b }
unfoldable pub filled : Text → Text → Text
filled a b = if is_empty a then b else a

unfoldable pub apply_defaults : Outbound → Outbound
apply_defaults o =
    let host = filled o.host o.address in
    record o {
      security = default_security o.security;
      host = host;
      sni = filled o.sni host;
      network = default_network o.network;
    }

-- validate, and `return o, validate(o)`: callers use the outbound only without an error.
unfoldable pub validate : Outbound → Result LinkError Outbound
validate o =
    if is_empty o.address
    then err missing_address
    else if not (ltb 0 (pos_part o.port)) || ltb 65535 (pos_part o.port)
    then err invalid_port
    else ok o

-- What every accepted outbound satisfies.
pub record IsReady (o : Outbound) : Type 0 where
  pub has_address : o.address ≢ []
  pub has_host : o.host ≢ []
  pub has_sni : o.sni ≢ []
  pub port_low : 0 < pos_part o.port
  pub port_high : pos_part o.port ≤ 65535
  pub security_named : (o.security ≢ []) × (o.security ≢ codes "0") × (o.security ≢ codes "1")
  pub network_canonical : (o.network ≢ codes "h2") × (o.network ≢ codes "splithttp")

default_security_lem :
    (s : Text)
    → (default_security s ≢ [])
      × (default_security s ≢ codes "0")
      × (default_security s ≢ codes "1")
unfolding default_security
default_security_lem s = ground (arith, text_eq_iff s (codes "0"), text_eq_iff s (codes "1"))

default_network_lem :
    (n : Text) → (default_network n ≢ codes "h2") × (default_network n ≢ codes "splithttp")
unfolding default_network
default_network_lem n =
    ground (arith, text_eq_iff n (codes "h2"), text_eq_iff n (codes "splithttp"))

default_security_idem : (s : Text) → default_security (default_security s) ≡ default_security s
unfolding default_security text_eq
default_security_idem s = ground (arith, text_eq_iff s (codes "0"), text_eq_iff s (codes "1"))

default_network_idem : (n : Text) → default_network (default_network n) ≡ default_network n
unfolding default_network text_eq
default_network_idem n =
    ground (arith, text_eq_iff n (codes "h2"), text_eq_iff n (codes "splithttp"))

filled_idem : (a b : Text) → filled (filled a b) b ≡ filled a b
unfolding filled
filled_idem a b = ground arith

filled-ne-nil : (a b : Text) → b ≢ [] → filled a b ≢ []
unfolding filled
filled-ne-nil a b h = ground arith

validate_ok :
    (o r : Outbound)
    → validate o ≡ ok r
    → (r ≡ o) × (o.address ≢ []) × (0 < pos_part o.port) × (pos_part o.port ≤ 65535)
unfolding validate
validate_ok o r e = ground arith

pub validate_good :
    (o : Outbound)
    → (apply_defaults o).address ≢ []
    → 0 < pos_part o.port
    → pos_part o.port ≤ 65535
    → validate (apply_defaults o) ≡ ok (apply_defaults o)
unfolding validate apply_defaults
validate_good o a low high = ground arith

-- An outbound that passes validate after applyDefaults is the defaulted outbound, and it is ready to dial:
-- it has an address, a host and an SNI, a port from 1 to 65535, and no alias is left in its security or
-- its network.
pub validate-apply_defaults :
    (o r : Outbound) → validate (apply_defaults o) ≡ ok r → IsReady r × (r ≡ apply_defaults o)
unfolding apply_defaults
validate-apply_defaults o r e =
    let (same, address, low, high) = validate_ok (apply_defaults o) r e in
    let host = filled-ne-nil o.host o.address address in
    (
      subst IsReady (sym same) (record {
        has_address = address;
        has_host = host;
        has_sni = filled-ne-nil o.sni (filled o.host o.address) host;
        port_low = low;
        port_high = high;
        security_named = default_security_lem o.security;
        network_canonical = default_network_lem o.network;
      }),
      same,
    )

-- applyDefaults changes nothing on its own result.
pub apply_defaults_idem : (o : Outbound) → apply_defaults (apply_defaults o) ≡ apply_defaults o
unfolding apply_defaults
apply_defaults_idem o = rw (
  default_security_idem o.security,
  default_network_idem o.network,
  filled_idem o.host o.address,
  filled_idem o.sni (filled o.host o.address),
)
