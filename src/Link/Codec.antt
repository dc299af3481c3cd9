-- ===== src/Link/Codec.antt =====
-- What internal/link/link.go takes from net/url, encoding/json and encoding/base64, as an interface.
use rain_scanner.Base.{
  ℤ, Bool, ◌++◌, Option, none, some, if◌then◌else◌, Text, codes, has_code, trim_space,
}
use rain_scanner.Base.Json.{Fields}

-- A number field of the vmess payload, which is of type `any`: a float64 by its integer part.
pub data AnyNumber : Type 0 where
  float : ℤ → AnyNumber
  text : Text → AnyNumber
  absent : AnyNumber
  other : AnyNumber

-- vmessJSON
pub record VmessJson : Type 0 where
  pub ps : Text
  pub add : Text
  pub port : AnyNumber
  pub id : Text
  pub aid : AnyNumber
  pub scy : Text
  pub net : Text
  pub kind : Text
  pub host : Text
  pub path : Text
  pub tls : Text
  pub sni : Text
  pub alpn : Text
  pub fp : Text
  pub ech : Text

pub data Encoding : Type 0 where
  std raw_std url raw_url : Encoding

pub record Codec : Type 1 where
  pub Url : Type 0
  -- url.Parse, and the parts of a *url.URL
  pub parse_url : Text → Option Url
  pub has_user : Url → Bool
  pub username : Url → Text
  pub hostname : Url → Text
  pub port : Url → Text
  pub query : Url → Text → Text
  pub fragment : Url → Text
  -- u.Host = h, and u.String()
  pub with_host : Url → Text → Url
  pub print_url : Url → Text
  -- url.QueryUnescape
  pub unescape : Text → Option Text
  -- base64
  pub decode : Encoding → Text → Option Text
  pub encode : Text → Text
  -- json.Unmarshal into vmessJSON, and into a map, which stays nil, `some none`, for a `null`; json.Marshal of a map
  pub vmess_of : Text → Option VmessJson
  pub object_of : Text → Option (Option Fields)
  pub print_object : Fields → Text

-- net.JoinHostPort
unfoldable pub join_host_port : Text → Text → Text
join_host_port host port =
    if has_code b':' host
    then codes "[" ++ (host ++ (codes "]:" ++ port))
    else host ++ (codes ":" ++ port)

abbrev pub or_else : Option Text → Option Text → Option Text
or_else (some d) rest = some d
or_else none rest = rest

module _ (c : Codec) where
  -- decodeBase64: the four encodings in turn
  unfoldable pub decode_base64 : Text → Option Text
  decode_base64 s =
      let t = trim_space s in
      or_else (c.decode Encoding.std t) (
        or_else (c.decode Encoding.raw_std t)
          (or_else (c.decode Encoding.url t) (c.decode Encoding.raw_url t)))

  abbrev pub unless : Option Text → Text → Text
  unless none f = f
  unless (some d) f = d

  -- decodeFragment
  unfoldable pub decode_fragment : Text → Text
  decode_fragment f = unless (c.unescape f) f
