-- ===== src/Xray/Stream.antt =====
-- internal/xray/config.go: the stream settings of an outbound. `map[string]any` is a JSON object.
use rain_scanner.Base.{
  true, not, ◌||◌, List, [], ◌∷◌, if◌then◌else◌, Text, codes, text_eq, is_empty, Result, ok, err,
  ◌>>=◌,
}
use rain_scanner.Base.Json.{
  bool, str, raw, arr, obj, Items, nil, cons, Fields, end, field, put, only,
}
use rain_scanner.Link.Outbound.{Outbound}

pub data ConfigError : Type 0 where
  unsupported_protocol unsupported_security unsupported_network : Text → ConfigError
  marshal_failed itoa_panic : ConfigError

-- firstNonEmpty(a, b)
unfoldable pub first_non_empty : Text → Text → Text
first_non_empty a b = if not (is_empty a) then a else if not (is_empty b) then b else []

-- if t != "" { m[key] = t }
abbrev pub put_unless_empty : Text → Text → Fields → Fields
put_unless_empty key t m = if is_empty t then m else put key (str t) m

abbrev pub texts : List Text → Items
texts [] = nil
texts (t ∷ ts) = cons (str t) (texts ts)

-- The "tlsSettings" object.
unfoldable pub tls_settings : Outbound → Fields
tls_settings o =
    let tls =
      field (codes "serverName") (str o.sni)
        (field (codes "allowInsecure") (bool o.allow_insecure) end) in
    let tls = put_unless_empty (codes "fingerprint") o.fp tls in
    let tls = if is_empty o.alpn then tls else put (codes "alpn") (arr (texts o.alpn)) tls in
    put_unless_empty (codes "echConfigList") o.ech tls

unfoldable pub reality_settings : Outbound → Fields
unfolding first_non_empty
reality_settings o = field (codes "serverName") (str o.sni) (
    field (codes "fingerprint") (str (first_non_empty o.fp (codes "chrome"))) (
      field (codes "publicKey") (str o.public_key)
        (field (codes "shortId") (str o.short_id) (field (codes "spiderX") (str o.spider_x) end))))

-- The switch on o.Security.
unfoldable pub with_security : Outbound → Fields → Result ConfigError Fields
with_security o ss =
    if is_empty o.security || text_eq o.security (codes "none")
    then ok (put (codes "security") (str (codes "none")) ss)
    else if text_eq o.security (codes "tls")
    then ok (
        put (codes "tlsSettings") (obj (tls_settings o))
          (put (codes "security") (str (codes "tls")) ss))
    else if text_eq o.security (codes "reality")
    then ok (
        put (codes "realitySettings") (obj (reality_settings o))
          (put (codes "security") (str (codes "reality")) ss))
    else err (unsupported_security o.security)

abbrev pub grpc_settings : Outbound → Fields
grpc_settings o =
    let grpc = field (codes "serviceName") (str o.service) end in
    if text_eq o.mode (codes "multi") then put (codes "multiMode") (bool true) grpc else grpc

abbrev pub xhttp_settings : Outbound → Fields
xhttp_settings o =
    let xs = field (codes "host") (str o.host) (field (codes "path") (str o.path) end) in
    let xs = put_unless_empty (codes "mode") o.mode xs in
    if is_empty o.extra then xs else put (codes "extra") (raw o.extra) xs

-- The HTTP obfuscation of a raw TCP stream.
abbrev pub tcp_settings : Outbound → Fields
tcp_settings o =
    field (codes "header")
      (obj (
        field (codes "type") (str (codes "http")) (
          field (codes "request")
            (obj (
              field (codes "headers") (obj (field (codes "Host") (arr (only (str o.host))) end))
                (field (codes "path") (arr (only (str o.path))) end)))
            end)))
      end

-- The switch on the network.
unfoldable pub with_network : Text → Outbound → Fields → Result ConfigError Fields
with_network network o ss =
    if text_eq network (codes "ws")
    then ok (
        put (codes "wsSettings")
          (obj (
            field (codes "path") (str o.path)
              (field (codes "headers") (obj (field (codes "Host") (str o.host) end)) end)))
          ss)
    else if text_eq network (codes "grpc")
    then ok (put (codes "grpcSettings") (obj (grpc_settings o)) ss)
    else if text_eq network (codes "http") || text_eq network (codes "h2")
    then ok (
        put (codes "httpSettings")
          (obj (
            field (codes "host") (arr (only (str o.host))) (field (codes "path") (str o.path) end)))
          (put (codes "network") (str (codes "http")) ss))
    else if text_eq network (codes "xhttp") || text_eq network (codes "splithttp")
    then ok (
        put (codes "xhttpSettings") (obj (xhttp_settings o))
          (put (codes "network") (str (codes "xhttp")) ss))
    else if text_eq network (codes "tcp")
    then ok (
        if text_eq o.header_type (codes "http")
        then put (codes "tcpSettings") (obj (tcp_settings o)) ss
        else ss)
    else err (unsupported_network network)

unfoldable pub stream_settings : Outbound → Result ConfigError Fields
stream_settings o = do
  let network = if is_empty o.network then codes "tcp" else o.network
  ss ← with_security o (field (codes "network") (str network) end)
  with_network network o ss
