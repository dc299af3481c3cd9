-- ===== src/Link/Parse.antt =====
-- Parse, parseVLESS, parseTrojan, parseVMess and toInt of internal/link/link.go.
use rain_scanner.Base.{
  ◌≡◌, refl, ap, ◌∙◌, ◌⊎◌, ℤ, pos, false, ◌&&◌, ◌||◌, not, List, [], Option, none, some,
  if◌then◌else◌, Text, codes, text_eq, is_empty, has_prefix, trim_prefix, trim_space, Result, ok,
  err, ◌>>=◌, ◌>>◌, require, or_error, Yields, Yields-bind, Bool-cases, inl, inr,
}
use rain_scanner.Base.Decimal.{atoi, atoi_value}
use rain_scanner.Link.Outbound.{
  Outbound, LinkError, unsupported_scheme, bad_url, missing_user, bad_port, bad_base64, bad_json,
  missing_id, first, parse_bool, split_csv, apply_defaults, validate, IsReady,
  validate-apply_defaults,
}
use rain_scanner.Link.Codec.{
  Codec, VmessJson, AnyNumber, float, text, absent, other, decode_base64, decode_fragment,
}

-- toInt
unfoldable pub to_int : AnyNumber → Option ℤ
to_int (float n) = some n
to_int (text t) = if is_empty t then some (pos 0) else atoi t
to_int absent = some (pos 0)
to_int other = none

-- `aid, _ := toInt(v.Aid)`: the value beside the error that is dropped.
unfoldable pub to_int_value : AnyNumber → ℤ
to_int_value (float n) = n
to_int_value (text t) = if is_empty t then pos 0 else atoi_value t
to_int_value absent = pos 0
to_int_value other = pos 0

-- if a := q.Get("alpn"); a != "" { o.ALPN = splitCSV(a) }
abbrev pub alpn_of : Text → List Text
alpn_of a = if is_empty a then [] else split_csv a

abbrev pub ready : Outbound → Result LinkError Outbound
ready o = validate (apply_defaults o)

module _ (c : Codec) where
  open c use {Url}

  abbrev pub vless_outbound : Url → ℤ → Outbound
  vless_outbound u port =
      let q = λ (key : Text). c.query u key in
      record {
        protocol = codes "vless";
        address = c.hostname u;
        port = port;
        id = c.username u;
        password = [];
        network = first (q (codes "type")) (codes "tcp");
        security = first (q (codes "security")) (codes "none");
        sni = q (codes "sni");
        host = q (codes "host");
        path = first (q (codes "path")) (codes "/");
        service = q (codes "serviceName");
        mode = q (codes "mode");
        extra = q (codes "extra");
        header_type = q (codes "headerType");
        alpn = alpn_of (q (codes "alpn"));
        fp = q (codes "fp");
        ech = q (codes "ech");
        allow_insecure =
            parse_bool (q (codes "allowInsecure")) || parse_bool (q (codes "insecure"));
        flow = q (codes "flow");
        public_key = q (codes "pbk");
        short_id = q (codes "sid");
        spider_x = q (codes "spx");
        alter_id = pos 0;
        cipher = [];
        remark = decode_fragment c (c.fragment u);
      }

  abbrev pub trojan_outbound : Url → ℤ → Outbound
  trojan_outbound u port =
      let q = λ (key : Text). c.query u key in
      record {
        protocol = codes "trojan";
        address = c.hostname u;
        port = port;
        id = [];
        password = c.username u;
        network = first (q (codes "type")) (codes "tcp");
        security = first (q (codes "security")) (codes "tls");
        sni = q (codes "sni");
        host = q (codes "host");
        path = first (q (codes "path")) (codes "/");
        service = q (codes "serviceName");
        mode = q (codes "mode");
        extra = q (codes "extra");
        header_type = q (codes "headerType");
        alpn = alpn_of (q (codes "alpn"));
        fp = q (codes "fp");
        ech = q (codes "ech");
        allow_insecure =
            parse_bool (q (codes "allowInsecure")) || parse_bool (q (codes "insecure"));
        flow = q (codes "flow");
        public_key = [];
        short_id = [];
        spider_x = [];
        alter_id = pos 0;
        cipher = [];
        remark = decode_fragment c (c.fragment u);
      }

  unfoldable pub parse_vless : Text → Result LinkError Outbound
  parse_vless raw = do
    u ← or_error (c.parse_url raw) bad_url
    require (c.has_user u && not (is_empty (c.username u))) missing_user
    port ← or_error (atoi (c.port u)) bad_port
    ready (vless_outbound u port)

  unfoldable pub parse_trojan : Text → Result LinkError Outbound
  parse_trojan raw = do
    u ← or_error (c.parse_url raw) bad_url
    require (c.has_user u && not (is_empty (c.username u))) missing_user
    port ← or_error (atoi (c.port u)) bad_port
    ready (trojan_outbound u port)

  abbrev pub vmess_outbound : VmessJson → ℤ → Outbound
  vmess_outbound v port = record {
    protocol = codes "vmess";
    address = v.add;
    port = port;
    id = v.id;
    password = [];
    network = first v.net (codes "tcp");
    security = first v.tls (codes "none");
    sni = v.sni;
    host = v.host;
    path = first v.path (codes "/");
    service = if text_eq v.net (codes "grpc") then v.path else [];
    mode = [];
    extra = [];
    header_type = [];
    alpn = alpn_of v.alpn;
    fp = v.fp;
    ech = v.ech;
    allow_insecure = false;
    flow = [];
    public_key = [];
    short_id = [];
    spider_x = [];
    alter_id = to_int_value v.aid;
    cipher = first v.scy (codes "auto");
    remark = v.ps;
  }

  unfoldable pub parse_vmess : Text → Result LinkError Outbound
  parse_vmess raw = do
    let payload = trim_prefix raw (codes "vmess://")
    bytes ← or_error (decode_base64 c payload) bad_base64
    v ← or_error (c.vmess_of bytes) bad_json
    port ← or_error (to_int v.port) bad_port
    require (not (is_empty v.id)) missing_id
    ready (vmess_outbound v port)

  unfoldable pub parse : Text → Result LinkError Outbound
  parse raw =
      let t = trim_space raw in
      if has_prefix t (codes "vless://")
      then parse_vless t
      else if has_prefix t (codes "vmess://")
      then parse_vmess t
      else if has_prefix t (codes "trojan://")
      then parse_trojan t
      else err unsupported_scheme

  -- An outbound of the protocol that a parser builds before the defaults.
  abbrev From : Text → Outbound → Type 0
  From scheme r = (o : Outbound) × (o.protocol ≡ scheme) × (validate (apply_defaults o) ≡ ok r)

  parse_vless-From : (raw : Text) → Yields (From (codes "vless")) (parse_vless raw)
  unfolding parse_vless
  parse_vless-From raw = Yields-bind _ _ _ λ u _.
      Yields-bind _ _ _
        λ _ _. Yields-bind _ _ _ λ port _. record { at = λ r e. (vless_outbound u port, refl, e) }

  parse_trojan-From : (raw : Text) → Yields (From (codes "trojan")) (parse_trojan raw)
  unfolding parse_trojan
  parse_trojan-From raw = Yields-bind _ _ _ λ u _.
      Yields-bind _ _ _
        λ _ _. Yields-bind _ _ _ λ port _. record { at = λ r e. (trojan_outbound u port, refl, e) }

  parse_vmess-From : (raw : Text) → Yields (From (codes "vmess")) (parse_vmess raw)
  unfolding parse_vmess
  parse_vmess-From raw = Yields-bind _ _ _ λ _ _. Yields-bind _ _ _ λ v _.
      Yields-bind _ _ _
        λ port _. Yields-bind _ _ _ λ _ _. record { at = λ r e. (vmess_outbound v port, refl, e) }

  From-IsReady : (scheme : Text) (r : Outbound) → From scheme r → IsReady r × (r.protocol ≡ scheme)
  unfolding apply_defaults
  From-IsReady scheme r (o, p, e) =
      let (ready_r, same) = validate-apply_defaults o r e in
      (ready_r, ap (λ (x : Outbound). x.protocol) same ∙ p)

  -- What each scheme's parser returns.
  abbrev pub Accepted : Outbound → Type 0
  Accepted r =
      IsReady r
      × ((r.protocol ≡ codes "vless")
          ⊎ ((r.protocol ≡ codes "vmess") ⊎ (r.protocol ≡ codes "trojan")))

  -- Every link that Parse accepts, whatever its scheme, gives an outbound that is ready to dial, of one of the
  -- three protocols that the generated configurations know.
  pub parse-IsReady : (raw : Text) (r : Outbound) → parse raw ≡ ok r → Accepted r
  unfolding parse
  parse-IsReady raw r e =
      let t = trim_space raw in
      elim (Bool-cases (has_prefix t (codes "vless://"))) [
        | inl a ↦
            let (x, y) = From-IsReady _ r ((parse_vless-From t).at r (rw a at e)) in (x, inl y)
        | inr a ↦ elim (Bool-cases (has_prefix t (codes "vmess://"))) [
          | inl b ↦
              let (x, y) = From-IsReady _ r ((parse_vmess-From t).at r (rw (a, b) at e)) in
              (x, inr (inl y))
          | inr b ↦ elim (Bool-cases (has_prefix t (codes "trojan://"))) [
            | inl d ↦
                let (x, y) = From-IsReady _ r ((parse_trojan-From t).at r (rw (a, b, d) at e)) in
                (x, inr (inr y))
            | inr d ↦ cc (rw (a, b, d) at e)
          ]
        ]
      ]
