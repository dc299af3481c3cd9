-- ===== src/Link/Substitute/RoundTrip.antt =====
-- A substituted vless link parses to the outbound of the original link, dialled at the new address.
use rain_scanner.Base.{
  ℕ, ◌≡◌, ◌≢◌, ap, ◌≤◌, ◌<◌, ℤ, pos, true, false, ◌&&◌, not, [], some, arith, if◌then◌else◌, Text,
  codes, is_empty, has_prefix, trim_space, ok, ◌>>=◌, lt→ltb, is_pos, text_eq,
}
use rain_scanner.Base.Decimal.{itoa_ℤ, decimal, decimal-ne-nil, atoi, atoi-decimal}
use rain_scanner.Base.Json.{Fields, str, put, get, get-put}
use rain_scanner.Link.Outbound.{Outbound, apply_defaults, validate_good, filled}
use rain_scanner.Link.Codec.{Codec, join_host_port}
use rain_scanner.Link.Parse.{parse, parse_vless, vless_outbound, ready}
use rain_scanner.Link.Substitute.{substitute, substitute_url_host, with_address}

module _ (c : Codec) where
  open c use {Url}

  -- The link that substitution prints of `u`.
  abbrev pub rewritten : Url → Text → ℕ → Text
  rewritten u ip port = c.print_url (c.with_host u (join_host_port ip (decimal port)))

  -- What net/url documents of printing a URL with a new host and parsing it again: the host and the port are
  -- the new ones, and the other parts are kept.
  pub record Reprints (u : Url) (ip : Text) (port : ℕ) : Type 0 where
    pub v : Url
    pub parses : c.parse_url (rewritten u ip port) ≡ some v
    pub trimmed : trim_space (rewritten u ip port) ≡ rewritten u ip port
    pub scheme : has_prefix (rewritten u ip port) (codes "vless://") ≡ true
    pub hostname : c.hostname v ≡ ip
    pub port_of : c.port v ≡ decimal port
    pub has_user : c.has_user v ≡ c.has_user u
    pub username : c.username v ≡ c.username u
    pub query : c.query v ≡ c.query u
    pub fragment : c.fragment v ≡ c.fragment u

  -- The outbound of `u` before the defaults, at another address.
  abbrev pub moved : Url → Text → ℕ → Outbound
  moved u ip port = record (vless_outbound c u (pos port)) { address = ip }

  vless_outbound-Reprints :
      (u : Url) (ip : Text) (port : ℕ) (r : Reprints u ip port)
      → vless_outbound c r.v (pos port) ≡ moved u ip port
  vless_outbound-Reprints u ip port r = rw (r.hostname, r.username, r.query, r.fragment)

  is_empty-decimal : (n : ℕ) → is_empty (decimal n) ≡ false
  is_empty-decimal n = ground (arith, decimal-ne-nil n)

  substitute_vless :
      (u : Url) (raw ip : Text) (port : ℕ)
      → has_prefix (trim_space raw) (codes "vless://") ≡ true
      → c.parse_url (trim_space raw) ≡ some u
      → 0 < port
      → substitute c raw ip (pos port) ≡ ok (rewritten u ip port)
  unfolding substitute substitute_url_host ◌>>=◌ itoa_ℤ
  substitute_vless u raw ip port scheme parsed low =
      rw (scheme, parsed) (rw (lt→ltb 0 port low) (rw (is_empty-decimal port)))

  parse_vless_lem :
      (u : Url) (raw : Text) (port : ℤ)
      → c.parse_url raw ≡ some u
      → (c.has_user u && not (is_empty (c.username u))) ≡ true
      → atoi (c.port u) ≡ some port
      → parse_vless c raw ≡ ready (vless_outbound c u port)
  unfolding parse_vless ◌>>=◌
  parse_vless_lem u raw port parsed user number = rw (parsed, user, number)

  ready-moved :
      (u : Url) (ip : Text) (port : ℕ)
      → ip ≢ []
      → 0 < port
      → port ≤ 65535
      → ready (moved u ip port) ≡ ok (apply_defaults (moved u ip port))
  unfolding apply_defaults
  ready-moved u ip port named low high = validate_good (moved u ip port) named low high

  parse-moved :
      (u : Url) (ip : Text) (port : ℕ) (r : Reprints u ip port)
      → (c.has_user u && not (is_empty (c.username u))) ≡ true
      → ip ≢ []
      → 0 < port
      → port ≤ 65535
      → parse c (rewritten u ip port) ≡ ok (apply_defaults (moved u ip port))
  unfolding parse
  parse-moved u ip port r user named low high =
      rw (r.trimmed, r.scheme)
        (rw
          (parse_vless_lem r.v (rewritten u ip port) (pos port) r.parses
            (rw (r.has_user, r.username) user) (rw r.port_of (atoi-decimal port (omega arith))))
          (rw (vless_outbound-Reprints u ip port r) (ready-moved u ip port named low high)))

  -- Substituting an address and a port in range into a vless link with a user, and parsing the result, gives
  -- the outbound that the original link describes, with that address and that port put in before the
  -- defaults are filled: no other field changes.
  pub substitute-parse :
      (u : Url) (raw ip : Text) (port : ℕ)
      → has_prefix (trim_space raw) (codes "vless://") ≡ true
      → c.parse_url (trim_space raw) ≡ some u
      → Reprints u ip port
      → (c.has_user u && not (is_empty (c.username u))) ≡ true
      → ip ≢ []
      → 0 < port
      → port ≤ 65535
      → (substitute c raw ip (pos port) >>= parse c) ≡ ok (apply_defaults (moved u ip port))
  unfolding ◌>>=◌
  substitute-parse u raw ip port scheme parsed r user named low high =
      rw (substitute_vless u raw ip port scheme parsed)
        (parse-moved u ip port r user named low high)

  -- The identity that the edge routes by, after a substitution into a vless link: a link that states its SNI
  -- keeps it, one that states only a host presents that, and one that states neither presents the
  -- substituted address and no longer its original server name.
  pub substitute_identity :
      (u : Url) (raw ip : Text) (port : ℕ) (o : Outbound)
      → has_prefix (trim_space raw) (codes "vless://") ≡ true
      → c.parse_url (trim_space raw) ≡ some u
      → Reprints u ip port
      → (c.has_user u && not (is_empty (c.username u))) ≡ true
      → ip ≢ []
      → 0 < port
      → port ≤ 65535
      → (substitute c raw ip (pos port) >>= parse c) ≡ ok o
      → o.sni ≡ (
          if is_empty (c.query u (codes "sni"))
          then (if is_empty (c.query u (codes "host")) then ip else c.query u (codes "host"))
          else c.query u (codes "sni"))
  unfolding apply_defaults filled
  substitute_identity u raw ip port o scheme parsed r user named low high e =
      let back = substitute-parse u raw ip port scheme parsed r user named low high in
      let same : o ≡ apply_defaults (moved u ip port) = cc in ap (λ (x : Outbound). x.sni) same

-- In a vmess link a substitution sets "add" to the address, sets "port" if the port is positive, and keeps every
-- other field of the payload, also those that the program does not know.
pub get-with_address :
    (c : Codec) (m : Fields) (ip : Text) (port : ℤ) (k : Text)
    → get k (with_address c m ip port) ≡ (
        if text_eq (codes "port") k && is_pos port
        then some (str (itoa_ℤ port))
        else if text_eq (codes "add") k
        then some (str ip)
        else get k m)
unfolding text_eq
get-with_address c m ip port k = ground (
  arith,
  get-put (codes "add") k (str ip) m,
  get-put (codes "port") k (str (itoa_ℤ port)) (put (codes "add") (str ip) m),
)
