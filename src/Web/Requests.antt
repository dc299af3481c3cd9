-- ===== src/Web/Requests.antt =====
-- The guards of internal/web/server.go, handleScan up to the start of its goroutine, and buildResult. A header that is
-- not there is the empty text; `media_of` is mime.ParseMediaType, `stat` tells what os.Stat says of a path, and
-- `scanning` is the atomic flag.
pub mod Guards
use rain_scanner.Base.{
  ℕ, suc, ◌+◌, Bool, true, false, ◌&&◌, ◌||◌, not, List, [], ◌∷◌, ◌++◌, Option, none, some,
  if◌then◌else◌, ltb, leb, ◌==◌, ℤ, pos_part, Text, codes, text_eq, has_prefix, has_code, to_lower,
  trim, is_empty, length, Result, ok, err, ◌>>=◌, ◌>>◌, require, or_error, Bool-cases,
}
use rain_scanner.Link.Codec.{Codec}
use rain_scanner.Link.Substitute.{substitute}
use rain_scanner.Output.{Entry}
use rain_scanner.Pipeline.{Endpoint, Summary}
use rain_scanner.App.{ScanRequest, CustomRange}
use rain_scanner.Providers.Normalize.{has_text}

pub data Rejection : Type 0 where
  post_only cross_origin bad_content_type bad_request too_many_ports invalid_port bad_xray_path :
      Rejection
  no_target empty_custom already_running : Rejection

pub record Headers : Type 0 where
  pub host : Text
  pub origin : Text
  pub content_type : Text

-- The values of the Host header that are accepted, for the host of the listen address; `none` accepts all.
unfoldable pub allowed_hosts : Option Text → Option (List Text)
allowed_hosts none = none
allowed_hosts (some host) =
    if is_empty host || (text_eq host (codes "0.0.0.0") || text_eq host (codes "::"))
    then none
    else (let bare = to_lower (trim (λ c. (c == b'[') || (c == b']')) host) in
        if text_eq host (codes "127.0.0.1") || text_eq host (codes "::1")
        then some (bare ∷ codes "localhost" ∷ codes "127.0.0.1" ∷ codes "::1" ∷ [])
        else some (bare ∷ []))

-- Whether the handler of Serve lets a request through; `split_host` is net.SplitHostPort, of which the host.
unfoldable pub host_allowed : (Text → Option Text) → Option (List Text) → Text → Bool
host_allowed split_host none host = true
host_allowed split_host (some allowed) host =
    let h : Text = elim (split_host host) [ none ↦ host | some hp ↦ hp ] in
    has_text (to_lower (trim (λ c. (c == b'[') || (c == b']')) h)) allowed

unfoldable pub guard_mutation : (Text → Option Text) → Headers → Result Rejection (Unit {0})
guard_mutation media_of h = do
  require
      (is_empty h.origin
        || (text_eq h.origin (codes "http://" ++ h.host)
            || text_eq h.origin (codes "https://" ++ h.host)))
      cross_origin
  require
      (is_empty h.content_type || elim (media_of h.content_type) [
        | none ↦ false
        | some mt ↦ text_eq mt (codes "application/json")
      ])
      bad_content_type

-- What os.Stat says of a path.
pub data Stat : Type 0 where
  not_found directory regular : Stat

abbrev is_regular : Stat → Bool
is_regular not_found = false
is_regular directory = false
is_regular regular = true

-- checkLocalXrayPath
unfoldable pub local_xray_path : (Text → Stat) → Text → Bool
local_xray_path stat p =
    if has_prefix p (codes "\\\\") || has_prefix p (codes "//")
    then false
    else if has_code b'/' p || has_code b'\\' p
    then is_regular (stat p)
    else true

abbrev pub valid_port : ℤ → Bool
valid_port p = ltb 0 (pos_part p) && leb (pos_part p) 65535

abbrev pub all_valid : List ℤ → Bool
all_valid [] = true
all_valid (p ∷ ps) = valid_port p && all_valid ps

abbrev pub has_cidrs : Option CustomRange → Bool
has_cidrs none = true
has_cidrs (some c) = not (is_empty c.cidrs)

abbrev pub has_target : ScanRequest → Bool
has_target req = elim req.custom [ none ↦ not (is_empty req.cdn) | some c ↦ true ]

-- What handleScan needs of the request and of the machine.
pub record Call : Type 0 where
  pub post : Bool
  pub headers : Headers
  pub body : Option ScanRequest
  pub media_of : Text → Option Text
  pub stat : Text → Stat

-- The checks of handleScan, in order.
unfoldable pub check_scan : Call → Result Rejection ScanRequest
check_scan c = do
  require c.post post_only
  guard_mutation c.media_of c.headers
  req ← or_error c.body bad_request
  require (leb (length req.ports) 64) too_many_ports
  require (all_valid req.ports) invalid_port
  require (is_empty req.xray_path || local_xray_path c.stat req.xray_path) bad_xray_path
  require (has_target req) no_target
  require (has_cidrs req.custom) empty_custom
  ok req

abbrev pub start : Result Rejection ScanRequest → Bool → Result Rejection ScanRequest × Bool
start (err e) scanning = (err e, scanning)
start (ok req) true = (err already_running, true)
start (ok req) false = (ok req, true)

-- handleScan, with the flag `scanning` before and after: the request whose scan is started.
unfoldable pub handle_scan : Call → Bool → Result Rejection ScanRequest × Bool
handle_scan c scanning = start (check_scan c) scanning

-- The payload of the "result" event, of the first summary.
pub record ScanResult : Type 0 where
  pub tcp_ips : List Text
  pub confirmed_ips : List Text
  pub configs : List Text

-- The addresses of the endpoints, each once; the keys of `seen` are the addresses so far.
unfoldable pub unique_ips : List Endpoint → List Text → List Text
unique_ips [] out = out
unique_ips (ep ∷ eps) out = unique_ips eps (if has_text ep.ip out then out else out ++ ep.ip ∷ [])

module _ (c : Codec) where
  abbrev pub ips_of : List Entry → List Text
  ips_of [] = []
  ips_of (e ∷ es) = e.ip ∷ ips_of es

  abbrev pub configs_of : Text → List Entry → List Text
  configs_of link [] = []
  configs_of link (e ∷ es) =
      let rest = configs_of link es in
      if is_empty link
      then rest
      else elim (substitute c link e.ip e.port) [ ok cfg ↦ cfg ∷ rest | err x ↦ rest ]

  unfoldable pub build_result : List Summary → Text → ScanResult
  build_result [] link = record { tcp_ips = []; confirmed_ips = []; configs = [] }
  build_result (s ∷ summaries) link = record {
    tcp_ips = unique_ips s.endpoints [];
    confirmed_ips = ips_of s.entries;
    configs = configs_of link s.entries;
  }
