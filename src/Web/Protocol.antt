-- ===== src/Web/Protocol.antt =====
-- The requests and the replies of internal/web/server.go, its routing table and the status of a rejection.
use rain_scanner.Base.{
  ℕ, Bool, true, false, List, Option, if◌then◌else◌, Text, codes, text_eq, Result,
}
use rain_scanner.Targets.{Record}
use rain_scanner.App.{ScanRequest}
use rain_scanner.App.Service.{ReloadResult, RefreshError}
use rain_scanner.Web.Requests.{
  Rejection, post_only, cross_origin, bad_content_type, bad_request, too_many_ports, invalid_port,
  bad_xray_path, no_target, empty_custom, already_running, Headers,
}

pub data Method : Type 0 where
  get_method post_method delete_method other_method : Method

abbrev pub is_post : Method → Bool
is_post post_method = true
is_post get_method = false
is_post delete_method = false
is_post other_method = false

-- What a handler reads of a request.
pub record Request : Type 0 where
  pub method : Method
  pub path : Text
  pub headers : Headers
  -- the query's "name" and "cdn"
  pub name : Text
  pub cdn : Text
  pub record_body : Option Record
  pub reload_body : Option (Text × Bool)
  pub prefer_body : Option Bool
  pub scan_body : Option ScanRequest

pub data Endpoint : Type 0 where
  page cdns ranges targets reload_target reload_targets scan stop stream : Endpoint

-- The routing table of Serve; "/" takes every other path.
unfoldable pub route : Text → Endpoint
route p =
    if text_eq p (codes "/api/cdns")
    then cdns
    else if text_eq p (codes "/api/ranges")
    then ranges
    else if text_eq p (codes "/api/targets")
    then targets
    else if text_eq p (codes "/api/targets/reload")
    then reload_target
    else if text_eq p (codes "/api/targets/reload-all")
    then reload_targets
    else if text_eq p (codes "/api/scan")
    then scan
    else if text_eq p (codes "/api/stop")
    then stop
    else if text_eq p (codes "/api/stream")
    then stream
    else page

-- The reply of handleTargetReloadAll.
pub record Reloaded : Type 0 where
  pub reloaded : ℕ
  pub failed : ℕ
  pub restored : Result RefreshError (List Text)
  pub results : List ReloadResult

pub data Reply : Type 0 where
  refused : ℕ → Reply
  name_list : List Text → Reply
  range_list : Record → ℕ → ℕ → Reply
  target_list : List Record → Reply
  stored : Record → Reply
  removed : Bool → Reply
  all_reloaded : Reloaded → Reply
  started : Text → Reply
  stopping other_reply : Reply

-- The status that http.Error gets for a rejection.
unfoldable pub status_of : Rejection → ℕ
status_of post_only = 405
status_of cross_origin = 403
status_of bad_content_type = 415
status_of already_running = 409
status_of bad_request = 400
status_of too_many_ports = 400
status_of invalid_port = 400
status_of bad_xray_path = 400
status_of no_target = 400
status_of empty_custom = 400
