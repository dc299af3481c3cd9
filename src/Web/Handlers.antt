-- ===== src/Web/Handlers.antt =====
-- The handlers of internal/web/server.go behind its routing table, one request at a time. What encoding/json makes of the
-- body is in the request, `none` where it refuses it; a reply is what is written, or the status of http.Error.
pub mod Trust
pub mod Edits
pub mod Tests
use rain_scanner.Base.{
  ℕ, zero, suc, ◌+◌, Bool, true, false, ◌&&◌, not, List, [], ◌∷◌, map, Option, none, some,
  if◌then◌else◌, Text, codes, text_eq, is_empty, is_some, length, count_if, Result, ok, err,
}
use rain_scanner.IpRange.Netip.{Netip}
use rain_scanner.IpRange.Entries.{split}
use rain_scanner.Storage.{Store}
use rain_scanner.Providers.Manifest.{Sources}
use rain_scanner.Providers.Fetch.{Feed, FetchOptions}
use rain_scanner.Targets.{Record, Registry, TargetError, Step, list, get}
use rain_scanner.Targets.Upsert.{upsert}
use rain_scanner.Targets.Remove.{delete}
use rain_scanner.Targets.Reload.{reload}
use rain_scanner.App.{ScanRequest}
use rain_scanner.App.Service.{ReloadResult, RefreshError, Service, refresh_manifest, reload_all}
use rain_scanner.Web.Jobs.{Job, new_job}
use rain_scanner.Web.Requests.{
  Rejection, post_only, cross_origin, bad_content_type, bad_request, too_many_ports, invalid_port,
  bad_xray_path, no_target, empty_custom, already_running, Headers, host_allowed, guard_mutation,
  Stat, Call, handle_scan,
}
use rain_scanner.Web.Protocol.{
  Endpoint, Method, Reloaded, Reply, Request, all_reloaded, cdns, delete_method, get_method,
  is_post, name_list, other_method, other_reply, page, post_method, range_list, ranges, refused,
  reload_target, reload_targets, removed, route, scan, started, status_of, stop, stopping, stored,
  stream, target_list, targets,
}

abbrev pub has_error : ReloadResult → Bool
has_error x = is_some x.error

module _ (store : Store) where
  -- The server: the service, the jobs, the flag, the job whose context `cancel` ends, and the jobs whose context was
  -- ended.
  pub record Server : Type 0 where
    pub service : Service store
    pub jobs : List Job
    pub scanning : Bool
    pub cancel : Option Text
    pub stopped : List Text

  abbrev pub with_step : {A : Type 0} → Server → Step store A → Server
  with_step sv step = record sv {
    service = record sv.service { registry = step.registry; state = step.state };
  }

  abbrev pub reply_or : {A : Type 0} → ℕ → (A → Reply) → Result TargetError A → Reply
  reply_or status f (ok a) = f a
  reply_or status f (err e) = refused status

  -- What the machine and the network do during a request: mime.ParseMediaType, os.Stat, the fresh id and the time of a
  -- new job, the manifest's copies and the feeds.
  pub record World : Type 0 where
    pub media_of : Text → Option Text
    pub stat : Text → Stat
    pub fresh : Text
    pub now : ℕ
    pub sources : Sources
    pub feeds : ℕ → Feed

  module _ (np : Netip) (scheme_of : Text → Option Text) (w : World) where
    -- The guard in front of a handler that changes state.
    abbrev pub guarded : Headers → Server → Reply × Server → Reply × Server
    guarded h sv next = elim (guard_mutation w.media_of h) [
      | err x ↦ (refused (status_of x), sv)
      | ok u ↦ next
    ]

    unfoldable pub handle_cdns : Server → Reply × Server
    handle_cdns sv = (name_list (map (λ (r : Record). r.name) (list sv.service.registry)), sv)

    unfoldable pub handle_ranges : Request → Server → Reply × Server
    handle_ranges req sv =
        if is_empty req.cdn then (refused 400, sv) else elim (get sv.service.registry req.cdn) [
          | none ↦ (refused 404, sv)
          | some rec ↦ (range_list rec (split np rec.cidrs).0 (split np rec.cidrs).1, sv)
        ]

    abbrev pub post_target : Server → Option Record → Reply × Server
    post_target sv none = (refused 400, sv)
    post_target sv (some rec) =
        let step = upsert store np scheme_of sv.service.registry sv.service.state rec in
        (reply_or 400 stored step.result, with_step sv step)

    abbrev pub delete_target : Server → Text → Reply × Server
    delete_target sv name =
        let step = delete store sv.service.registry sv.service.state name in
        if is_empty name
        then (refused 400, sv)
        else (reply_or 500 removed step.result, with_step sv step)

    abbrev pub targets_by : Method → Request → Server → Reply × Server
    targets_by get_method req sv = (target_list (list sv.service.registry), sv)
    targets_by post_method req sv = guarded req.headers sv (post_target sv req.record_body)
    targets_by delete_method req sv = guarded req.headers sv (delete_target sv req.name)
    targets_by other_method req sv = (refused 405, sv)

    unfoldable pub handle_targets : Request → Server → Reply × Server
    handle_targets req sv = targets_by req.method req sv

    abbrev pub options : Bool → FetchOptions
    options prefer = record { prefer_backup = prefer; no_backup = false }

    abbrev pub reload_named : Server → Option (Text × Bool) → Reply × Server
    reload_named sv none = (refused 400, sv)
    reload_named sv (some (name, prefer)) =
        let step =
          reload store np scheme_of (w.feeds 0) sv.service.manifest sv.service.registry
            sv.service.state name (options prefer) in
        (reply_or 502 stored step.result, with_step sv step)

    abbrev pub posted : Request → Server → Reply × Server → Reply × Server
    posted req sv next =
        if is_post req.method then guarded req.headers sv next else (refused 405, sv)

    unfoldable pub handle_target_reload : Request → Server → Reply × Server
    handle_target_reload req sv = posted req sv (reload_named sv req.reload_body)

    abbrev pub prefers : Option Bool → Bool
    prefers none = false
    prefers (some b) = b

    -- The counts of the reply.
    unfoldable pub summed : Result RefreshError (List Text) → List ReloadResult → Reloaded
    summed restored results = record {
      reloaded = count_if (λ x. not (has_error x)) results;
      failed = count_if has_error results;
      restored = restored;
      results = results;
    }

    abbrev pub reload_every : Server → Bool → Reply × Server
    reload_every sv prefer =
        let (restored, s) = refresh_manifest store w.sources sv.service in
        let (results, s') = reload_all store np scheme_of w.feeds (options prefer) s in
        (all_reloaded (summed restored results), record sv { service = s' })

    unfoldable pub handle_target_reload_all : Request → Server → Reply × Server
    handle_target_reload_all req sv = posted req sv (reload_every sv (prefers req.prefer_body))

    abbrev pub call_of : Request → Call
    call_of req = record {
      post = is_post req.method;
      headers = req.headers;
      body = req.scan_body;
      media_of = w.media_of;
      stat = w.stat;
    }

    abbrev pub scan_started : Server → Result Rejection ScanRequest × Bool → Reply × Server
    scan_started sv (err x, scanning) = (refused (status_of x), sv)
    scan_started sv (ok req, scanning) = (
      started w.fresh,
      record sv { jobs = (new_job w.fresh w.now sv.jobs).1; scanning = scanning },
    )

    -- handleScan, up to the start of its goroutine.
    unfoldable pub handle_scan_request : Request → Server → Reply × Server
    handle_scan_request req sv = scan_started sv (handle_scan (call_of req) sv.scanning)

    abbrev pub end_context : Server → Option Text → Server
    end_context sv none = sv
    end_context sv (some id) = record sv { stopped = id ∷ sv.stopped }

    unfoldable pub handle_stop : Request → Server → Reply × Server
    handle_stop req sv = posted req sv (stopping, end_context sv sv.cancel)

    abbrev pub dispatch : Endpoint → Request → Server → Reply × Server
    dispatch page req sv = (other_reply, sv)
    dispatch cdns req sv = handle_cdns sv
    dispatch ranges req sv = handle_ranges req sv
    dispatch targets req sv = handle_targets req sv
    dispatch reload_target req sv = handle_target_reload req sv
    dispatch reload_targets req sv = handle_target_reload_all req sv
    dispatch scan req sv = handle_scan_request req sv
    dispatch stop req sv = handle_stop req sv
    dispatch stream req sv = (other_reply, sv)

    -- The handler of Serve, with the hosts that it accepts and net.SplitHostPort, of which the host.
    unfoldable pub serve :
        Option (List Text) → (Text → Option Text) → Request → Server → Reply × Server
    serve allowed split_host req sv =
        if host_allowed split_host allowed req.headers.host
        then dispatch (route req.path) req sv
        else (refused 403, sv)
