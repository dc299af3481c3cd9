-- ===== src/Web/Lifecycle/Served.antt =====
-- What serving one request does to the flag, to `cancel` and to the scans.
use rain_scanner.Base.{
  Result-cases, ℕ, ◌≡◌, refl, Bool, true, false, List, [], ◌∷◌, Option, none, some, Text, Result,
  ok, err, ◌⊎◌, inl, inr, Bool-cases, arith,
}
use rain_scanner.IpRange.Netip.{Netip}
use rain_scanner.Storage.{Store}
use rain_scanner.Targets.{Record, TargetError}
use rain_scanner.App.{ScanRequest}
use rain_scanner.Web.Requests.{Rejection, host_allowed, guard_mutation, handle_scan}
use rain_scanner.Web.Requests.Guards.{handle_scan-IsScannable}
use rain_scanner.Web.Handlers.{
  Server, World, guarded, posted, reply_or, post_target, delete_target, reload_named, reload_every,
  prefers, end_context, handle_cdns, handle_ranges, targets_by, handle_targets,
  handle_target_reload, handle_target_reload_all, call_of, scan_started, handle_scan_request,
  handle_stop, dispatch, serve,
}
use rain_scanner.Web.Protocol.{
  get_method, post_method, delete_method, other_method, Method, Request, Reply, stored, removed,
  started, stopping, Endpoint, page, cdns, ranges, targets, reload_target, reload_targets, scan,
  stop, stream, route, is_post,
}
use rain_scanner.Web.Lifecycle.{Scan, spawned}

pub spawned-stored :
    (store : Store) (status : ℕ) (r : Result TargetError Record) (scans : List Scan)
    → spawned (reply_or store status stored r) scans ≡ scans
spawned-stored store status (ok a) scans = refl
spawned-stored store status (err e) scans = refl

pub spawned-removed :
    (store : Store) (status : ℕ) (r : Result TargetError Bool) (scans : List Scan)
    → spawned (reply_or store status removed r) scans ≡ scans
spawned-removed store status (ok a) scans = refl
spawned-removed store status (err e) scans = refl

module _ (store : Store) where
  -- A request that starts no scan leaves the flag and `cancel`; one that does found the flag down and raises it.
  unfoldable pub Quiet : Server store → Reply × Server store → Type 0
  Quiet sv y =
      (y.1.scanning ≡ sv.scanning)
      × (y.1.cancel ≡ sv.cancel)
      × ((scans : List Scan) → spawned y.0 scans ≡ scans)

  unfoldable pub Begun : Server store → Reply × Server store → Type 0
  Begun sv y =
      (sv.scanning ≡ false)
      × (y.1.scanning ≡ true)
      × (y.1.cancel ≡ sv.cancel)
      × (id : Text) × (y.0 ≡ started id)

  module _ (np : Netip) (scheme_of : Text → Option Text) (w : World store) where
    guarded-Quiet :
        (req : Request) (sv : Server store) (y : Reply × Server store)
        → Quiet sv y
        → Quiet sv (guarded store np scheme_of w req.headers sv y)
    unfolding Quiet
    guarded-Quiet req sv y q = elim (Result-cases (guard_mutation w.media_of req.headers)) [
      | inl (x, e) ↦ rw (e, guarded) (refl, refl, λ scans. refl)
      | inr (u, e) ↦ rw (e, guarded) q
    ]

    posted-Quiet :
        (req : Request) (sv : Server store) (y : Reply × Server store)
        → Quiet sv y
        → Quiet sv (posted store np scheme_of w req sv y)
    unfolding Quiet
    posted-Quiet req sv y q = elim (Bool-cases (is_post req.method)) [
      | inl e ↦ rw e (guarded-Quiet req sv y q)
      | inr e ↦ rw e (refl, refl, λ scans. refl)
    ]

    post_target-Quiet :
        (sv : Server store) (o : Option Record) → Quiet sv (post_target store np scheme_of w sv o)
    unfolding Quiet
    post_target-Quiet sv none = (refl, refl, λ scans. refl)
    post_target-Quiet sv (some rec) = (refl, refl, λ scans. spawned-stored store 400 _ scans)

    delete_target-Quiet :
        (sv : Server store) (name : Text) → Quiet sv (delete_target store np scheme_of w sv name)
    unfolding Quiet
    delete_target-Quiet sv [] = (refl, refl, λ scans. refl)
    delete_target-Quiet sv (c ∷ name) = (refl, refl, λ scans. spawned-removed store 500 _ scans)

    reload_named-Quiet :
        (sv : Server store) (o : Option (Text × Bool))
        → Quiet sv (reload_named store np scheme_of w sv o)
    unfolding Quiet
    reload_named-Quiet sv none = (refl, refl, λ scans. refl)
    reload_named-Quiet sv (some (name, prefer)) =
        (refl, refl, λ scans. spawned-stored store 502 _ scans)

    end_context-Quiet :
        (sv : Server store) (o : Option Text)
        → Quiet sv (stopping, end_context store np scheme_of w sv o)
    unfolding Quiet
    end_context-Quiet sv none = (refl, refl, λ scans. refl)
    end_context-Quiet sv (some id) = (refl, refl, λ scans. refl)

    ranges-Quiet :
        (req : Request) (sv : Server store) → Quiet sv (handle_ranges store np scheme_of w req sv)
    unfolding Quiet handle_ranges
    ranges-Quiet req sv = (ground arith, ground arith, λ scans. ground arith)

    targets_by-Quiet :
        (m : Method) (req : Request) (sv : Server store)
        → Quiet sv (targets_by store np scheme_of w m req sv)
    unfolding Quiet
    targets_by-Quiet get_method req sv = (refl, refl, λ scans. refl)
    targets_by-Quiet other_method req sv = (refl, refl, λ scans. refl)
    targets_by-Quiet post_method req sv =
        guarded-Quiet req sv _ (post_target-Quiet sv req.record_body)
    targets_by-Quiet delete_method req sv = guarded-Quiet req sv _ (delete_target-Quiet sv req.name)

    scan_lem :
        (req : Request) (sv : Server store)
        → let y = handle_scan_request store np scheme_of w req sv in Quiet sv y ⊎ Begun sv y
    unfolding handle_scan_request Quiet Begun
    scan_lem req sv =
        go (handle_scan call sv.scanning)
          (λ r e. let (_, down, up) = handle_scan-IsScannable call sv.scanning r e in (down, up))
      where
        call : rain_scanner.Web.Requests.Call
        call = call_of store np scheme_of w req

        go :
            (res : Result Rejection ScanRequest × Bool)
            → ((r : ScanRequest) → res.0 ≡ ok r → (sv.scanning ≡ false) × (res.1 ≡ true))
            → Quiet sv (scan_started store np scheme_of w sv res)
              ⊎ Begun sv (scan_started store np scheme_of w sv res)
        go (err x, b) h = inl (refl, refl, λ scans. refl)
        go (ok r, b) h = inr ((h r refl).0, (h r refl).1, refl, w.fresh, refl)

    dispatch_lem :
        (e : Endpoint) (req : Request) (sv : Server store)
        → let y = dispatch store np scheme_of w e req sv in Quiet sv y ⊎ Begun sv y
    unfolding handle_cdns handle_targets handle_target_reload handle_target_reload_all handle_stop
        Quiet
    dispatch_lem page req sv = inl (refl, refl, λ scans. refl)
    dispatch_lem cdns req sv = inl (refl, refl, λ scans. refl)
    dispatch_lem stream req sv = inl (refl, refl, λ scans. refl)
    dispatch_lem ranges req sv = inl (ranges-Quiet req sv)
    dispatch_lem targets req sv = inl (targets_by-Quiet req.method req sv)
    dispatch_lem reload_target req sv =
        inl (posted-Quiet req sv _ (reload_named-Quiet sv req.reload_body))
    dispatch_lem reload_targets req sv = inl (
        posted-Quiet req sv
          (reload_every store np scheme_of w sv (prefers store np scheme_of w req.prefer_body))
          (refl, refl, λ scans. refl))
    dispatch_lem stop req sv = inl (posted-Quiet req sv _ (end_context-Quiet sv sv.cancel))
    dispatch_lem scan req sv = scan_lem req sv

    pub serve_lem :
        (allowed : Option (List Text)) (split_host : Text → Option Text) (req : Request)
        (sv : Server store)
        → let y = serve store np scheme_of w allowed split_host req sv in Quiet sv y ⊎ Begun sv y
    unfolding serve Quiet Begun
    serve_lem allowed split_host req sv =
        elim (Bool-cases (host_allowed split_host allowed req.headers.host)) [
          | inl e ↦ rw e (dispatch_lem (route req.path) req sv)
          | inr e ↦ rw e (inl (refl, refl, λ scans. refl))
        ]
