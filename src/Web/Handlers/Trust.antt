-- ===== src/Web/Handlers/Trust.antt =====
-- Which requests may change the server.
use rain_scanner.Base.{
  Result-cases, ◌≡◌, ◌≢◌, refl, Bool, true, List, Option, Text, Result, ok, err, ◌⊎◌, inl, inr,
  Bool-cases, arith,
}
use rain_scanner.IpRange.Netip.{Netip}
use rain_scanner.Storage.{Store}
use rain_scanner.App.{ScanRequest}
use rain_scanner.Web.Requests.{Rejection, host_allowed, guard_mutation, handle_scan}
use rain_scanner.Web.Requests.Guards.{
  SameOrigin, IsJson, guard_mutation-SameOrigin, guard_mutation-IsJson, handle_scan-IsScannable,
}
use rain_scanner.Web.Handlers.{
  Server, World, guarded, posted, handle_cdns, handle_ranges, targets_by, handle_targets,
  handle_target_reload, handle_target_reload_all, handle_scan_request, handle_stop, dispatch, serve,
  call_of, scan_started,
}
use rain_scanner.Web.Protocol.{
  Method, get_method, post_method, delete_method, other_method, is_post, Request, Endpoint, page,
  cdns, ranges, targets, reload_target, reload_targets, scan, stop, stream, route, Reply,
}

-- A request of the GUI, or of no browser.
pub record IsTrusted (media_of : Text → Option Text) (req : Request) : Type 0 where
  pub writes : (req.method ≡ post_method) ⊎ (req.method ≡ delete_method)
  pub same_origin : SameOrigin req.headers
  pub json : IsJson media_of req.headers

is_post_lem : (m : Method) → is_post m ≡ true → m ≡ post_method
is_post_lem post_method h = refl
is_post_lem get_method h = cc
is_post_lem delete_method h = cc
is_post_lem other_method h = cc

module _ (store : Store) (np : Netip) (scheme_of : Text → Option Text) (w : World store) where
  guarded_lem :
      (req : Request) (sv : Server store) (next : Reply × Server store)
      → (req.method ≡ post_method) ⊎ (req.method ≡ delete_method)
      → (guarded store np scheme_of w req.headers sv next).1 ≢ sv
      → IsTrusted w.media_of req
  guarded_lem req sv next writes changed =
      elim (Result-cases (guard_mutation w.media_of req.headers)) [
        | inl (x, e) ↦ absurd (changed (ground arith))
        | inr (u, e) ↦ record {
          writes = writes;
          same_origin = guard_mutation-SameOrigin w.media_of req.headers u e;
          json = guard_mutation-IsJson w.media_of req.headers u e;
        }
      ]

  posted_lem :
      (req : Request) (sv : Server store) (next : Reply × Server store)
      → (posted store np scheme_of w req sv next).1 ≢ sv
      → IsTrusted w.media_of req
  posted_lem req sv next changed = elim (Bool-cases (is_post req.method)) [
    | inl e ↦ guarded_lem req sv next (inl (is_post_lem req.method e)) (λ same. changed (rw e same))
    | inr e ↦ absurd (changed (rw e))
  ]

  targets_by_lem :
      (m : Method) (req : Request) (sv : Server store)
      → req.method ≡ m
      → (targets_by store np scheme_of w m req sv).1 ≢ sv
      → IsTrusted w.media_of req
  targets_by_lem get_method req sv e changed = absurd (changed refl)
  targets_by_lem other_method req sv e changed = absurd (changed refl)
  targets_by_lem post_method req sv e changed = guarded_lem req sv _ (inl e) changed
  targets_by_lem delete_method req sv e changed = guarded_lem req sv _ (inr e) changed

  scan_lem :
      (req : Request) (sv : Server store)
      → (handle_scan_request store np scheme_of w req sv).1 ≢ sv
      → IsTrusted w.media_of req
  unfolding handle_scan_request
  scan_lem req sv changed =
      let call = call_of store np scheme_of w req in
      elim (Result-cases (handle_scan call sv.scanning).0) [
        | inl (x, e) ↦ absurd (changed (unchanged (handle_scan call sv.scanning) x e))
        | inr (r, e) ↦
            let (v, _, _) = handle_scan-IsScannable call sv.scanning r e in
            record {
              writes = inl (is_post_lem req.method v.posted);
              same_origin = v.same_origin;
              json = v.json;
            }
      ]
    where
      unchanged :
          (res : Result Rejection ScanRequest × Bool) (x : Rejection)
          → res.0 ≡ err x
          → (scan_started store np scheme_of w sv res).1 ≡ sv
      unchanged (ok r, b) x e = cc
      unchanged (err y, b) x e = refl

  dispatch_lem :
      (e : Endpoint) (req : Request) (sv : Server store)
      → (dispatch store np scheme_of w e req sv).1 ≢ sv
      → IsTrusted w.media_of req
  unfolding handle_cdns handle_ranges handle_targets handle_target_reload handle_target_reload_all
      handle_stop
  dispatch_lem page req sv changed = absurd (changed refl)
  dispatch_lem cdns req sv changed = absurd (changed refl)
  dispatch_lem stream req sv changed = absurd (changed refl)
  dispatch_lem ranges req sv changed = absurd (changed (ground arith))
  dispatch_lem targets req sv changed = targets_by_lem req.method req sv refl changed
  dispatch_lem reload_target req sv changed = posted_lem req sv _ changed
  dispatch_lem reload_targets req sv changed = posted_lem req sv _ changed
  dispatch_lem stop req sv changed = posted_lem req sv _ changed
  dispatch_lem scan req sv changed = scan_lem req sv changed

  -- A request that changes anything of the server, its targets, the store, its jobs or its scan, on whatever path, is a
  -- POST or a DELETE, its Host header is one of those accepted, its Origin is the GUI's own or not given, and its content
  -- type is JSON's or not given.
  pub serve-IsTrusted :
      (allowed : Option (List Text)) (split_host : Text → Option Text) (req : Request)
      (sv : Server store)
      → (serve store np scheme_of w allowed split_host req sv).1 ≢ sv
      → (host_allowed split_host allowed req.headers.host ≡ true) × IsTrusted w.media_of req
  unfolding serve
  serve-IsTrusted allowed split_host req sv changed =
      elim (Bool-cases (host_allowed split_host allowed req.headers.host)) [
        | inl e ↦ (e, dispatch_lem (route req.path) req sv (λ same. changed (rw e same)))
        | inr e ↦ absurd (changed (rw e))
      ]
