-- ===== src/Web/Handlers/Edits.antt =====
-- Editing targets through the API: what a request sees after another one.
use rain_scanner.Base.{
  Result-cases, ◌≡◌, sym, ap, ◌∙◌, false, List, Option, some, Text, Result, ok, err, inl, inr,
  Bool-cases, arith, to_lower, trim_space, is_empty, length, count_if, not, ℕ, ◌+◌, [], ◌∷◌, keep,
  subst,
}
use rain_scanner.IpRange.Netip.{Netip}
use rain_scanner.IpRange.Entries.{split}
use rain_scanner.Storage.{Store}
use rain_scanner.Targets.{Record, TargetError, get, list}
use rain_scanner.Targets.Upsert.{upsert}
use rain_scanner.Targets.Upsert.Laws.{get-upsert}
use rain_scanner.App.Service.{ReloadResult, reloadable, refresh_manifest, reload_all}
use rain_scanner.App.Service.Laws.{result_names, record_names, reload_all_names}
use rain_scanner.Web.Requests.{Rejection, guard_mutation}
use rain_scanner.Web.Handlers.{
  Server, World, guarded, post_target, posted, reply_or, has_error, summed, handle_ranges,
  targets_by, handle_targets, handle_target_reload_all, options, prefers, reload_every,
}
use rain_scanner.Web.Protocol.{
  post_method, Request, Reply, refused, range_list, stored, all_reloaded, Reloaded, status_of,
  is_post,
}

-- Every result is counted once, as reloaded or as failed.
summed_total :
    (rs : List ReloadResult)
    → count_if (λ x. not (has_error x)) rs + count_if has_error rs ≡ length rs
summed_total [] = omega arith
summed_total (x ∷ rs) = ground (arith, summed_total rs)

reloaded_injective : (x y : Reloaded) → all_reloaded x ≡ all_reloaded y → x ≡ y
reloaded_injective x y h = cc

reply_or-stored :
    (store : Store) (status : ℕ) (r : Result TargetError Record) (rec : Record)
    → reply_or store status stored r ≡ stored rec
    → r ≡ ok rec
reply_or-stored store status (ok a) rec h = cc
reply_or-stored store status (err e) rec h = cc

module _ (store : Store) (np : Netip) (scheme_of : Text → Option Text) (w : World store) where
  refused_guard :
      (req : Request) (sv : Server store) (next : Reply × Server store) (x : Rejection)
      → guard_mutation w.media_of req.headers ≡ err x
      → (guarded store np scheme_of w req.headers sv next).0 ≡ refused (status_of x)
  refused_guard req sv next x e = ground (arith, e)

  guarded-stored :
      (req : Request) (sv : Server store) (next : Reply × Server store) (rec : Record)
      → (guarded store np scheme_of w req.headers sv next).0 ≡ stored rec
      → guarded store np scheme_of w req.headers sv next ≡ next
  guarded-stored req sv next rec h = elim (Result-cases (guard_mutation w.media_of req.headers)) [
    | inl (x, e) ↦ cc (sym (refused_guard req sv next x e) ∙ h)
    | inr (u, e) ↦ ground (arith, e)
  ]

  shown :
      (show : Request) (sv : Server store) (rec : Record)
      → is_empty show.cdn ≡ false
      → get sv.service.registry show.cdn ≡ some rec
      → (handle_ranges store np scheme_of w show sv).0
        ≡ range_list rec (split np rec.cidrs).0 (split np rec.cidrs).1
  unfolding handle_ranges
  shown show sv rec named found = ground (arith, named, found)

  -- What POST /api/targets has stored is what GET /api/ranges then shows under its name, in any case of letters and with
  -- white space around it: the record of the reply, with the counts of its two families.
  pub handle_ranges-post :
      (req show : Request) (sv : Server store) (rec rec' : Record)
      → req.method ≡ post_method
      → req.record_body ≡ some rec
      → (handle_targets store np scheme_of w req sv).0 ≡ stored rec'
      → is_empty show.cdn ≡ false
      → to_lower (trim_space show.cdn) ≡ to_lower (trim_space rec.name)
      → (handle_ranges store np scheme_of w show (handle_targets store np scheme_of w req sv).1).0
        ≡ range_list rec' (split np rec'.cidrs).0 (split np rec'.cidrs).1
  unfolding handle_targets handle_ranges
  handle_ranges-post req show sv rec rec' post body h named same =
      let next = post_target store np scheme_of w sv (some rec) in
      let is_next : handle_targets store np scheme_of w req sv
          ≡ guarded store np scheme_of w req.headers sv next =
        ap (λ m. targets_by store np scheme_of w m req sv) post
        ∙ ap
            (λ b.
              guarded store np scheme_of w req.headers sv (post_target store np scheme_of w sv b))
            body in
      let done : handle_targets store np scheme_of w req sv ≡ next =
        is_next ∙ guarded-stored req sv next rec' (ap (λ y. y.0) (sym is_next) ∙ h) in
      let r = sv.service.registry in
      let d = sv.service.state in
      let saved =
        reply_or-stored store 400 (upsert store np scheme_of r d rec).result rec'
          (ap (λ y. y.0) (sym done) ∙ h) in
      let found = get-upsert store np scheme_of r d rec rec' show.cdn saved same in
      ap (λ y. (handle_ranges store np scheme_of w show y.1).0) done
      ∙ shown show next.1 rec' named found

  refused_all :
      (req : Request) (sv : Server store) (next : Reply × Server store) (x : Reloaded)
      → (posted store np scheme_of w req sv next).0 ≡ all_reloaded x
      → next.0 ≡ all_reloaded x
  refused_all req sv next x h = elim (Bool-cases (is_post req.method)) [
    | inr e ↦ cc (rw e at h)
    | inl e ↦ elim (Result-cases (guard_mutation w.media_of req.headers)) [
      | inl (y, g) ↦ cc (sym (refused_guard req sv next y g) ∙ (rw e at h))
      | inr (u, g) ↦ ground (arith, e, g)
    ]
  ]

  -- The reply of POST /api/targets/reload-all, whatever the manifest's sources and the feeds answer: it has one result, under
  -- its name and in the order of the list, for each target that is a built-in or has an API URL once the manifest is
  -- refreshed, and its two counts add up to their number.
  pub handle_target_reload_all-names :
      (req : Request) (sv : Server store) (x : Reloaded)
      → (handle_target_reload_all store np scheme_of w req sv).0 ≡ all_reloaded x
      → (x.reloaded + x.failed ≡ length x.results)
        × (result_names x.results
            ≡ record_names
                (keep reloadable (list (refresh_manifest store w.sources sv.service).1.registry)))
  unfolding handle_target_reload_all summed
  handle_target_reload_all-names req sv x h =
      let prefer = prefers store np scheme_of w req.prefer_body in
      let reply = refused_all req sv (reload_every store np scheme_of w sv prefer) x h in
      let s = (refresh_manifest store w.sources sv.service).1 in
      let results =
        (reload_all store np scheme_of w.feeds (options store np scheme_of w prefer) s).0 in
      let made =
        summed store np scheme_of w (refresh_manifest store w.sources sv.service).0 results in
      let is_made : made ≡ x = reloaded_injective made x reply in
      subst
        (λ (y : Reloaded).
          (y.reloaded + y.failed ≡ length y.results)
          × (result_names y.results ≡ record_names (keep reloadable (list s.registry))))
        is_made
        (
          summed_total results,
          reload_all_names store np scheme_of w.feeds (options store np scheme_of w prefer) s,
        )
