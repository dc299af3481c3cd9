-- ===== src/Web/Lifecycle/Single.antt =====
-- At most one scan at a time, and what a stop can reach.
use rain_scanner.Base.{
  ◌≡◌, refl, sym, ap, ◌∙◌, Bool, true, false, List, [], ◌∷◌, ◌++◌, Option, none, some,
  if◌then◌else◌, Text, ok, inl, inr, arith, length, length-append, All,
}
use rain_scanner.IpRange.Netip.{Netip}
use rain_scanner.Storage.{Store}
use rain_scanner.Web.Requests.{guard_mutation}
use rain_scanner.Web.Handlers.{Server, World, posted, end_context, handle_stop, serve}
use rain_scanner.Web.Protocol.{post_method, Request, Reply, stopping, is_post}
use rain_scanner.Web.Lifecycle.{
  ScanPhase, claimed, running, finished, cleared, Scan, spawned, System, Step, requests, registers,
  pushes, finishes, clears, releases, Steps, here, next,
}
use rain_scanner.Web.Lifecycle.Served.{Begun, Quiet, serve_lem}

-- The value of the server's `cancel` while a scan is the one that runs.
abbrev pub handle_of : Scan → Option Text
handle_of s = elim s.phase [
  | claimed ↦ none
  | running ↦ some s.id
  | finished ↦ some s.id
  | cleared ↦ none
]

-- The flag is up exactly while there is a scan's goroutine, there is at most one, and `cancel` ends the context of that one,
-- from its registration until it clears `cancel` itself.
pub record IsSingle (scanning : Bool) (cancel : Option Text) (scans : List Scan) : Type 0 where
  pub one : length scans ≡ (if scanning then 1 else 0)
  pub handled : All (λ s. handle_of s ≡ cancel) scans
  pub idle : scans ≡ [] → cancel ≡ none

nil_of_length : (scans : List Scan) → length scans ≡ 0 → scans ≡ []
nil_of_length [] h = refl
nil_of_length (s ∷ scans) h = absurd (omega (arith, h))

-- A goroutine that is there is the only one.
alone :
    (b : Bool) (cancel : Option Text) (before behind : List Scan) (s : Scan)
    → IsSingle b cancel (before ++ s ∷ behind)
    → (b ≡ true) × (before ≡ []) × (behind ≡ [])
alone true cancel before behind s v = (
  refl,
  nil_of_length before (omega (arith, v.one, length-append before (s ∷ behind))),
  nil_of_length behind (omega (arith, v.one, length-append before (s ∷ behind))),
)
alone false cancel before behind s v =
    absurd (omega (arith, v.one, length-append before (s ∷ behind)))

-- It may be put in another phase, with the handle of that phase.
replaced :
    (b : Bool) (cancel : Option Text) (before behind : List Scan) (s s' : Scan)
    → IsSingle b cancel (before ++ s ∷ behind)
    → IsSingle b (handle_of s') (before ++ s' ∷ behind)
replaced b cancel before behind s s' v =
    let (up, first, last) = alone b cancel before behind s v in
    rw (up, first, last) (record { one = refl; handled = (refl, tt); idle = λ e. cc })

kept :
    (b : Bool) (cancel : Option Text) (before behind : List Scan) (s : Scan)
    → IsSingle b cancel (before ++ s ∷ behind)
    → cancel ≡ handle_of s
kept b cancel before behind s v =
    let (_, first, last) = alone b cancel before behind s v in
    sym ((rw (first, last) at v.handled).0)

module _ (store : Store) (np : Netip) (scheme_of : Text → Option Text)
    (allowed : Option (List Text)) (split_host : Text → Option Text) where
  abbrev pub Sys : Type 0
  Sys = System store np scheme_of allowed split_host

  abbrev pub Single : Sys → Type 0
  Single (sv, scans) = IsSingle sv.scanning sv.cancel scans

  request-Single :
      (w : World store) (req : Request) (sv : Server store) (scans : List Scan)
      → Single (sv, scans)
      → Single (
        (serve store np scheme_of w allowed split_host req sv).1,
        spawned (serve store np scheme_of w allowed split_host req sv).0 scans,
      )
  unfolding Quiet Begun
  request-Single w req sv scans v =
      elim (serve_lem store np scheme_of w allowed split_host req sv) [
        | inl (flag, handle, none_spawned) ↦ rw (flag, handle, none_spawned scans) v
        | inr (down, up, handle, id, e) ↦
            let empty : scans ≡ [] =
              nil_of_length scans (v.one ∙ ap (λ (b : Bool). if b then 1 else 0) down) in
            rw (up, handle, e, empty)
              (record { one = refl; handled = (sym (v.idle empty), tt); idle = λ x. cc })
      ]

  Step-Single : {a b : Sys} → Step store np scheme_of allowed split_host a b → Single a → Single b
  Step-Single (requests w req sv scans) v = request-Single w req sv scans v
  Step-Single (registers sv before behind id) v = replaced sv.scanning sv.cancel before behind _ _ v
  Step-Single (pushes sv before behind id e) v = v
  Step-Single (finishes sv before behind id) v =
      let s : Scan = record { id = id; phase = running } in
      let s' : Scan = record { id = id; phase = finished } in
      rw (kept sv.scanning sv.cancel before behind s v)
        (replaced sv.scanning sv.cancel before behind s s' v)
  Step-Single (clears sv before behind id) v = replaced sv.scanning sv.cancel before behind _ _ v
  Step-Single (releases sv before behind id) v =
      let s : Scan = record { id = id; phase = cleared } in
      let (_, first, last) = alone sv.scanning sv.cancel before behind s v in
      rw (first, last)
        (record {
          one = refl;
          handled = tt;
          idle = λ _. kept sv.scanning sv.cancel before behind s v;
        })

  -- In every interleaving of requests, whatever they are, with the goroutines that scans run in, from a state on
  -- where it is so: at most one scan is under way, the flag is up exactly while one is, and the server's `cancel`
  -- ends the context of that scan, from its registration until the scan clears it.
  pub Steps-Single :
      (a b : Sys) → Single a → Steps store np scheme_of allowed split_host a b → Single b
  Steps-Single a _ v here = v
  Steps-Single a _ v (next b c steps step) = Step-Single step (Steps-Single a b v steps)

  -- What a stop leaves, by the phase of the scan that is under way.
  abbrev pub after_stop : ScanPhase → Text → Server store → Server store
  after_stop claimed id sv = sv
  after_stop running id sv = record sv { stopped = id ∷ sv.stopped }
  after_stop finished id sv = record sv { stopped = id ∷ sv.stopped }
  after_stop cleared id sv = sv

  end_context_lem :
      (w : World store) (sv : Server store) (phase : ScanPhase) (id : Text)
      → end_context store np scheme_of w sv (handle_of (record { id = id; phase = phase }))
        ≡ after_stop phase id sv
  end_context_lem w sv claimed id = refl
  end_context_lem w sv running id = refl
  end_context_lem w sv finished id = refl
  end_context_lem w sv cleared id = refl

  posted_ok :
      (w : World store) (req : Request) (sv : Server store) (y : Reply × Server store)
      (u : Unit {0})
      → is_post req.method ≡ true
      → guard_mutation w.media_of req.headers ≡ ok u
      → posted store np scheme_of w req sv y ≡ y
  posted_ok w req sv y u post passed = ground (arith, post, passed)

  -- What a stop that passes its guards does to the one scan that is under way, in a state where the flag and `cancel`
  -- fit it: it replies that it is stopping, and ends the context of a scan that runs. A scan whose goroutine has not
  -- registered yet goes on: nothing of the server changes, so the context that the goroutine makes next is not ended.
  pub handle_stop_reach :
      (w : World store) (req : Request) (sv : Server store) (before behind : List Scan) (s : Scan)
      (u : Unit {0})
      → Single (sv, before ++ s ∷ behind)
      → req.method ≡ post_method
      → guard_mutation w.media_of req.headers ≡ ok u
      → handle_stop store np scheme_of w req sv ≡ (stopping, after_stop s.phase s.id sv)
  unfolding handle_stop
  handle_stop_reach w req sv before behind s u v post passed =
      posted_ok w req sv _ u (ap is_post post) passed
      ∙ ap (λ o. (stopping, end_context store np scheme_of w sv o))
          (kept sv.scanning sv.cancel before behind s v)
      ∙ ap (λ x. (stopping, x)) (end_context_lem w sv s.phase s.id)
