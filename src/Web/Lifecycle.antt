-- ===== src/Web/Lifecycle.antt =====
-- The life of scans in internal/web/server.go: requests, each served in one step, and the goroutines that handleScan starts,
-- in any interleaving.
pub mod Served
pub mod Single
use rain_scanner.Base.{
  ◌≡◌, Bool, true, false, List, [], ◌∷◌, ◌++◌, map, Option, none, some, if◌then◌else◌, Text,
  text_eq,
}
use rain_scanner.IpRange.Netip.{Netip}
use rain_scanner.Storage.{Store}
use rain_scanner.Web.Jobs.{Event, Job, push, finish}
use rain_scanner.Web.Handlers.{Server, World, serve}
use rain_scanner.Web.Protocol.{Request, Reply, started}

-- Where a scan's goroutine is: before it has set the server's `cancel`, in the service's Scan, after the job's finish, and
-- after it has cleared `cancel`.
pub data ScanPhase : Type 0 where
  claimed running finished cleared : ScanPhase

pub record Scan : Type 0 where
  pub id : Text
  pub phase : ScanPhase

-- The goroutines after a reply.
abbrev pub spawned : Reply → List Scan → List Scan
spawned reply scans = elim reply [
  | started id ↦ record { id = id; phase = claimed } ∷ scans
  | _ ↦ scans
]

-- A method of the job of an id, which the table and the goroutine share.
abbrev pub at_job : Text → (Job → Job) → List Job → List Job
at_job id f [] = []
at_job id f (j ∷ jobs) = (if text_eq j.id id then f j else j) ∷ at_job id f jobs

module _ (store : Store) (np : Netip) (scheme_of : Text → Option Text)
    (allowed : Option (List Text)) (split_host : Text → Option Text) where
  abbrev pub System : Type 0
  System = Server store × List Scan

  pub data Step : System → System → Type 0 where
    requests :
        (w : World store) (req : Request) (sv : Server store) (scans : List Scan)
        → Step
            (sv, scans)
            (
              (serve store np scheme_of w allowed split_host req sv).1,
              spawned (serve store np scheme_of w allowed split_host req sv).0 scans,
            )
    registers :
        (sv : Server store) (before behind : List Scan) (id : Text)
        → Step
            (sv, before ++ record { id = id; phase = claimed } ∷ behind)
            (record sv { cancel = some id }, before ++ record { id = id; phase = running } ∷ behind)
    pushes :
        (sv : Server store) (before behind : List Scan) (id : Text) (e : Event)
        → Step
            (sv, before ++ record { id = id; phase = running } ∷ behind)
            (
              record sv { jobs = at_job id (push e) sv.jobs },
              before ++ record { id = id; phase = running } ∷ behind,
            )
    finishes :
        (sv : Server store) (before behind : List Scan) (id : Text)
        → Step
            (sv, before ++ record { id = id; phase = running } ∷ behind)
            (
              record sv { jobs = at_job id finish sv.jobs },
              before ++ record { id = id; phase = finished } ∷ behind,
            )
    clears :
        (sv : Server store) (before behind : List Scan) (id : Text)
        → Step
            (sv, before ++ record { id = id; phase = finished } ∷ behind)
            (
              record sv { cancel = none; stopped = id ∷ sv.stopped },
              before ++ record { id = id; phase = cleared } ∷ behind,
            )
    releases :
        (sv : Server store) (before behind : List Scan) (id : Text)
        → Step
            (sv, before ++ record { id = id; phase = cleared } ∷ behind)
            (record sv { scanning = false }, before ++ behind)

  pub data Steps (a : System) : System → Type 0 where
    here : Steps a a
    next : (b c : System) → Steps a b → Step b c → Steps a c
