-- ===== src/Web/Jobs.antt =====
-- Job management of internal/web/server.go: a job's buffer of events, the handler that streams it, and the table of
-- jobs. The channel that each push closes and replaces is its number, `generation`: a wait on the channel of
-- generation g ends once the job's generation is no longer g.
pub mod Streaming
pub mod Sweeping
use rain_scanner.Base.{
  ℕ, suc, ◌+◌, ◌-◌, ◌≡◌, ◌<◌, ◌≢◌, Bool, true, false, ◌&&◌, not, List, [], ◌∷◌, ◌++◌, Option, none,
  some, if◌then◌else◌, Text, codes, text_eq, ltb, leb, length, drop, keep, is_empty,
}

pub data Event : Type 0 where
  log error : Text → Event
  progress : ℕ → ℕ → Event
  result : Text → Event
  done_event : Event

pub record Job : Type 0 where
  pub id : Text
  pub created_at : ℕ
  pub events : List Event
  pub done : Bool
  pub generation : ℕ

unfoldable pub push : Event → Job → Job
push e j = record j { events = j.events ++ e ∷ []; generation = j.generation + 1 }

unfoldable pub finish : Job → Job
finish j = record j {
  events = j.events ++ done_event ∷ [];
  done = true;
  generation = j.generation + 1;
}

-- after(idx): the events from idx on, and whether these are the last ones.
unfoldable pub after : ℕ → Job → List Event × Bool
after idx j =
    let out = if ltb idx (length j.events) then drop idx j.events else [] in
    (out, j.done && leb (length j.events) (idx + length out))

-- Where a stream handler is: before a call of `after`, between `after` and `wait`, waiting for a channel, or returned,
-- at the job's end or because the client went away.
pub data Phase : Type 0 where
  reading checked returned disconnected : Phase
  waiting : ℕ → Phase

pub record Stream : Type 0 where
  pub sent : List Event
  pub idx : ℕ
  pub phase : Phase

-- One turn of the handler's loop body, up to the `select`.
unfoldable pub send : Job → Stream → Stream
send j s =
    let (out, last) = after s.idx j in
    record {
      sent = s.sent ++ out;
      idx = s.idx + length out;
      phase = if last then returned else checked;
    }

-- The steps of one job and one handler of it, in any order that the locks allow. A job that is finished is not pushed
-- to any more.
pub data Step : Job × Stream → Job × Stream → Type 0 where
  pushes : (e : Event) (j : Job) (s : Stream) → j.done ≡ false → Step (j, s) (push e j, s)
  finishes : (j : Job) (s : Stream) → j.done ≡ false → Step (j, s) (finish j, s)
  reads : (j : Job) (s : Stream) → s.phase ≡ reading → Step (j, s) (j, send j s)
  waits :
      (j : Job) (s : Stream)
      → s.phase ≡ checked
      → Step (j, s) (j, record s { phase = waiting j.generation })
  wakes :
      (j : Job) (s : Stream) (g : ℕ)
      → s.phase ≡ waiting g
      → g ≢ j.generation
      → Step (j, s) (j, record s { phase = reading })
  leaves :
      (j : Job) (s : Stream) (g : ℕ)
      → s.phase ≡ waiting g
      → Step (j, s) (j, record s { phase = disconnected })

pub data Steps : Job × Stream → Job × Stream → Type 0 where
  here : (a : Job × Stream) → Steps a a
  then_step : (a b c : Job × Stream) → Steps a b → Step b c → Steps a c

-- sweepJobsLocked, `now` in nanoseconds: which jobs stay.
abbrev pub hour : ℕ
hour = 3600000000000

abbrev pub stays : ℕ → Job → Bool
stays now j = not (j.done && ltb (j.created_at + hour) now)

unfoldable pub sweep_jobs : ℕ → List Job → List Job
sweep_jobs now jobs = keep (stays now) jobs

-- newJob; the id is fresh, so no key of the map is overwritten.
unfoldable pub new_job : Text → ℕ → List Job → Job × List Job
new_job id now jobs =
    let j : Job = record { id = id; created_at = now; events = []; done = false; generation = 0 } in
    (j, sweep_jobs now (j ∷ jobs))

unfoldable pub find_job : Text → List Job → Option Job
find_job id [] = none
find_job id (j ∷ jobs) = let rest = find_job id jobs in if text_eq j.id id then some j else rest
