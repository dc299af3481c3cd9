-- ===== src/Web/Tests.antt =====
-- The theorems about jobs and requests at concrete arguments.
use rain_scanner.Base.{refl, true, false, [], ◌∷◌, some, codes, arith}
use rain_scanner.App.Tests.{greedy}
use rain_scanner.Web.Jobs.{
  log, Job, Stream, reading, checked, push, send, Steps, here, then_step, pushes, reads,
}
use rain_scanner.Web.Jobs.Streaming.{IsFaithful, IsStuck, LastStep, Steps-IsFaithful, lost_wakeup}
use rain_scanner.Web.Requests.{Call, not_found}

abbrev job : Job
job = record { id = codes "j"; created_at = 0; events = []; done = false; generation = 0 }

abbrev handler : Stream
handler = record { sent = []; idx = 0; phase = reading }

abbrev started : Job
started = record {
  id = codes "j";
  created_at = 0;
  events = log (codes "scan started") ∷ [];
  done = false;
  generation = 1;
}

start-IsFaithful : IsFaithful (job, handler)
start-IsFaithful = record { sent_prefix = refl; in_range = omega arith; complete = λ e. cc }

-- One event is pushed, and the handler reads it.
two-Steps : Steps (job, handler) (started, send started handler)
unfolding push
two-Steps =
    then_step (job, handler) (started, handler) (started, send started handler)
      (then_step (job, handler) (job, handler) (started, handler) (here (job, handler))
        (pushes (log (codes "scan started")) job handler refl))
      (reads started handler refl)

Steps-IsFaithful_example : IsFaithful (started, send started handler)
Steps-IsFaithful_example =
    Steps-IsFaithful (job, handler) (started, send started handler) two-Steps start-IsFaithful

abbrev caught_up : Stream
caught_up = record { sent = log (codes "scan started") ∷ []; idx = 1; phase = checked }

lost_wakeup_example : (b : Job × Stream) × Steps (started, caught_up) b × IsStuck b × LastStep b
lost_wakeup_example = lost_wakeup started caught_up refl refl refl

abbrev over : Job
over = record { id = codes "k"; created_at = 0; events = []; done = true; generation = 1 }

abbrev call : Call
call = record {
  post = true;
  headers = record {
    host = codes "127.0.0.1:8080";
    origin = codes "http://127.0.0.1:8080";
    content_type = codes "application/json";
  };
  body = some greedy;
  media_of = λ t. some t;
  stat = λ p. not_found;
}
