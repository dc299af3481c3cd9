-- ===== src/Web/Jobs/Sweeping.antt =====
-- Which jobs a sweep keeps.
use rain_scanner.Base.{
  ℕ, ◌+◌, ◌≡◌, refl, ◌∙◌, Bool, ◌||◌, not, List, [], ◌∷◌, none, some, Text, text_eq_iff,
  if◌then◌else◌, keep, ltb, arith,
}
use rain_scanner.Web.Jobs.{Job, hour, stays, sweep_jobs, find_job}

-- No two jobs have the same id.
abbrev pub Distinct : List Job → Type 0
Distinct [] = Unit
Distinct (j ∷ jobs) = (find_job j.id jobs ≡ none) × Distinct jobs

find_job-keep-none :
    (p : Job → Bool) (jobs : List Job) (id : Text)
    → find_job id jobs ≡ none
    → find_job id (keep p jobs) ≡ none
unfolding find_job
find_job-keep-none p [] id h = refl
find_job-keep-none p (x ∷ jobs) id h = ground (arith, find_job-keep-none p jobs id)

find_job-keep :
    (p : Job → Bool) (jobs : List Job) (id : Text) (j : Job)
    → Distinct jobs
    → find_job id jobs ≡ some j
    → find_job id (keep p jobs) ≡ (if p j then some j else none)
unfolding find_job
find_job-keep p [] id j d h = cc
find_job-keep p (x ∷ jobs) id j d h =
    ground
      (arith, find_job-keep p jobs id j d.1, find_job-keep-none p jobs id, text_eq_iff x.id id, d.0)

-- After a sweep a job is still found exactly if it is not finished or was created within the last hour: a job that
-- finished a moment ago is dropped as well, if its scan took longer than an hour.
pub find_job-sweep_jobs :
    (now : ℕ) (jobs : List Job) (id : Text) (j : Job)
    → Distinct jobs
    → find_job id jobs ≡ some j
    → find_job id (sweep_jobs now jobs)
      ≡ (if not j.done || not (ltb (j.created_at + hour) now) then some j else none)
unfolding sweep_jobs
find_job-sweep_jobs now jobs id j d h = find_job-keep (stays now) jobs id j d h ∙ ground arith
