-- ===== src/Scheduler/Jobs/CronLimits.antt =====
-- How many jobs src/scheduler/jobs/cron.rs schedules in one run, and how far ahead.
use rocktick.Prelude.{
  ◌<◌, ◌⊎◌, All, ◌++◌, ◌≤◌, ◌≡◌, false, Option, none, some, List, [], ◌∷◌, length,
}
use rocktick.Prelude.Int.{pos, ◌+ℤ◌, ◌≤ℤ◌}
use rocktick.Db.Jobs.{Timestamp, CronJob, ScheduledJob}
use rocktick.Db.Tables.{Db}
use rocktick.Scheduler.Env.{Env}
use rocktick.Scheduler.Jobs.CronTimes.{Soon, Prefix, NotAfter}
use rocktick.Prelude.Tables.{count}
use rocktick.Scheduler.Jobs.Cron.{is_waiting, Croner, set_error, start_time}

-- Fewer than 60 jobs of the cron job wait, none of them more than ten minutes ahead, and it has
-- neither an error nor been deleted.
abbrev pub Wanting : Timestamp → List ScheduledJob → CronJob → Type 0
Wanting now scheduled job =
    (count (is_waiting job.id) scheduled < 60)
    × All (λ s. (is_waiting job.id s ≡ false) ⊎ (s.scheduled_at ≤ℤ now +ℤ pos 600_000_000))
        scheduled
    × (job.error ≡ none)
    × (job.deleted_at ≡ none)

-- A job of the cron job for a time, neither locked nor executed, and no retry.
abbrev pub JobAt : CronJob → Timestamp → ScheduledJob → Type 0
JobAt job t s =
    (s.scheduled_at ≡ t)
    × (s.cron_job_id ≡ some job.id)
    × (s.region ≡ job.region)
    × (s.tenant_id ≡ job.tenant_id)
    × (s.request_id ≡ job.request_id)
    × (s.timeout_ms ≡ job.timeout_ms)
    × (s.max_retries ≡ job.max_retries)
    × (s.max_response_bytes ≡ job.max_response_bytes)
    × (s.lock_nonce ≡ none)
    × (s.execution_id ≡ none)
    × (s.retry_for_id ≡ none)
    × (s.one_off_job_id ≡ none)
    × (s.workflow_id ≡ none)
    × (s.deleted_at ≡ none)

-- One job for each time, in order.
abbrev pub JobsAt : CronJob → List Timestamp → List ScheduledJob → Type 0
JobsAt job [] [] = Unit
JobsAt job [] (s ∷ jobs) = ⊥
JobsAt job (t ∷ ts) [] = ⊥
JobsAt job (t ∷ ts) (s ∷ jobs) = JobAt job t s × JobsAt job ts jobs

module _ {J : Type 0} (env : Env J) where
  -- The table after jobs for these times were added.
  abbrev pub Added : CronJob → List Timestamp → Db J → Db J → Type 0
  Added job ts db db' =
      (jobs : List ScheduledJob) × JobsAt job ts jobs
      × (db'.scheduled_jobs ≡ db.scheduled_jobs ++ jobs)
      × (db'.cron_jobs ≡ db.cron_jobs)

  -- What is left of a run on a cron job with an expression that is not valid, and with one that is.
  abbrev pub CronScheduled :
      Croner → CronJob → Db J → Db J → Option (Timestamp → List Timestamp) → Type 0
  CronScheduled croner job db db' none =
      db' ≡ set_error env job.id (croner.error_message job.schedule) db
  CronScheduled croner job db db' (some times) =
      (ts : List Timestamp) × Added job ts db db'
      × Prefix ts (times (start_time env job db))
      × (env.utc_now ≤ℤ start_time env job db)
      × All (NotAfter job.id (start_time env job db)) db.scheduled_jobs
      × (length ts ≤ 61)
      × Soon env.utc_now ts

  -- A cron job that wants jobs, and what it gets.
  abbrev pub SomeCron : Croner → Db J → Db J → Type 0
  SomeCron croner db db' =
      (job : CronJob) × Wanting env.now db.scheduled_jobs job
      × CronScheduled croner job db db' (croner.parse job.schedule)
