-- ===== src/Api/Cron/EditLaws.antt =====
-- What holds of the update of a cron job in src/api/cron.rs.
use rocktick.Prelude.{
  List, map, ◌≡◌, ◌&&◌, String, Bool, false, Option, none, some, All, is_none, is_text, or_else,
  unwrap_or,
}
use rocktick.Prelude.Tables.{get_row}
use rocktick.Db.Jobs
use rocktick.Db.Jobs.{Tenant, ScheduledJob}
use rocktick.Db.Tables.{Db, cron_key, request_key}
use rocktick.Scheduler.Env.{Env}
use rocktick.Api.Base.{ApiLib}
use rocktick.Api.Models
use rocktick.Api.Models.{CronJob}
use rocktick.Http.{header_line}
use rocktick.Api.Cron.{UpdateCronJob}

module _ {J : Type 0} (env : Env J) (lib : ApiLib) where
  -- The request of a job after an update: what was asked for, or else as it was.
  abbrev pub RequestAfter :
      Option Models.HttpRequest → String → List Jobs.HttpRequest → List Jobs.HttpRequest → Type 0
  RequestAfter none req_id t t' = t' ≡ t
  RequestAfter (some asked) req_id t t' =
      (old : Jobs.HttpRequest) × (r : Jobs.HttpRequest) × (get_row request_key req_id t ≡ some old)
      × (get_row request_key req_id t' ≡ some r)
      × (r.id ≡ old.id)
      × (r.method ≡ asked.method)
      × (r.url ≡ asked.url)
      × (r.headers ≡ map header_line asked.headers)
      × (r.body ≡ asked.body)

  -- A scheduled job of the cron job that has not been executed, be it locked or not.
  abbrev pub is_pending_of : String → ScheduledJob → Bool
  is_pending_of id s = is_text s.cron_job_id id && is_none s.execution_id

  -- The cron job after an update, another cron job, and the scheduled jobs.
  abbrev pub Updated : Db J → String → UpdateCronJob → String → Db J → Type 0
  Updated db job_id opts other db' =
      (job : Jobs.CronJob) × (job' : Jobs.CronJob) × (get_row cron_key job_id db.cron_jobs
        ≡ some job)
      × (get_row cron_key job_id db'.cron_jobs ≡ some job')
      × (job'.schedule ≡ unwrap_or opts.schedule job.schedule)
      × (job'.region ≡ unwrap_or opts.region job.region)
      × (job'.max_retries ≡ unwrap_or opts.max_retries job.max_retries)
      × (job'.max_response_bytes ≡ or_else opts.max_response_bytes job.max_response_bytes)
      × (job'.request_id ≡ job.request_id)
      × (job'.deleted_at ≡ job.deleted_at)
      × RequestAfter opts.request job.request_id db.http_requests db'.http_requests
      × (job'.timeout_ms ≡ or_else opts.timeout_ms job.timeout_ms)
      × (job'.tenant_id ≡ job.tenant_id)
      × (job'.error ≡ none)
      × (get_row cron_key other db'.cron_jobs ≡ get_row cron_key other db.cron_jobs)
      × (db'.tenants ≡ db.tenants)
      × All (λ s. is_pending_of job_id s ≡ false) db'.scheduled_jobs
