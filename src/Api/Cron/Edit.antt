-- ===== src/Api/Cron/Edit.antt =====
-- src/api/cron.rs: the update and the deletion of cron jobs.
use rocktick.Prelude.{
  String, true, false, ◌&&◌, Option, none, some, [], ◌∷◌, is_none, is_text, str_eq, or_else,
  unwrap_or,
}
use rocktick.Prelude.Result.{Result, ok, ◌>>=◌, ◌>>◌, ok_or}
use rocktick.Prelude.Tables.{update_where, delete_where}
use rocktick.Db.Jobs
use rocktick.Db.Jobs.{Tenant, timestamp}
use rocktick.Db.Tables.{Db}
use rocktick.Scheduler.Env.{Env}
use rocktick.Scheduler.Retention.Wipe.{delete_http_req}
use rocktick.Api.Base.{ApiError, ApiLib, Context, not_found, committed}
use rocktick.Api.Models
use rocktick.Api.Models.{Execution, CronJob, ListResponse, verify}
use rocktick.Api.Executions.{get_executions}
use rocktick.Api.Limits.{check_region, fetch_tenant, within_limits, check_body}
use rocktick.Api.Jobs.Edit.{update_request}
use rocktick.Api.Cron.{
  UpdateCronJob, to_cron_job, check_schedule, find_cron, join_cron, with_request, executions_of,
}

module _ {J : Type 0} (env : Env J) (lib : ApiLib) where
  -- DELETE FROM scheduled_jobs WHERE cron_job_id = $1 AND execution_id IS NULL.
  abbrev pub delete_pending : String → Db J → Db J
  delete_pending id db = record db {
    scheduled_jobs =
        delete_where (λ s. is_text s.cron_job_id id && is_none s.execution_id) db.scheduled_jobs;
  }

  abbrev pub write_cron : UpdateCronJob → Jobs.CronJob → Jobs.CronJob → Jobs.CronJob
  write_cron opts old x = record x {
    region = unwrap_or opts.region old.region;
    schedule = unwrap_or opts.schedule old.schedule;
    timeout_ms = or_else opts.timeout_ms old.timeout_ms;
    max_retries = unwrap_or opts.max_retries old.max_retries;
    max_response_bytes = or_else opts.max_response_bytes old.max_response_bytes;
    error = none;
  }

  abbrev pub update_cron : UpdateCronJob → Jobs.CronJob → String → Db J → Db J
  update_cron opts old job_id db = record db {
    cron_jobs =
        update_where (λ (x : Jobs.CronJob). str_eq x.id job_id) (write_cron opts old) db.cron_jobs;
  }

  abbrev pub check_schedule_if : Option String → Result ApiError (Unit {0})
  check_schedule_if none = ok tt
  check_schedule_if (some schedule) = check_schedule env lib schedule

  abbrev pub body_of : Option Models.HttpRequest → Option String
  body_of none = none
  body_of (some r) = r.body

  -- `fetch_one` finds no row where the job has no request.
  unfoldable pub update_txn :
      Context → String → Option String → UpdateCronJob → Db J → Result ApiError (Db J × CronJob)
  update_txn ctx job_id tenant_id opts db = do
    check_region ctx opts.region
    check_schedule_if opts.schedule
    tenant ← fetch_tenant db tenant_id
    within_limits lib tenant opts.timeout_ms opts.max_retries opts.max_response_bytes
    check_body lib tenant (body_of opts.request)
    existing ← ok_or (find_cron env lib false db job_id tenant_id) not_found
    db2 ← update_request env lib existing.request_id opts.request (delete_pending job_id db)
    row ← ok_or (with_request env lib db2 (write_cron opts existing existing)) not_found
    let db3 = update_cron opts existing job_id db2
    ok (db3, to_cron_job (executions_of env lib db3 (job_id ∷ []) tenant_id) row)

  unfoldable pub update_cron_job :
      Context → String → Option String → UpdateCronJob → Db J → Db J × Result ApiError CronJob
  update_cron_job ctx job_id tenant_id opts db =
      committed db (update_txn ctx job_id tenant_id opts db)

  abbrev pub delete_unlocked : String → Db J → Db J
  delete_unlocked id db = record db {
    scheduled_jobs =
        delete_where
          (λ s. is_text s.cron_job_id id && is_none s.lock_nonce && is_none s.execution_id)
          db.scheduled_jobs;
  }

  abbrev pub mark_deleted : String → Db J → Db J
  mark_deleted id db = record db {
    cron_jobs =
        update_where (λ (j : Jobs.CronJob). str_eq j.id id)
          (λ j. record j { deleted_at = some env.now }) db.cron_jobs;
  }

  unfoldable pub delete_txn : String → Option String → Db J → Result ApiError (Db J × CronJob)
  delete_txn job_id tenant_id db = do
    _ ← fetch_tenant db tenant_id
    existing ← ok_or (join_cron env lib db (find_cron env lib false db job_id tenant_id)) not_found
    let executions = get_executions db (job_id ∷ []) tenant_id true 7
    let db1 = delete_unlocked job_id (mark_deleted job_id db)
    ok (delete_http_req env.now existing.req.id db1, to_cron_job executions existing)

  unfoldable pub delete_cron_job : String → Option String → Db J → Db J × Result ApiError CronJob
  delete_cron_job job_id tenant_id db = committed db (delete_txn job_id tenant_id db)
