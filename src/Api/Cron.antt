-- ===== src/Api/Cron.antt =====
-- src/api/cron.rs: the handlers of cron jobs, which all end with a commit.
pub mod Edit
pub mod Laws
pub mod EditLaws
use rocktick.Prelude.{
  ℕ, ◌≡◌, String, Bool, true, false, not, ◌&&◌, Option, none, some, List, [], ◌∷◌, ◌++◌, ◌<>◌, map,
  filter, sort_by, last?, length, is_none, is_some, is_text, str_eq, or_else, unwrap_or,
  if◌then◌else◌,
}
use mathlib.Core.Option
use rocktick.Prelude.Int.{ℤ, pos, ltb_ℤ}
use rocktick.Prelude.Result.{Result, ok, err, ◌>>=◌, ◌>>◌, ok_or, ensure}
use rocktick.Prelude.Tables.{get_row, update_where, delete_where, count}
use rocktick.Prelude.Selections.{take, flat_map}
use rocktick.Db.Jobs
use rocktick.Db.Jobs.{Tenant, timestamp}
use rocktick.Db.Tables.{Db, insert_request, insert_cron_job, cron_key, request_key}
use rocktick.Scheduler.Env.{Env}
use rocktick.Scheduler.Retention.Wipe.{delete_http_req}
use rocktick.Api.Base.{ApiError, ApiLib, Context, bad_request, not_found, is_visible, committed}
use rocktick.Api.Models
use rocktick.Api.Models.{Execution, CronJob, ListResponse, verify}
use rocktick.Api.Executions.{to_request, get_executions, limit_of, before_cursor}
use rocktick.Api.Limits.{choose_region, check_region, fetch_tenant, within_limits, check_body}
use rocktick.Api.Jobs.{new_request, retries_of, stored}
use rocktick.Api.Jobs.Edit.{update_request}

pub record CreateCronJob : Type 0 where
  pub region : Option String
  pub schedule : String
  pub request : Models.HttpRequest
  pub timeout_ms : Option ℤ
  pub max_retries : Option ℤ
  pub max_response_bytes : Option ℤ

pub record UpdateCronJob : Type 0 where
  pub region : Option String
  pub schedule : Option String
  pub request : Option Models.HttpRequest
  pub timeout_ms : Option ℤ
  pub max_retries : Option ℤ
  pub max_response_bytes : Option ℤ

-- `IntermediateCronJob`.
pub record IntermediateCronJob : Type 0 where
  pub job : Jobs.CronJob
  pub req : Jobs.HttpRequest

unfoldable pub to_cron_job : List Execution → IntermediateCronJob → CronJob
to_cron_job executions row = record {
  id = row.job.id;
  region = row.job.region;
  schedule = row.job.schedule;
  request = to_request row.req;
  executions =
      sort_by (λ (a : Execution) (b : Execution). not (ltb_ℤ a.scheduled_at b.scheduled_at))
        (filter (λ (e : Execution). is_text e.cron_job_id row.job.id) executions);
  timeout_ms = row.job.timeout_ms;
  max_retries = row.job.max_retries;
  max_response_bytes = row.job.max_response_bytes;
  tenant_id = row.job.tenant_id;
  deleted_at = Option.map timestamp row.job.deleted_at;
}

-- COUNT(*) WHERE tenant_id = $1 AND deleted_at IS NULL.
abbrev pub is_active_of : String → Jobs.CronJob → Bool
is_active_of id job = is_text job.tenant_id id && is_none job.deleted_at

module _ {J : Type 0} (env : Env J) (lib : ApiLib) where
  abbrev pub check_schedule : String → Result ApiError (Unit {0})
  check_schedule schedule = elim (lib.cron_error schedule) [
    | none ↦ ok tt
    | some e ↦ err (bad_request (some ("Invalid cron schedule '" <> schedule <> "': " <> e)))
  ]

  abbrev too_many : Tenant → ℤ → ApiError
  too_many t n = bad_request (
      some (
        "As part of your plan, you are limited to "
        <> lib.digits t.max_cron_jobs
        <> " active cron jobs. You currently have "
        <> lib.digits n
        <> " cron jobs."))

  unfoldable pub check_count : Option Tenant → Db J → Result ApiError (Unit {0})
  check_count none db = ok tt
  check_count (some t) db =
      let n = pos (count (is_active_of t.id) db.cron_jobs) in
      ensure (ltb_ℤ n t.max_cron_jobs) (too_many t n)

  abbrev pub new_cron : CreateCronJob → String → Option String → ℤ → Jobs.CronJob
  new_cron opts region tenant_id max_retries = record {
    id = env.generate "cron" 0;
    region = region;
    tenant_id = tenant_id;
    request_id = env.generate "request" 0;
    schedule = opts.schedule;
    timeout_ms = opts.timeout_ms;
    max_retries = max_retries;
    max_response_bytes = opts.max_response_bytes;
    created_at = env.now;
    start_at = env.now;
    error = none;
    deleted_at = none;
  }

  abbrev pub created : CreateCronJob → String → Option String → ℤ → CronJob
  created opts region tenant_id max_retries = record {
    id = env.generate "cron" 0;
    region = region;
    schedule = opts.schedule;
    request = opts.request;
    executions = [];
    timeout_ms = opts.timeout_ms;
    max_retries = max_retries;
    max_response_bytes = opts.max_response_bytes;
    tenant_id = tenant_id;
    deleted_at = none;
  }

  unfoldable pub insert_cron :
      CreateCronJob
      → String
      → Option String
      → Option Tenant
      → Db J
      → Result ApiError (Db J × CronJob)
  insert_cron opts region tenant_id tenant db = do
    db1 ← stored env lib (insert_request (new_request env lib opts.request) db)
    let max_retries = retries_of env lib opts.max_retries tenant
    db2 ← stored env lib (insert_cron_job (new_cron opts region tenant_id max_retries) db1)
    ok (db2, created opts region tenant_id max_retries)

  unfoldable pub create_txn :
      Context → Option String → CreateCronJob → Db J → Result ApiError (Db J × CronJob)
  create_txn ctx tenant_id opts db = do
    region ← choose_region ctx opts.region
    check_schedule opts.schedule
    verify lib opts.request
    tenant ← fetch_tenant db tenant_id
    within_limits lib tenant opts.timeout_ms opts.max_retries opts.max_response_bytes
    check_body lib tenant opts.request.body
    check_count tenant db
    insert_cron opts region tenant_id tenant db

  unfoldable pub create_cron_job :
      Context → Option String → CreateCronJob → Db J → Db J × Result ApiError CronJob
  create_cron_job ctx tenant_id opts db = committed db (create_txn ctx tenant_id opts db)

  abbrev pub with_request : Db J → Jobs.CronJob → Option IntermediateCronJob
  with_request db job =
      Option.map (λ (r : Jobs.HttpRequest). record { job = job; req = r })
        (get_row request_key job.request_id db.http_requests)

  abbrev can_see : Bool → Option String → Jobs.CronJob → Bool
  can_see also_deleted tenant_id job =
      (if also_deleted then true else is_none job.deleted_at) && is_visible tenant_id job.tenant_id

  -- The cron job of that id that the caller may see.
  unfoldable pub find_cron : Bool → Db J → String → Option String → Option Jobs.CronJob
  find_cron also_deleted db job_id tenant_id = elim (get_row cron_key job_id db.cron_jobs) [
    | none ↦ none
    | some job ↦ if can_see also_deleted tenant_id job then some job else none
  ]

  abbrev pub join_cron : Db J → Option Jobs.CronJob → Option IntermediateCronJob
  join_cron db none = none
  join_cron db (some job) = with_request db job

  abbrev pub executions_of : Db J → List String → Option String → List Execution
  executions_of db ids tenant_id =
      get_executions db ids tenant_id true 5 ++ get_executions db ids tenant_id false 2

  unfoldable pub get_cron_job : Db J → String → Option String → Result ApiError CronJob
  get_cron_job db job_id tenant_id = do
    row ← ok_or (join_cron db (find_cron true db job_id tenant_id)) not_found
    ok (to_cron_job (executions_of db (job_id ∷ []) tenant_id) row)

  abbrev has_request : Db J → Jobs.CronJob → Bool
  has_request db job = is_some (get_row request_key job.request_id db.http_requests)

  abbrev pub is_listed : Db J → Option String → Option String → Jobs.CronJob → Bool
  is_listed db tenant_id cursor job =
      has_request db job
      && is_none job.deleted_at
      && is_visible tenant_id job.tenant_id
      && before_cursor env cursor job.id

  abbrev rows_of : Db J → Jobs.CronJob → List IntermediateCronJob
  rows_of db job = elim (get_row request_key job.request_id db.http_requests) [
    | none ↦ []
    | some r ↦ record { job = job; req = r } ∷ []
  ]

  abbrev list_from : List CronJob → ListResponse CronJob
  list_from jobs = record {
    entries = jobs;
    count = length jobs;
    cursor = Option.map (λ (j : CronJob). j.id) (last? jobs);
  }

  unfoldable pub list_cron_jobs :
      Db J → Option String → Option String → Option ℤ → Result ApiError (ListResponse CronJob)
  list_cron_jobs db tenant_id cursor limit = do
    n ← limit_of lib limit
    let jobs = take n (
        sort_by (λ (a : Jobs.CronJob) (b : Jobs.CronJob). env.text_le b.id a.id)
          (filter (is_listed db tenant_id cursor) db.cron_jobs))
    let executions = executions_of db (map (λ (j : Jobs.CronJob). j.id) jobs) tenant_id
    ok (list_from (map (to_cron_job executions) (flat_map (rows_of db) jobs)))
