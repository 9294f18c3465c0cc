-- ===== src/Api/Jobs/Edit.antt =====
-- src/api/jobs.rs: the listing, the update and the deletion of one-off jobs.
use rocktick.Prelude.{
  ℕ, String, Bool, true, false, ◌&&◌, Option, none, some, List, [], ◌∷◌, ◌++◌, map, filter, sort_by,
  last?, length, is_none, is_text, is_some, str_eq, or_else, unwrap_or,
}
use mathlib.Core.Option
use rocktick.Prelude.Int.{ℤ}
use rocktick.Prelude.Result.{Result, ok, ◌>>=◌, ◌>>◌, ok_or}
use rocktick.Prelude.Tables.{get_row, update_where, delete_where}
use rocktick.Prelude.Selections.{take, flat_map}
use rocktick.Db.Jobs
use rocktick.Db.Tables.{Db, request_key}
use rocktick.Http.{header_line}
use rocktick.Scheduler.Env.{Env}
use rocktick.Scheduler.Retention.Wipe.{delete_http_req}
use rocktick.Api.Base.{ApiError, ApiLib, Context, not_found, is_visible, committed, rolled_back}
use rocktick.Api.Models
use rocktick.Api.Models.{Execution, OneOffJob, ListResponse, verify}
use rocktick.Api.Executions.{get_executions, limit_of, before_cursor}
use rocktick.Api.Limits.{check_region, fetch_tenant, within_limits, check_body, check_time}
use rocktick.Api.Jobs.{UpdateJob, IntermediateOneOffJob, to_one_off_job, find_job}

module _ {J : Type 0} (env : Env J) (lib : ApiLib) where
  abbrev has_request : Db J → Jobs.OneOffJob → Bool
  has_request db job = is_some (get_row request_key job.request_id db.http_requests)

  abbrev pub is_listed : Db J → Option String → Option String → Jobs.OneOffJob → Bool
  is_listed db tenant_id cursor job =
      has_request db job
      && is_none job.deleted_at
      && is_visible tenant_id job.tenant_id
      && before_cursor env cursor job.id

  abbrev rows_of : Db J → Jobs.OneOffJob → List IntermediateOneOffJob
  rows_of db job = elim (get_row request_key job.request_id db.http_requests) [
    | none ↦ []
    | some r ↦ record { job = job; req = r } ∷ []
  ]

  -- The jobs of a page, the newest id first.
  unfoldable pub page : Db J → Option String → Option String → ℕ → List Jobs.OneOffJob
  page db tenant_id cursor limit = take limit (
      sort_by (λ a b. env.text_le b.id a.id)
        (filter (is_listed db tenant_id cursor) db.one_off_jobs))

  abbrev list_from : List OneOffJob → ListResponse OneOffJob
  list_from jobs = record {
    entries = jobs;
    count = length jobs;
    cursor = Option.map (λ (j : OneOffJob). j.id) (last? jobs);
  }

  unfoldable pub list_jobs :
      Db J → Option String → Option String → Option ℤ → Result ApiError (ListResponse OneOffJob)
  list_jobs db tenant_id cursor limit = do
    n ← limit_of lib limit
    let jobs = page db tenant_id cursor n
    let job_ids = map (λ (j : Jobs.OneOffJob). j.id) jobs
    let executions =
        get_executions db job_ids tenant_id true 3 ++ get_executions db job_ids tenant_id false 2
    ok (list_from (map (to_one_off_job executions) (flat_map (rows_of db) jobs)))

  -- DELETE FROM scheduled_jobs WHERE one_off_job_id = $1 AND execution_id IS NULL.
  abbrev pub delete_pending : String → Db J → Db J
  delete_pending id db = record db {
    scheduled_jobs =
        delete_where (λ s. is_text s.one_off_job_id id && is_none s.execution_id) db.scheduled_jobs;
  }

  abbrev pub write_request : Models.HttpRequest → Jobs.HttpRequest → Jobs.HttpRequest
  write_request r x = record x {
    method = r.method;
    url = r.url;
    headers = map header_line r.headers;
    body = r.body;
  }

  unfoldable pub update_request : String → Option Models.HttpRequest → Db J → Result ApiError (Db J)
  update_request req_id none db = ok db
  update_request req_id (some r) db = do
    verify lib r
    ok (record db {
      http_requests = update_where (λ x. str_eq x.id req_id) (write_request r) db.http_requests;
    })

  abbrev pub write_job : UpdateJob → Jobs.OneOffJob → Jobs.OneOffJob → Jobs.OneOffJob
  write_job opts old x = record x {
    region = unwrap_or opts.region old.region;
    execute_at = unwrap_or opts.execute_at old.execute_at;
    timeout_ms = or_else opts.timeout_ms old.timeout_ms;
    max_retries = unwrap_or opts.max_retries old.max_retries;
    max_response_bytes = or_else opts.max_response_bytes old.max_response_bytes;
  }

  -- The target of the UPDATE is not joined to the job of the WHERE, so it is every row; RETURNING
  -- reads the job as it was.
  abbrev pub update_jobs : UpdateJob → Jobs.OneOffJob → Db J → Db J
  update_jobs opts old db = record db {
    one_off_jobs = update_where (λ x. true) (write_job opts old) db.one_off_jobs;
  }

  abbrev pub check_time_if : Option Jobs.Tenant → Option ℤ → Result ApiError (Unit {0})
  check_time_if tenant none = ok tt
  check_time_if tenant (some t) = check_time lib env.utc_now tenant t

  abbrev pub body_of : Option Models.HttpRequest → Option String
  body_of none = none
  body_of (some r) = r.body

  unfoldable pub update_txn :
      Context → String → Option String → UpdateJob → Db J → Result ApiError (Db J × OneOffJob)
  update_txn ctx job_id tenant_id opts db = do
    check_region ctx opts.region
    tenant ← fetch_tenant db tenant_id
    within_limits lib tenant opts.timeout_ms opts.max_retries opts.max_response_bytes
    check_time_if tenant opts.execute_at
    check_body lib tenant (body_of opts.request)
    existing ← ok_or (find_job env lib false db job_id tenant_id) not_found
    let db1 = delete_pending job_id db
    db2 ← update_request existing.req.id opts.request db1
    let db3 = update_jobs opts existing.job db2
    row ← ok_or (find_job env lib true db2 job_id none) not_found
    let executions =
        get_executions db3 (job_id ∷ []) tenant_id true 5
        ++ get_executions db3 (job_id ∷ []) tenant_id false 2
    ok (db3, to_one_off_job executions row)

  -- The handler returns without a commit.
  unfoldable pub update_job :
      Context → String → Option String → UpdateJob → Db J → Db J × Result ApiError OneOffJob
  update_job ctx job_id tenant_id opts db = rolled_back db (update_txn ctx job_id tenant_id opts db)

  -- Only what no drone has locked is taken back.
  abbrev pub delete_unlocked : String → Db J → Db J
  delete_unlocked id db = record db {
    scheduled_jobs =
        delete_where
          (λ s. is_text s.one_off_job_id id && is_none s.lock_nonce && is_none s.execution_id)
          db.scheduled_jobs;
  }

  abbrev pub mark_deleted : String → Db J → Db J
  mark_deleted id db = record db {
    one_off_jobs =
        update_where (λ (j : Jobs.OneOffJob). str_eq j.id id)
          (λ j. record j { deleted_at = some env.now }) db.one_off_jobs;
  }

  unfoldable pub delete_txn : String → Option String → Db J → Result ApiError (Db J × OneOffJob)
  delete_txn job_id tenant_id db = do
    _ ← fetch_tenant db tenant_id
    existing ← ok_or (find_job env lib false db job_id tenant_id) not_found
    let executions = get_executions db (job_id ∷ []) tenant_id true 7
    let db1 = delete_unlocked job_id (mark_deleted job_id db)
    ok (delete_http_req env.now existing.req.id db1, to_one_off_job executions existing)

  unfoldable pub delete_job : String → Option String → Db J → Db J × Result ApiError OneOffJob
  delete_job job_id tenant_id db = committed db (delete_txn job_id tenant_id db)
