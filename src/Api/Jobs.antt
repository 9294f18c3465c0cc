-- ===== src/Api/Jobs.antt =====
-- src/api/jobs.rs: the handlers of one-off jobs. A handler that commits is `committed`; one whose
-- transaction is dropped at its end is `rolled_back`.
pub mod Edit
pub mod Laws
pub mod EditLaws
use rocktick.Prelude.{
  ℕ, ◌≡◌, String, Bool, true, false, not, ◌&&◌, Option, none, some, List, [], ◌∷◌, ◌++◌, map,
  filter, sort_by, last?, length, any, is_none, is_text, is_some, str_eq, or_else, unwrap_or,
  if◌then◌else◌,
}
use mathlib.Core.Option
use rocktick.Prelude.Int.{ℤ, pos, ltb_ℤ}
use rocktick.Prelude.Result.{Result, ok, err, ◌>>=◌, ◌>>◌, ok_or}
use rocktick.Prelude.Tables.{get_row, update_where, delete_where}
use rocktick.Prelude.Selections.{take}
use rocktick.Db.Jobs
use rocktick.Db.Jobs.{Tenant, timestamp}
use rocktick.Db.Tables.{Db, insert_request, insert_one_off_job, one_off_key, request_key}
use rocktick.Http.{header_line}
use rocktick.Scheduler.Env.{Env}
use rocktick.Scheduler.Retention.Wipe.{delete_http_req}
use rocktick.Api.Base.{
  ApiError, ApiLib, Context, internal_server_error, not_found, is_visible, committed, rolled_back,
}
use rocktick.Api.Models
use rocktick.Api.Models.{Execution, OneOffJob, ListResponse, verify}
use rocktick.Api.Executions.{to_request, get_executions, limit_of, before_cursor}
use rocktick.Api.Limits.{
  choose_region, check_region, fetch_tenant, within_limits, check_body, check_time,
}

pub record CreateJob : Type 0 where
  pub region : Option String
  pub execute_at : ℤ
  pub request : Models.HttpRequest
  pub timeout_ms : Option ℤ
  pub max_retries : Option ℤ
  pub max_response_bytes : Option ℤ

pub record UpdateJob : Type 0 where
  pub region : Option String
  pub execute_at : Option ℤ
  pub request : Option Models.HttpRequest
  pub timeout_ms : Option ℤ
  pub max_retries : Option ℤ
  pub max_response_bytes : Option ℤ

-- `IntermediateOneOffJob`: a job with its request.
pub record IntermediateOneOffJob : Type 0 where
  pub job : Jobs.OneOffJob
  pub req : Jobs.HttpRequest

unfoldable pub to_one_off_job : List Execution → IntermediateOneOffJob → OneOffJob
to_one_off_job executions row = record {
  id = row.job.id;
  region = row.job.region;
  execute_at = row.job.execute_at;
  request = to_request row.req;
  executions =
      sort_by (λ (a : Execution) (b : Execution). not (ltb_ℤ a.scheduled_at b.scheduled_at))
        (filter (λ (e : Execution). is_text e.one_off_job_id row.job.id) executions);
  timeout_ms = row.job.timeout_ms;
  max_retries = row.job.max_retries;
  max_response_bytes = row.job.max_response_bytes;
  tenant_id = row.job.tenant_id;
  deleted_at = Option.map timestamp row.job.deleted_at;
}

module _ {J : Type 0} (env : Env J) (lib : ApiLib) where
  -- A statement that the database refuses.
  abbrev pub stored : Option (Db J) → Result ApiError (Db J)
  stored o = ok_or o (internal_server_error (some lib.db_error))

  abbrev pub new_request : Models.HttpRequest → Jobs.HttpRequest
  new_request r = record {
    id = env.generate "request" 0;
    method = r.method;
    url = r.url;
    headers = map header_line r.headers;
    body = r.body;
    deleted_at = none;
  }

  abbrev pub retries_of : Option ℤ → Option Tenant → ℤ
  retries_of asked tenant =
      unwrap_or (or_else asked (Option.map (λ (t : Tenant). t.default_retries) tenant)) (pos 3)

  abbrev pub new_job : CreateJob → String → Option String → ℤ → Jobs.OneOffJob
  new_job opts region tenant_id max_retries = record {
    id = env.generate "one_off_job" 0;
    region = region;
    tenant_id = tenant_id;
    request_id = env.generate "request" 0;
    execute_at = opts.execute_at;
    timeout_ms = opts.timeout_ms;
    max_retries = max_retries;
    max_response_bytes = opts.max_response_bytes;
    created_at = env.now;
    deleted_at = none;
  }

  abbrev pub created : CreateJob → String → Option String → ℤ → OneOffJob
  created opts region tenant_id max_retries = record {
    id = env.generate "one_off_job" 0;
    region = region;
    execute_at = opts.execute_at;
    request = opts.request;
    executions = [];
    timeout_ms = opts.timeout_ms;
    max_retries = max_retries;
    max_response_bytes = opts.max_response_bytes;
    tenant_id = tenant_id;
    deleted_at = none;
  }

  unfoldable pub insert_job :
      CreateJob → String → Option String → Option Tenant → Db J → Result ApiError (Db J × OneOffJob)
  insert_job opts region tenant_id tenant db = do
    db1 ← stored (insert_request (new_request opts.request) db)
    let max_retries = retries_of opts.max_retries tenant
    db2 ← stored (insert_one_off_job (new_job opts region tenant_id max_retries) db1)
    ok (db2, created opts region tenant_id max_retries)

  unfoldable pub create_txn :
      Context → Option String → CreateJob → Db J → Result ApiError (Db J × OneOffJob)
  create_txn ctx tenant_id opts db = do
    region ← choose_region ctx opts.region
    verify lib opts.request
    tenant ← fetch_tenant db tenant_id
    within_limits lib tenant opts.timeout_ms opts.max_retries opts.max_response_bytes
    check_body lib tenant opts.request.body
    check_time lib env.utc_now tenant opts.execute_at
    insert_job opts region tenant_id tenant db

  unfoldable pub create_job :
      Context → Option String → CreateJob → Db J → Db J × Result ApiError OneOffJob
  create_job ctx tenant_id opts db = committed db (create_txn ctx tenant_id opts db)

  -- INNER JOIN http_requests.
  abbrev with_request : Db J → Jobs.OneOffJob → Option IntermediateOneOffJob
  with_request db job =
      Option.map (λ (r : Jobs.HttpRequest). record { job = job; req = r })
        (get_row request_key job.request_id db.http_requests)

  -- The job of that id that the caller may see.
  abbrev pub find_job : Bool → Db J → String → Option String → Option IntermediateOneOffJob
  find_job also_deleted db job_id tenant_id = elim (get_row one_off_key job_id db.one_off_jobs) [
    | none ↦ none
    | some job ↦
        if (if also_deleted then true else is_none job.deleted_at)
          && is_visible tenant_id job.tenant_id
        then with_request db job
        else none
  ]

  abbrev executions_of : Db J → List String → Option String → ℕ → List Execution
  executions_of db ids tenant_id completed =
      get_executions db ids tenant_id true completed ++ get_executions db ids tenant_id false 2

  unfoldable pub get_job : Db J → String → Option String → Result ApiError OneOffJob
  get_job db job_id tenant_id = do
    row ← ok_or (find_job true db job_id tenant_id) not_found
    ok (to_one_off_job (executions_of db (job_id ∷ []) tenant_id 5) row)
