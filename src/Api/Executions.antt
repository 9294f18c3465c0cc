-- ===== src/Api/Executions.antt =====
-- src/api/executions.rs: the executions that a client sees. A scheduled job is one, with its request,
-- and once it has been executed with the outcome.
use rocktick.Prelude.{
  ℕ, String, Bool, true, false, not, ◌&&◌, ◌||◌, Option, none, some, List, [], ◌∷◌, filter, sort_by,
  last?, length, is_none, is_some, is_text, str_eq, unwrap_or, any, if◌then◌else◌,
}
use mathlib.Core.Option
use rocktick.Prelude.Int.{ℤ, pos, pos_part, ltb_ℤ, min_ℤ, scale_ℤ}
use rocktick.Prelude.Result.{Result, ok, err, ◌>>=◌}
use rocktick.Prelude.Tables.{get_row}
use rocktick.Prelude.Selections.{take, flat_map, is_among}
use rocktick.Db.Jobs
use rocktick.Db.Jobs.{Timestamp, ScheduledJob, timestamp, epoch}
use rocktick.Db.Tables.{Db, scheduled_key, request_key, response_key, job_execution_key}
use rocktick.Http.{parse_headers}
use rocktick.Scheduler.Env.{Env}
use rocktick.Api.Base.{ApiError, ApiLib, internal_server_error, not_found, is_visible}
use rocktick.Api.Models
use rocktick.Api.Models.{Execution, ListResponse}

abbrev pub to_request : Jobs.HttpRequest → Models.HttpRequest
to_request r = record {
  method = r.method;
  url = r.url;
  headers = parse_headers r.headers;
  body = r.body;
}

abbrev pub to_response : Jobs.HttpResponse → Models.HttpResponse
to_response r = record { status = r.status; headers = parse_headers r.headers; body = r.body }

module _ {J : Type 0} (db : Db J) where
  -- LEFT JOIN job_executions, LEFT JOIN http_responses.
  abbrev pub execution_of : ScheduledJob → Option Jobs.JobExecution
  execution_of job = elim job.execution_id [
    | none ↦ none
    | some id ↦ get_row job_execution_key id db.job_executions
  ]

  abbrev pub response_of : Option Jobs.JobExecution → Option Jobs.HttpResponse
  response_of none = none
  response_of (some exe) = elim exe.response_id [
    | none ↦ none
    | some id ↦ get_row response_key id db.http_responses
  ]

  abbrev success_of : Option Jobs.JobExecution → Option Bool
  success_of none = none
  success_of (some exe) = exe.success

  abbrev error_of : Option Jobs.JobExecution → Option String
  error_of none = none
  error_of (some exe) = exe.response_error

  unfoldable pub to_execution : ScheduledJob → Jobs.HttpRequest → Execution
  to_execution job req =
      let exe = execution_of job in
      record {
        id = job.id;
        region = job.region;
        scheduled_at = timestamp job.scheduled_at;
        executed_at = Option.map (λ (e : Jobs.JobExecution). timestamp e.executed_at) exe;
        success = success_of exe;
        request = to_request req;
        response = Option.map to_response (response_of exe);
        response_error = error_of exe;
        timeout_ms = job.timeout_ms;
        max_retries = job.max_retries;
        max_response_bytes = job.max_response_bytes;
        tenant_id = job.tenant_id;
        one_off_job_id = job.one_off_job_id;
        cron_job_id = job.cron_job_id;
        retry_for = job.retry_for_id;
      }

  -- INNER JOIN http_requests.
  abbrev pub join_request : ScheduledJob → List Execution
  join_request job = elim (get_row request_key job.request_id db.http_requests) [
    | none ↦ []
    | some req ↦ to_execution job req ∷ []
  ]

  -- Whether the LEFT JOIN of job_executions has a row.
  abbrev pub is_completed : ScheduledJob → Bool
  is_completed job = is_some (execution_of job)

  abbrev pub same_state : Bool → Bool → Bool
  same_state true b = b
  same_state false b = not b

  abbrev same_column : Option String → Option String → Bool
  same_column none none = true
  same_column (some a) (some b) = str_eq a b
  same_column (some a) none = false
  same_column none (some b) = false

  -- PARTITION BY tenant_id, one_off_job_id, cron_job_id.
  abbrev pub same_partition : ScheduledJob → ScheduledJob → Bool
  same_partition a b =
      same_column a.tenant_id b.tenant_id
      && same_column a.one_off_job_id b.one_off_job_id
      && same_column a.cron_job_id b.cron_job_id

  -- The newest first where they are completed, else the oldest, by seconds.
  abbrev pub row_order : Bool → ScheduledJob → ScheduledJob → Bool
  row_order true a b = not (ltb_ℤ (epoch a.scheduled_at) (epoch b.scheduled_at))
  row_order false a b = not (ltb_ℤ (epoch b.scheduled_at) (epoch a.scheduled_at))

  abbrev belongs : List String → ScheduledJob → Bool
  belongs jobs s = any (λ id. is_text s.one_off_job_id id || is_text s.cron_job_id id) jobs

  abbrev pub matching : List String → Option String → Bool → List ScheduledJob
  matching jobs tenant_id completed =
      filter
        (λ s.
          is_none s.deleted_at
          && belongs jobs s
          && is_visible tenant_id s.tenant_id
          && same_state completed (is_completed s))
        db.scheduled_jobs

  -- `row_num <= count_per`.
  abbrev pub is_top : ℕ → Bool → List ScheduledJob → ScheduledJob → Bool
  is_top count_per completed rows s =
      is_among scheduled_key
        (take count_per (sort_by (row_order completed) (filter (same_partition s) rows))) s

  unfoldable pub get_executions : List String → Option String → Bool → ℕ → List Execution
  unfolding to_execution
  get_executions jobs tenant_id completed count_per =
      let rows = matching jobs tenant_id completed in
      flat_map join_request (filter (is_top count_per completed rows) rows)

-- `QueryParams`.
pub record QueryParams : Type 0 where
  pub cursor : Option String
  pub from : Option ℤ
  pub to : Option ℤ
  pub completed : Option Bool
  pub limit : Option ℤ
  pub one_off_job_id : Option String
  pub cron_id : Option String

module _ (lib : ApiLib) where
  -- `limit.unwrap_or(15).min(250)`; LIMIT refuses a negative number.
  unfoldable pub limit_of : Option ℤ → Result ApiError ℕ
  limit_of limit =
      let n = min_ℤ (unwrap_or limit (pos 15)) (pos 250) in
      if ltb_ℤ n (pos 0) then err (internal_server_error (some lib.db_error)) else ok (pos_part n)

abbrev pub optional {ℓ} : {A : Type ℓ} → Option A → (A → Bool) → Bool
optional none p = true
optional (some a) p = p a

module _ {J : Type 0} (env : Env J) where
  -- `id < cursor`, and ORDER BY id DESC.
  abbrev pub before_cursor : Option String → String → Bool
  before_cursor cursor id = optional cursor (λ c. not (env.text_le c id))

  module _ (lib : ApiLib) (db : Db J) where
    abbrev has_request : ScheduledJob → Bool
    has_request job = is_some (get_row request_key job.request_id db.http_requests)

    abbrev pub is_listed : Option String → QueryParams → ScheduledJob → Bool
    is_listed tenant_id params job =
        has_request job
        && is_none job.deleted_at
        && is_visible tenant_id job.tenant_id
        && optional params.completed (λ c. same_state db c (is_completed db job))
        && before_cursor params.cursor job.id
        && optional params.from (λ t. not (ltb_ℤ job.scheduled_at (scale_ℤ 1_000_000 t)))
        && optional params.to (λ t. not (ltb_ℤ (scale_ℤ 1_000_000 t) job.scheduled_at))
        && optional params.one_off_job_id (is_text job.one_off_job_id)
        && optional params.cron_id (is_text job.cron_job_id)

    abbrev list_from : List Execution → ListResponse Execution
    list_from found = record {
      entries = found;
      count = length found;
      cursor = Option.map (λ (e : Execution). e.id) (last? found);
    }

    unfoldable pub list_executions :
        Option String → QueryParams → Result ApiError (ListResponse Execution)
    unfolding limit_of
    list_executions tenant_id params = do
      limit ← limit_of lib params.limit
      ok (
          list_from (
            flat_map (join_request db) (
              take limit (
                sort_by (λ a b. env.text_le b.id a.id)
                  (filter (is_listed tenant_id params) db.scheduled_jobs)))))

    abbrev first_of : List Execution → Result ApiError Execution
    first_of [] = err not_found
    first_of (e ∷ es) = ok e

    unfoldable pub get_execution : String → Option String → Result ApiError Execution
    get_execution execution_id tenant_id = first_of (
        flat_map (join_request db) (
          filter
            (λ j.
              str_eq j.id execution_id && is_none j.deleted_at && is_visible tenant_id j.tenant_id)
            db.scheduled_jobs))
