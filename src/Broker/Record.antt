-- ===== src/Broker/Record.antt =====
-- `record_execution` of src/broker/job.rs: what one execution that a drone reports changes. An error
-- ends its transaction, and is `none`.
use rocktick.Prelude.{
  String, Bool, false, not, ◌&&◌, Option, none, some, List, ◌<>◌, find, filter, map, starts_with,
  str_eq, if◌then◌else◌,
}
use rocktick.Prelude.Int.{ℤ, eqb_ℤ, scale_ℤ, wrap_i32}
use rocktick.Prelude.Tables.{update_where}
use rocktick.Db.Jobs.{Timestamp, HttpRequest, HttpResponse, JobExecution, ScheduledJob}
use rocktick.Db.Tables.{Db, insert_request, insert_response, insert_job_execution}
use rocktick.Drone.Store.Rows
use rocktick.Drone.Store.Rows.{HeaderMap}
use rocktick.Scheduler.Env.{Env}
use rocktick.Workflow.SideEffect.{Body, responded, errored, handle_workflow_execution_side_effect}

-- `lock_nonce = $2`, which is NULL where there is no nonce.
abbrev pub holds_lock : ℤ → ScheduledJob → Bool
holds_lock nonce job = elim job.lock_nonce [ none ↦ false | some n ↦ eqb_ℤ n nonce ]

-- WHERE id = $1 AND lock_nonce = $2, with `execution.lock_nonce as i32`.
abbrev pub is_reported : Rows.JobExecution → ScheduledJob → Bool
is_reported e job = str_eq job.id e.job_id && holds_lock (wrap_i32 e.lock_nonce) job

abbrev header_line : String × String → String
header_line (k, v) = k <> ": " <> v

abbrev pub req_headers : HeaderMap → List String
req_headers h = map header_line (filter (λ x. not (starts_with x.0 "Rocktick-")) h)

abbrev pub response_body : Rows.JobExecution → Body
response_body e = elim e.response [
  | some res ↦ responded res.body
  | none ↦ elim e.response_error [
    | some error ↦ errored error
    | none ↦ errored "Drone did not respond with an response"
  ]
]

module _ {J : Type 0} (env : Env J) (in_range : Timestamp → Bool) where
  abbrev pub reported_request : Rows.JobExecution → HttpRequest
  reported_request e = record {
    id = env.generate "request" 0;
    method = e.req_method;
    url = e.req_url;
    headers = req_headers e.req_headers;
    body = e.req_body;
    deleted_at = none;
  }

  abbrev pub reported_response : Rows.Response → HttpResponse
  reported_response res = record {
    id = env.generate "response" 0;
    status = res.status;
    headers = map header_line res.headers;
    body = res.body;
    deleted_at = none;
  }

  -- A time that chrono does not have is replaced by the clock's.
  abbrev pub executed_at : Rows.JobExecution → Timestamp
  executed_at e =
      let time = scale_ℤ 1_000_000 e.executed_at in if in_range time then time else env.utc_now

  abbrev pub response_id : Rows.JobExecution → Option String
  response_id e = elim e.response [ none ↦ none | some res ↦ some (env.generate "response" 0) ]

  abbrev pub reported_execution : Rows.JobExecution → JobExecution
  reported_execution e = record {
    id = env.generate "execution" 0;
    executed_at = executed_at e;
    success = some e.success;
    request_id = env.generate "request" 0;
    response_id = response_id e;
    response_error = e.response_error;
  }

  unfoldable pub insert_outcome : Rows.JobExecution → Db J → Option (Db J)
  insert_outcome e db = elim e.response [
    | none ↦ some db
    | some res ↦ insert_response (reported_response res) db
  ]

  unfoldable pub side_effect : ScheduledJob → Rows.JobExecution → Db J → Option (Db J)
  side_effect job e db = elim job.workflow_execution_id [
    | none ↦ some db
    | some id ↦
        handle_workflow_execution_side_effect env.serde id (response_body e) (executed_at e) db
  ]

  -- UPDATE scheduled_jobs SET execution_id = $2, lock_nonce = NULL WHERE id = $1.
  abbrev pub finish : String → Db J → Db J
  finish id db = record db {
    scheduled_jobs =
        update_where (λ j. str_eq j.id id)
          (λ j. record j { execution_id = some (env.generate "execution" 0); lock_nonce = none })
          db.scheduled_jobs;
  }

  -- The statements after the SELECT.
  unfoldable pub record_for : ScheduledJob → Rows.JobExecution → Db J → Option (Db J)
  record_for job e db = elim (insert_request (reported_request e) db) [
    | none ↦ none
    | some db1 ↦ elim (insert_outcome e db1) [
      | none ↦ none
      | some db2 ↦ elim (insert_job_execution (reported_execution e) db2) [
        | none ↦ none
        | some db3 ↦ elim (side_effect job e db3) [
          | none ↦ none
          | some db4 ↦ some (finish job.id db4)
        ]
      ]
    ]
  ]

  unfoldable pub record_execution : Rows.JobExecution → Db J → Option (Db J)
  record_execution e db = elim (find (is_reported e) db.scheduled_jobs) [
    | none ↦ none
    | some job ↦ record_for job e db
  ]
