-- ===== src/Scheduler/Retention/Wipe.antt =====
-- src/util/http_requests.rs, http_responses.rs and scheduled_jobs.rs: the UPDATEs that wipe a job.
-- `now` is `now()`.
use rocktick.Prelude.{String, Option, none, some, [], str_eq}
use rocktick.Prelude.Tables.{get_row, update_where}
use rocktick.Db.Jobs.{Timestamp, HttpRequest, HttpResponse, JobExecution, ScheduledJob}
use rocktick.Db.Tables.{Db, scheduled_key, job_execution_key}

abbrev pub wipe_request : Timestamp → HttpRequest → HttpRequest
wipe_request now r = record r { body = some ""; headers = []; deleted_at = some now }

abbrev pub wipe_response : Timestamp → HttpResponse → HttpResponse
wipe_response now r = record r { body = ""; headers = []; deleted_at = some now }

abbrev pub delete_job : Timestamp → ScheduledJob → ScheduledJob
delete_job now j = record j { deleted_at = some now }

module _ {J : Type 0} (now : Timestamp) where
  unfoldable pub delete_http_req : String → Db J → Db J
  delete_http_req id db = record db {
    http_requests = update_where (λ r. str_eq r.id id) (wipe_request now) db.http_requests;
  }

  unfoldable pub delete_http_resp : String → Db J → Db J
  delete_http_resp id db = record db {
    http_responses = update_where (λ r. str_eq r.id id) (wipe_response now) db.http_responses;
  }

  abbrev pub delete_response : Option String → Db J → Db J
  delete_response none db = db
  delete_response (some id) db = delete_http_resp id db

  -- `fetch_one` of the job with its execution: `none` is its error.
  abbrev pub executed : String → Db J → Option JobExecution
  executed id db = elim (get_row scheduled_key id db.scheduled_jobs) [
    | none ↦ none
    | some job ↦ elim job.execution_id [
      | none ↦ none
      | some execution_id ↦ get_row job_execution_key execution_id db.job_executions
    ]
  ]

  abbrev pub mark_deleted : String → Db J → Db J
  mark_deleted id db = record db {
    scheduled_jobs = update_where (λ j. str_eq j.id id) (delete_job now) db.scheduled_jobs;
  }

  unfoldable pub delete_scheduled_job : String → Db J → Option (Db J)
  delete_scheduled_job id db = elim (executed id db) [
    | none ↦ none
    | some e ↦
        some (delete_response e.response_id (delete_http_req e.request_id (mark_deleted id db)))
  ]
