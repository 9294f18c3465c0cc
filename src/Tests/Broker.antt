-- ===== src/Tests/Broker.antt =====
-- A report on a locked job.
use rocktick.Prelude.{refl, String, Bool, true, false, none, some, [], ◌∷◌}
use rocktick.Prelude.Int.{ℤ, pos}
use rocktick.Prelude.Tables.{get_row}
use rocktick.Db.Jobs.{ScheduledJob}
use rocktick.Db.Tables.{Db}
use rocktick.Drone.Store.Rows
use rocktick.Scheduler.Jobs.OneOff.{job_for}
use rocktick.Broker.Record.{reported_request, reported_execution}
use rocktick.Broker.States.{Settled}
use rocktick.Broker.Reports.{record_reports, Acknowledged, record_reports-Acknowledged}
use rocktick.Tests.Fixtures.{env, empty_db, one_off}

abbrev always : ℤ → Bool
always t = true

abbrev report : Rows.JobExecution
report = record {
  job_id = "scheduled_1";
  success = false;
  lock_nonce = pos 7;
  response = none;
  response_error = some "timeout";
  req_method = "GET";
  req_url = "http://example.com";
  req_headers = [];
  req_body = none;
  executed_at = pos 100;
}

abbrev locked_job : ScheduledJob
locked_job = record (job_for env always one_off (pos 50_000_000)) {
  id = "scheduled_1";
  lock_nonce = some (pos 7);
}

abbrev locked_db : Db String
locked_db = record empty_db { scheduled_jobs = locked_job ∷ [] }

abbrev recorded_db : Db String
recorded_db = record locked_db {
  http_requests = reported_request env always report ∷ [];
  job_executions = reported_execution env always report ∷ [];
  scheduled_jobs = record locked_job { lock_nonce = none; execution_id = some "execution" } ∷ [];
}

locked_db-Settled : Settled locked_db.scheduled_jobs
unfolding get_row
locked_db-Settled = ((refl, tt), (refl, tt))

-- The same report, sent twice.
record_reports-Acknowledged_example :
    Acknowledged locked_db (record_reports always ((env, report) ∷ (env, report) ∷ []) locked_db)
record_reports-Acknowledged_example =
    record_reports-Acknowledged always ((env, report) ∷ (env, report) ∷ []) locked_db
      locked_db-Settled
