-- ===== src/Tests/Jobs.antt =====
-- The schedulers of tokens, one-off jobs and retries, each on a row that it picks.
use rocktick.Prelude.{◌<◌, refl, String, true, false, none, some, List, [], ◌∷◌, arith, any}
use rocktick.Prelude.Int.{pos, ◌-ℤ◌}
use rocktick.Prelude.Tables.{count, get_row}
use rocktick.Prelude.Counts.{total}
use rocktick.Db.Jobs.{Tenant, JobExecution, ScheduledJob}
use rocktick.Db.Tables.{Db}
use rocktick.Scheduler.Run.{scheduling_loop, Rests}
use rocktick.Scheduler.Tokens
use rocktick.Scheduler.Tokens.{Bucket, Filled, missing, fill-Bucket, scheduling_loop-Filled}
use rocktick.Scheduler.Jobs.OneOff
use rocktick.Scheduler.Jobs.OneOff.{Once, unscheduled, scheduling_loop-Once}
use rocktick.Scheduler.Jobs.Retry
use rocktick.Scheduler.Jobs.Retry.{Budget, unretried, scheduling_loop-Budget}
use rocktick.Tests.Fixtures.{env, empty_db, tenant, one_off}

abbrev tenants : List Tenant
tenants = tenant ∷ []

tenants-Bucket : Bucket tenants
unfolding get_row
tenants-Bucket = ((refl, tt), (ground arith, tt))

tenants-total : total missing tenants < 10
unfolding total ◌-ℤ◌
tenants-total = omega arith

scheduling_loop-Filled_example :
    Filled (pos 100_000_000) (pos 100_000_000) (
      scheduling_loop (Tokens.run_once (pos 100_000_000) (pos 100_000_000) (λ _. false)) 10 tenants)
scheduling_loop-Filled_example =
    scheduling_loop-Filled (pos 100_000_000) (pos 100_000_000) tenants tenants-Bucket 10
      tenants-total

abbrev one_off_db : Db String
one_off_db = record empty_db { one_off_jobs = one_off ∷ [] }

one_off_db-Once : Once env (λ _. true) one_off_db
unfolding count
one_off_db-Once id = omega arith

one_off_db-unscheduled : unscheduled env (λ _. true) one_off_db < 5
unfolding count any
one_off_db-unscheduled = omega arith

scheduling_loop-Once_example :
    Rests
      (OneOff.run_once env (λ _. true))
      (Once env (λ _. true))
      (scheduling_loop (OneOff.run_once env (λ _. true)) 5 one_off_db)
scheduling_loop-Once_example =
    scheduling_loop-Once env (λ _. true) one_off_db one_off_db-Once 5 one_off_db-unscheduled

abbrev failed_execution : JobExecution
failed_execution = record {
  id = "execution_1";
  executed_at = pos 60_000_000;
  success = some false;
  request_id = "request_2";
  response_id = none;
  response_error = some "timeout";
}

abbrev failed_job : ScheduledJob
failed_job = record (OneOff.job_for env (λ _. true) one_off (pos 50_000_000)) {
  id = "scheduled_1";
  execution_id = some "execution_1";
}

abbrev failed_db : Db String
failed_db = record one_off_db {
  job_executions = failed_execution ∷ [];
  scheduled_jobs = failed_job ∷ [];
}

abbrev retried_db : Db String
retried_db = record failed_db {
  scheduled_jobs = failed_job ∷ Retry.retry_for env failed_job (pos 180_000_000) ∷ [];
}

failed_db-unretried : unretried env failed_db < 5
unfolding count any get_row
failed_db-unretried = omega arith

scheduling_loop-Budget_example :
    Rests (Retry.run_once env) (Budget env) (scheduling_loop (Retry.run_once env) 5 failed_db)
scheduling_loop-Budget_example =
    scheduling_loop-Budget env failed_db (omega arith, tt) 5 failed_db-unretried
