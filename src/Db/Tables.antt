-- ===== src/Db/Tables.antt =====
-- All tables together, and the INSERTs that several components share, with the PRIMARY KEY, UNIQUE
-- and CHECK constraints of schema_pg.sql. `none` is a constraint violation.
use Prim.Native.Char.{code}
use rocktick.Prelude.{
  ◌==◌, true, String, Bool, false, not, ◌&&◌, ◌||◌, Option, none, some, List, [], ◌∷◌, ◌++◌, any,
  is_none, is_some, is_text, str_eq, if◌then◌else◌,
}
use rocktick.Prelude.Int.{pos, ltb_ℤ, eqb_ℤ}
use rocktick.Prelude.Tables.{get_row}
use rocktick.Db.Jobs.{
  Tenant, HttpRequest, HttpResponse, OneOffJob, CronJob, JobExecution, ScheduledJob,
}
use rocktick.Db.Workflows.{Workflow, DbExecution, Dependency}

pub record Db (J : Type 0) : Type 0 where
  pub tenants : List Tenant
  pub http_requests : List HttpRequest
  pub http_responses : List HttpResponse
  pub one_off_jobs : List OneOffJob
  pub cron_jobs : List CronJob
  pub job_executions : List JobExecution
  pub scheduled_jobs : List ScheduledJob
  pub workflows : List (Workflow J)
  pub workflow_executions : List (DbExecution J)
  pub workflow_dependencies : List Dependency

abbrev pub scheduled_key : ScheduledJob → String
scheduled_key j = j.id

abbrev pub request_key : HttpRequest → String
request_key r = r.id

abbrev pub response_key : HttpResponse → String
response_key r = r.id

abbrev pub job_execution_key : JobExecution → String
job_execution_key e = e.id

abbrev pub one_off_key : OneOffJob → String
one_off_key j = j.id

abbrev pub cron_key : CronJob → String
cron_key j = j.id

-- UNIQUE on a nullable column: NULLs do not clash.
abbrev pub clashes : Option String → Option String → Bool
clashes none o = false
clashes (some a) o = is_text o a

-- Two columns are NULL together: CONSTRAINT workflow_and_workflow_execution.
abbrev pub both_or_none : Option String → Option String → Bool
both_or_none a b = is_none a && is_none b || is_some a && is_some b

-- TEXT does not hold U+0000.
unfoldable pub has_nul : String → Bool
has_nul String.[] = false
has_nul (String.◌∷◌ c s) = let rest = has_nul s in if code c == 0 then true else rest

abbrev pub may_have_nul : Option String → Bool
may_have_nul none = false
may_have_nul (some text) = has_nul text

unfoldable pub request_has_nul : HttpRequest → Bool
request_has_nul r =
    has_nul r.method || has_nul r.url || any has_nul r.headers || may_have_nul r.body

unfoldable pub response_has_nul : HttpResponse → Bool
response_has_nul r = any has_nul r.headers || has_nul r.body

module _ {J : Type 0} where
  unfoldable pub insert_scheduled_job : ScheduledJob → Db J → Option (Db J)
  insert_scheduled_job j db =
      if is_none (get_row scheduled_key j.id db.scheduled_jobs)
        && not (any (λ k. clashes j.retry_for_id k.retry_for_id) db.scheduled_jobs)
        && both_or_none j.workflow_id j.workflow_execution_id
      then some (record db { scheduled_jobs = db.scheduled_jobs ++ j ∷ [] })
      else none

  unfoldable pub insert_request : HttpRequest → Db J → Option (Db J)
  insert_request r db =
      if is_none (get_row request_key r.id db.http_requests) && not (request_has_nul r)
      then some (record db { http_requests = db.http_requests ++ r ∷ [] })
      else none

  unfoldable pub insert_response : HttpResponse → Db J → Option (Db J)
  insert_response r db =
      if is_none (get_row response_key r.id db.http_responses) && not (response_has_nul r)
      then some (record db { http_responses = db.http_responses ++ r ∷ [] })
      else none

  unfoldable pub insert_job_execution : JobExecution → Db J → Option (Db J)
  insert_job_execution e db =
      if is_none (get_row job_execution_key e.id db.job_executions)
        && not (any (λ k. str_eq k.request_id e.request_id) db.job_executions)
        && not (any (λ k. clashes e.response_id k.response_id) db.job_executions)
        && not (may_have_nul e.response_error)
      then some (record db { job_executions = db.job_executions ++ e ∷ [] })
      else none

  unfoldable pub insert_one_off_job : OneOffJob → Db J → Option (Db J)
  insert_one_off_job j db =
      if is_none (get_row one_off_key j.id db.one_off_jobs)
        && not (any (λ k. str_eq k.request_id j.request_id) db.one_off_jobs)
      then some (record db { one_off_jobs = db.one_off_jobs ++ j ∷ [] })
      else none

  unfoldable pub insert_cron_job : CronJob → Db J → Option (Db J)
  insert_cron_job j db =
      if is_none (get_row cron_key j.id db.cron_jobs)
        && not (any (λ k. str_eq k.request_id j.request_id) db.cron_jobs)
      then some (record db { cron_jobs = db.cron_jobs ++ j ∷ [] })
      else none

  abbrev pub workflow_key : Workflow J → String
  workflow_key w = w.id

  abbrev pub workflow_execution_key : DbExecution J → String
  workflow_execution_key e = e.id

  -- status IN ('completed', 'failed').
  abbrev pub is_finished : DbExecution J → Bool
  is_finished e = str_eq e.status "completed" || str_eq e.status "failed"

  -- PRIMARY KEY, NOT NULL, and the CHECKs on `status`, `result`, `error` and `max_retries`.
  unfoldable pub insert_workflow : Workflow J → Db J → Option (Db J)
  insert_workflow w db =
      if is_none (get_row workflow_key w.id db.workflows)
        && is_some w.context
        && (str_eq w.status "pending" || str_eq w.status "completed" || str_eq w.status "failed")
        && (is_none w.result || str_eq w.status "completed")
        && (is_none w.error || str_eq w.status "failed")
        && not (ltb_ℤ w.max_retries (pos 0))
      then some (record db { workflows = db.workflows ++ w ∷ [] })
      else none

  -- The CHECKs on a row of workflow_executions.
  abbrev pub execution_checks : DbExecution J → Bool
  execution_checks e =
      (str_eq e.status "pending"
        || str_eq e.status "waiting"
        || str_eq e.status "scheduled"
        || is_finished e)
      && (is_none e.result_json || is_finished e)
      && (is_none e.failure_reason || str_eq e.status "failed")

  -- PRIMARY KEY, UNIQUE (workflow_id, execution_index) and idx_single_active_execution.
  unfoldable pub insert_execution : DbExecution J → Db J → Option (Db J)
  insert_execution e db =
      if is_none (get_row workflow_execution_key e.id db.workflow_executions)
        && not (
            any
              (λ f. str_eq f.workflow_id e.workflow_id && eqb_ℤ f.execution_index e.execution_index)
              db.workflow_executions)
        && (is_finished e
            || not (
                any (λ f. str_eq f.workflow_id e.workflow_id && not (is_finished f))
                  db.workflow_executions))
        && execution_checks e
      then some (record db { workflow_executions = db.workflow_executions ++ e ∷ [] })
      else none

  unfoldable pub insert_dependency : Dependency → Db J → Option (Db J)
  insert_dependency d db =
      if is_none (get_row (λ e. e.id) d.id db.workflow_dependencies)
        && (is_some d.child_workflow_id && is_none d.wait_until
            || is_none d.child_workflow_id && is_some d.wait_until)
        && both_or_none d.child_workflow_id d.child_workflow_name
        && (is_some d.wait_name && is_some d.wait_until
            || is_none d.wait_name && is_none d.wait_until)
      then some (record db { workflow_dependencies = db.workflow_dependencies ++ d ∷ [] })
      else none
