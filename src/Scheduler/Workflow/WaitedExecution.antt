-- ===== src/Scheduler/Workflow/WaitedExecution.antt =====
-- src/scheduler/workflow/waited_execution.rs: once nothing blocks a workflow, its waiting execution
-- becomes a scheduled job that calls the implementation with the context so far.
use Prim.Native.Nat.{bit_xor}
use rocktick.Prelude.{
  ℕ, ◌*◌, String, Bool, false, not, ◌&&◌, ◌||◌, Option, none, some, [], any, find, str_eq,
  if◌then◌else◌,
}
use rocktick.Prelude.Int.{ℤ, pos, ◌+ℤ◌, ltb_ℤ}
use rocktick.Prelude.Tables.{get_row, update_where}
use rocktick.Db.Jobs.{HttpRequest, ScheduledJob, Timestamp}
use rocktick.Db.Workflows.{Workflow, DbExecution, Dependency}
use rocktick.Db.Tables.{Db, insert_request, insert_scheduled_job, workflow_key}
use rocktick.Workflow.Context
use rocktick.Workflow.Context.{WorkflowContext, ingest_executions, ingest_dependencies}
use rocktick.Scheduler.Env.{Env, hash_i32, seconds}
use rocktick.Scheduler.Run.{Run, committed, reached_end, failed}
use rocktick.Scheduler.Workflow.Select.{executions_of, dependencies_of, retry_count, belongs}
use rocktick.Scheduler.Workflow.PendingExecution.{only_open, set_status}

-- `2 ^ retry_count` is an exclusive or.
unfoldable pub wait_factor : Bool → ℕ → ℕ
wait_factor is_retry retries = if is_retry then bit_xor 2 retries else 1

-- `Duration::from_mins(3) * wait_factor`.
unfoldable pub wait_time : Bool → ℕ → ℤ
unfolding wait_factor
wait_time is_retry retries = seconds (180 * wait_factor is_retry retries)

module _ {J : Type 0} (env : Env J) where
  abbrev pub is_pending_child : Db J → Option String → Bool
  is_pending_child db none = false
  is_pending_child db (some id) = elim (get_row workflow_key id db.workflows) [
    | none ↦ false
    | some child ↦ str_eq child.status "pending"
  ]

  abbrev pub is_future : Option Timestamp → Bool
  is_future none = false
  is_future (some t) = ltb_ℤ env.now t

  -- A timer that has not elapsed, or a child that is not done.
  abbrev pub blocks : Db J → Dependency → Bool
  blocks db d = is_future d.wait_until || is_pending_child db d.child_workflow_id

  -- A dependency of one of the workflow's executions blocks it.
  unfoldable pub is_blocked : Db J → Workflow J → Bool
  is_blocked db w =
      any
        (λ d.
          any (λ e. str_eq e.id d.workflow_execution_id && belongs w.id e) db.workflow_executions
          && blocks db d)
        db.workflow_dependencies

  unfoldable pub context_of : Workflow J → Db J → WorkflowContext J
  context_of w db =
      ingest_dependencies (dependencies_of env w.id db)
        (ingest_executions env.serde env.utc_now (executions_of w.id db) (Context.new w.input))

  abbrev pub call_request : Workflow J → J → HttpRequest
  call_request w context = record {
    id = env.generate "request" 0;
    method = "post";
    url = w.implementation_url;
    headers = [];
    body = some (env.to_string context);
    deleted_at = none;
  }

  abbrev pub call_job : Workflow J → DbExecution J → Timestamp → ScheduledJob
  call_job w e scheduled_at =
      let id = env.gen_for_time "scheduled_job" scheduled_at 0 in
      record {
        id = id;
        hash = hash_i32 (env.full_hash id);
        lock_nonce = none;
        times_locked = pos 0;
        region = w.region;
        tenant_id = w.tenant_id;
        one_off_job_id = none;
        cron_job_id = none;
        workflow_id = some w.id;
        workflow_execution_id = some e.id;
        retry_for_id = none;
        scheduled_at = scheduled_at;
        request_id = env.generate "request" 0;
        execution_id = none;
        timeout_ms = none;
        max_retries = pos 0;
        max_response_bytes = none;
        deleted_at = none;
      }

  abbrev pub set_context : String → J → Db J → Db J
  set_context id context db = record db {
    workflows =
        update_where (λ w. str_eq w.id id) (λ w. record w { context = some context }) db.workflows;
  }

  unfoldable pub call_implementation : Workflow J → DbExecution J → Db J → Run (Db J)
  call_implementation w e db =
      let context = env.to_value (context_of w db) in
      let scheduled_at =
        env.utc_now +ℤ wait_time e.is_retry (retry_count (executions_of w.id db)) in
      elim (insert_request (call_request w context) (set_context w.id context db)) [
        | none ↦ failed
        | some db1 ↦ elim (insert_scheduled_job (call_job w e scheduled_at) db1) [
          | none ↦ failed
          | some db2 ↦ committed (set_status e.id "scheduled" db2)
        ]
      ]

  unfoldable pub run_once : Db J → Run (Db J)
  run_once db =
      elim (find (λ w. only_open "waiting" db w && not (is_blocked db w) && not (env.locked w.id))
        db.workflows) [
          | none ↦ reached_end
          | some w ↦
              elim (find (λ e. str_eq e.status "waiting" && belongs w.id e)
                db.workflow_executions) [ none ↦ failed | some e ↦ call_implementation w e db ]
        ]
