-- ===== src/Scheduler/Workflow/Dispatch.antt =====
-- What waited_execution.rs of src/scheduler/workflow/ dispatches, and when the job may run.
use rocktick.Prelude.{
  String, Option, none, some, All, any, ◌⊎◌, if◌then◌else◌, ℕ, zero, suc, ◌<◌, ◌*◌, ◌^◌, ◌≡◌, ◌≢◌,
  refl, Bool, true, false, not, ◌&&◌, [], ◌∷◌, ◌++◌, arith, ◌==◌, str_eq,
}
use Prim.Native.Nat.{bit_xor}
use rocktick.Prelude.Int.{pos, ◌≤ℤ◌, ◌+ℤ◌}
use rocktick.Db.Jobs.{Timestamp, HttpRequest, ScheduledJob}
use rocktick.Workflow.Context.{WorkflowContext}
use rocktick.Prelude.Tables.{get_row, update_where}
use rocktick.Db.Workflows.{Workflow, DbExecution, Dependency}
use rocktick.Db.Tables.{Db, workflow_key}
use rocktick.Scheduler.Env.{Env, seconds}
use rocktick.Scheduler.Workflow.Select.{executions_of, retry_count}
use rocktick.Scheduler.Workflow.WaitedExecution.{
  context_of, call_request, call_job, wait_time, wait_factor,
}

module _ {J : Type 0} (env : Env J) where
  -- The call of a workflow's implementation with a context.
  abbrev pub CallOf : Workflow J → WorkflowContext J → HttpRequest → Type 0
  CallOf w context r =
      (r.method ≡ "post")
      × (r.url ≡ w.implementation_url)
      × (r.body ≡ some (env.to_string (env.to_value context)))
      × (r.deleted_at ≡ none)

  -- A job that makes a call for an execution: three minutes from now, for a retry times the exclusive
  -- or of two and the number of retries.
  abbrev pub JobFor : Workflow J → DbExecution J → ℕ → HttpRequest → ScheduledJob → Type 0
  JobFor w e retries r s =
      (s.workflow_id ≡ some w.id)
      × (s.workflow_execution_id ≡ some e.id)
      × (s.request_id ≡ r.id)
      × (s.region ≡ w.region)
      × (s.tenant_id ≡ w.tenant_id)
      × (s.scheduled_at
          ≡ env.utc_now +ℤ pos (180_000_000 * (if e.is_retry then bit_xor 2 retries else 1)))
      × (s.max_retries ≡ pos 0)
      × (s.lock_nonce ≡ none)
      × (s.execution_id ≡ none)
      × (s.retry_for_id ≡ none)
      × (s.deleted_at ≡ none)

  -- The tables after the call of a workflow's implementation is scheduled.
  abbrev pub Dispatched : Workflow J → DbExecution J → Db J → Db J → Type 0
  Dispatched w e db db' =
      (r : HttpRequest) × (s : ScheduledJob) × CallOf w (context_of env w db) r
      × JobFor w e (retry_count (executions_of w.id db)) r s
      × (db'.http_requests ≡ db.http_requests ++ r ∷ [])
      × (db'.scheduled_jobs ≡ db.scheduled_jobs ++ s ∷ [])
      × (db'.workflow_executions
          ≡ update_where (λ x. str_eq x.id e.id) (λ x. record x { status = "scheduled" })
              db.workflow_executions)
      × (db'.workflow_dependencies ≡ db.workflow_dependencies)

  abbrev Scheduled : Workflow J → DbExecution J → Db J → Db J → Type 0
  Scheduled w e db db' =
      (db'.http_requests
        ≡ db.http_requests ++ call_request env w (env.to_value (context_of env w db)) ∷ [])
      × (db'.scheduled_jobs
          ≡ db.scheduled_jobs
            ++ call_job env w e
                (env.utc_now +ℤ wait_time e.is_retry (retry_count (executions_of w.id db)))
              ∷ [])
      × (db'.workflow_executions
          ≡ update_where (λ x. str_eq x.id e.id) (λ x. record x { status = "scheduled" })
              db.workflow_executions)
      × (db'.workflow_dependencies ≡ db.workflow_dependencies)

  -- A time that has come, and a child that does not run any more.
  abbrev pub Elapsed : Option Timestamp → Type 0
  Elapsed none = Unit {0}
  Elapsed (some t) = t ≤ℤ env.now

  abbrev pub NotPending : Option (Workflow J) → Type 0
  NotPending none = Unit {0}
  NotPending (some child) = child.status ≢ "pending"

  abbrev pub ChildOver : Db J → Option String → Type 0
  ChildOver db none = Unit {0}
  ChildOver db (some id) = NotPending (get_row workflow_key id db.workflows)

  -- The dependency belongs to an execution of the workflow.
  abbrev pub is_of : Workflow J → Db J → Dependency → Bool
  is_of w db d =
      any (λ x. str_eq x.id d.workflow_execution_id && str_eq x.workflow_id w.id)
        db.workflow_executions

  -- A dependency that is another workflow's, or is fulfilled.
  abbrev pub Fulfilled : Workflow J → Db J → Dependency → Type 0
  Fulfilled w db d =
      (is_of w db d ≡ false) ⊎ (Elapsed d.wait_until × ChildOver db d.child_workflow_id)

  -- A workflow that may go on, and a waiting execution of it, are dispatched.
  abbrev pub SomeDispatched : Db J → Db J → Type 0
  SomeDispatched db db' =
      (w : Workflow J) × (e : DbExecution J) × All (Fulfilled w db) db.workflow_dependencies
      × (env.locked w.id ≡ false)
      × (e.status ≡ "waiting")
      × (e.workflow_id ≡ w.id)
      × Dispatched w e db db'

all_below : ℕ → (ℕ → Bool) → Bool
all_below zero p = true
all_below (suc n) p = all_below n p && p n

all_below-apply : (n : ℕ) (p : ℕ → Bool) (k : ℕ) → all_below n p ≡ true → k < n → p k ≡ true
unfolding all_below
all_below-apply zero p k h l = absurd (omega arith)
all_below-apply (suc n) p k h l = ground (arith, all_below-apply n p k)

-- The waiting time of a retry is not 3 minutes doubled per earlier retry, whatever their number below
-- 32; and it is no time at all once there are two.
pub wait_time-not_exponential :
    (k : ℕ) → k < 32 → (wait_time true k ≢ seconds (180 * 2 ^ k)) × (wait_time true 2 ≡ seconds 0)
unfolding wait_time wait_factor all_below
wait_time-not_exponential k l =
    let differs = all_below-apply 32 (λ k. not (wait_factor true k == 2 ^ k)) k refl l in
    (λ same. absurd (ground (arith, differs, same)), refl)
