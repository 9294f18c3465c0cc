-- ===== src/Scheduler/Workflow/NoExecutions.antt =====
-- src/scheduler/workflow/no_executions.rs. The run returns early in most cases, and no early return
-- commits the transaction.
use rocktick.Prelude.{
  String, Bool, true, false, not, ◌&&◌, Option, none, some, List, [], ◌∷◌, any, find, last?, str_eq,
  is_none, if◌then◌else◌,
}
use rocktick.Prelude.Int.{ℤ, pos, ◌+ℤ◌, eqb_ℤ}
use rocktick.Prelude.Tables.{update_where}
use rocktick.Prelude.Dict.{add_all, discard, keys}
use rocktick.Db.Workflows.{Workflow, DbExecution}
use rocktick.Db.Tables.{Db, insert_execution, is_finished}
use rocktick.Workflow.Data.{new_children, new_waits}
use rocktick.Workflow.Context
use rocktick.Workflow.Context.{
  WorkflowContext, DbDependency, ingest_executions, ingest_dependencies,
}
use rocktick.Scheduler.Env.{Env}
use rocktick.Scheduler.Run.{Run, committed, dropped, reached_end, failed}
use rocktick.Scheduler.Workflow.Select.{executions_of, dependencies_of, retry_count, belongs}

-- `Ok(())` without a commit, or the error of the statement.
abbrev pub drop_or_fail : {D : Type 0} → Option D → Run D
drop_or_fail none = failed
drop_or_fail (some db) = dropped db

abbrev pub commit_or_fail : {D : Type 0} → Option D → Run D
commit_or_fail none = failed
commit_or_fail (some db) = committed db

module _ {J : Type 0} (env : Env J) where
  abbrev pub new_execution : Workflow J → ℤ → Bool → DbExecution J
  new_execution w index is_retry = record {
    id = env.generate "workflow_execution" 0;
    region = w.region;
    workflow_id = w.id;
    execution_index = index;
    tenant_id = w.tenant_id;
    status = "pending";
    is_retry = is_retry;
    executed_at = none;
    result_json = none;
    failure_reason = none;
  }

  unfoldable pub create_workflow_execution : Workflow J → ℤ → Bool → Db J → Option (Db J)
  create_workflow_execution w index is_retry db =
      insert_execution (new_execution w index is_retry) db

  -- The CHECK on `result` refuses a failed workflow that has one.
  unfoldable pub finalize_workflow_error :
      Workflow J → String → WorkflowContext J → Db J → Option (Db J)
  finalize_workflow_error w error c db =
      if is_none w.result
      then some (record db {
        workflows =
            update_where (λ x. str_eq x.id w.id)
              (λ x. record x {
                status = "failed";
                error = some error;
                context = some (env.to_value c);
              })
              db.workflows;
      })
      else none

  unfoldable pub finalize_workflow_success :
      Workflow J → J → WorkflowContext J → Db J → Option (Db J)
  finalize_workflow_success w result c db =
      if is_none w.error
      then some (record db {
        workflows =
            update_where (λ x. str_eq x.id w.id)
              (λ x. record x {
                status = "completed";
                result = some result;
                context = some (env.to_value c);
              })
              db.workflows;
      })
      else none

  -- The names of the children and waits that the results ask for.
  unfoldable pub requested : List (DbExecution J) → List String → List String
  requested [] names = names
  requested (e ∷ es) names = elim e.result_json [
    | none ↦ requested es names
    | some json ↦ elim (env.serde.from_value json) [
      | none ↦ requested es names
      | some returned ↦
          requested es
            (add_all (keys (new_waits returned)) (add_all (keys (new_children returned)) names))
    ]
  ]

  abbrev discard_name : Option String → List String → List String
  discard_name none names = names
  discard_name (some n) names = discard n names

  -- Less those that already are dependencies.
  unfoldable pub without_known : List (DbDependency J) → List String → List String
  without_known [] names = names
  without_known (d ∷ ds) names =
      without_known ds (discard_name d.child_workflow_name (discard_name d.wait_name names))

  abbrev is_empty : List String → Bool
  is_empty [] = true
  is_empty (x ∷ xs) = false

  -- The latest execution has neither a result nor a reason: the one case that commits.
  unfoldable pub continue_workflow :
      Workflow J → DbExecution J → ℤ → List String → WorkflowContext J → Db J → Run (Db J)
  continue_workflow w latest retries new_dependencies c db =
      let is_retry = is_empty new_dependencies in
      if is_retry && eqb_ℤ retries w.max_retries
      then drop_or_fail (finalize_workflow_error w (env.limit_message w.max_retries) c db)
      else commit_or_fail
          (create_workflow_execution w (latest.execution_index +ℤ pos 1) is_retry db)

  unfoldable pub resume_workflow :
      Workflow J → DbExecution J → ℤ → List String → WorkflowContext J → Db J → Run (Db J)
  unfolding continue_workflow
  resume_workflow w latest retries new_dependencies c db = elim latest.result_json [
    | some result ↦ drop_or_fail (finalize_workflow_success w result c db)
    | none ↦ elim latest.failure_reason [
      | some error ↦
          if eqb_ℤ retries w.max_retries
          then drop_or_fail (finalize_workflow_error w error c db)
          else drop_or_fail (create_workflow_execution w (latest.execution_index +ℤ pos 1) true db)
      | none ↦ continue_workflow w latest retries new_dependencies c db
    ]
  ]

  -- Every execution of the workflow is completed or failed, and its row is free.
  abbrev pub is_idle : Db J → Workflow J → Bool
  is_idle db w =
      not (any (λ e. belongs w.id e && not (is_finished e)) db.workflow_executions)
      && not (env.locked w.id)

  unfoldable pub run_workflow : Workflow J → Db J → Run (Db J)
  run_workflow w db =
      let executions = executions_of w.id db in
      let dependencies = dependencies_of env w.id db in
      let context =
        ingest_dependencies dependencies
          (ingest_executions env.serde env.utc_now executions (Context.new w.input)) in
      let names = without_known dependencies (requested executions []) in
      elim (last? executions) [
        | none ↦ drop_or_fail (create_workflow_execution w (pos 0) false db)
        | some latest ↦ resume_workflow w latest (pos (retry_count executions)) names context db
      ]

  unfoldable pub run_once : Db J → Run (Db J)
  run_once db = elim (find (is_idle db) db.workflows) [
    | none ↦ reached_end
    | some w ↦ run_workflow w db
  ]
