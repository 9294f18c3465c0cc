-- ===== src/Workflow/SideEffect.antt =====
-- src/broker/workflow.rs: how the outcome of a job is written to its workflow execution.
use rocktick.Prelude.{
  ◌≡◌, ◌↔◌, inl, inr, Option-cases, String, false, ◌&&◌, Option, none, some, arith, is_none, str_eq,
}
use rocktick.Prelude.Tables.{get_row, update_where}
use rocktick.Db.Jobs.{Timestamp}
use rocktick.Db.Workflows.{DbExecution, Workflow}
use rocktick.Db.Tables.{Db, workflow_execution_key, workflow_key, is_finished}
use rocktick.Workflow.Data.{ReturnedData, Serde}

-- `Result<String, String>`: the body of a response, or the error.
pub data Body : Type 0 where
  responded errored : String → Body

pub data WorkflowExecutionResult (J : Type 0) : Type 0 where
  failure : String → WorkflowExecutionResult J
  failure_with_json : String → J → WorkflowExecutionResult J
  success : J → WorkflowExecutionResult J

-- (status, result_json, failure_reason)
pub record ExecutionData (J : Type 0) : Type 0 where
  pub status : String
  pub result_json : Option J
  pub failure_reason : Option String

module _ {J : Type 0} (serde : Serde J) where
  unfoldable pub from_body : Body → WorkflowExecutionResult J
  from_body (errored error) = failure error
  from_body (responded body) = elim (serde.from_str body) [
    | none ↦ failure (serde.parse_message body)
    | some json ↦ elim (serde.from_value json) [
      | none ↦ failure_with_json (serde.mismatch_message json) json
      | some returned ↦ elim returned.error [
        | some error ↦ failure_with_json (serde.returned_error_message error) json
        | none ↦ success json
      ]
    ]
  ]

module _ {J : Type 0} where
  unfoldable pub to_data : WorkflowExecutionResult J → ExecutionData J
  to_data (failure reason) = record {
    status = "failed";
    result_json = none;
    failure_reason = some reason;
  }
  to_data (failure_with_json reason json) = record {
    status = "failed";
    result_json = some json;
    failure_reason = some reason;
  }
  to_data (success json) = record {
    status = "completed";
    result_json = some json;
    failure_reason = none;
  }

  abbrev pub write : ExecutionData J → Timestamp → DbExecution J → DbExecution J
  write d executed_at e = record e {
    status = d.status;
    executed_at = some executed_at;
    result_json = d.result_json;
    failure_reason = d.failure_reason;
  }

  -- `none` is the error of `fetch_one`: no workflow has such an execution.
  unfoldable pub handle_workflow_execution_side_effect :
      Serde J → String → Body → Timestamp → Db J → Option (Db J)
  handle_workflow_execution_side_effect serde id body executed_at db =
      elim (get_row workflow_execution_key id db.workflow_executions) [
        | none ↦ none
        | some e ↦ elim (get_row workflow_key e.workflow_id db.workflows) [
          | none ↦ none
          | some w ↦ some (record db {
            workflow_executions =
                update_where (λ x. str_eq x.id id)
                  (write (to_data (from_body serde body)) executed_at) db.workflow_executions;
          })
        ]
      ]

  -- A finished execution has a result or a reason.
  abbrev pub Decided : DbExecution J → Type 0
  Decided e = (is_finished e && is_none e.result_json && is_none e.failure_reason) ≡ false

  -- The body of a response that counts as a success.
  abbrev pub Accepted : Serde J → Body → Type 0
  Accepted serde (errored error) = ⊥
  Accepted serde (responded body) =
      (json : J) × (returned : ReturnedData J) × (serde.from_str body ≡ some json)
      × (serde.from_value json ≡ some returned)
      × (returned.error ≡ none)

  -- An execution fails unless its implementation responded with returned data that name no error.
  pub to_data-Accepted :
      (serde : Serde J) (body : Body)
      → ((to_data (from_body serde body)).failure_reason ≡ none) ↔ Accepted serde body
  unfolding from_body to_data
  to_data-Accepted serde (errored error) = ((λ h. cc), (λ a. absurd a))
  to_data-Accepted serde (responded body) = (
    (λ h. elim (Option-cases (serde.from_str body)) [
      | inl e ↦ absurd (ground arith)
      | inr (json, e) ↦ elim (Option-cases (serde.from_value json)) [
        | inl f ↦ absurd (ground arith)
        | inr (returned, f) ↦ (json, returned, e, f, ground arith)
      ]
    ]),
    (λ a. let (json, returned, e, f, g) = a in ground (arith, e, f, g)),
  )

  abbrev pub written : Serde J → String → Body → Timestamp → Db J → Db J
  written serde id body t db = record db {
    workflow_executions =
        update_where (λ x. str_eq x.id id) (write (to_data (from_body serde body)) t)
          db.workflow_executions;
  }

  pub handle-eq-some :
      (serde : Serde J) (id : String) (body : Body) (t : Timestamp) (db : Db J) {e : DbExecution J}
      {w : Workflow J}
      → get_row workflow_execution_key id db.workflow_executions ≡ some e
      → get_row workflow_key e.workflow_id db.workflows ≡ some w
      → handle_workflow_execution_side_effect serde id body t db ≡ some (written serde id body t db)
  unfolding handle_workflow_execution_side_effect
  handle-eq-some serde id body t db q r =
      rw (q, handle_workflow_execution_side_effect) (rw (r, handle_workflow_execution_side_effect))
