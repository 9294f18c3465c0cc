-- ===== src/Scheduler/Workflow/Select.antt =====
-- The SELECTs that the three schedulers of src/scheduler/workflow/ share.
use rocktick.Prelude.{
  ℕ, String, Bool, not, ◌&&◌, Option, none, some, List, [], ◌∷◌, filter, sort_by, any, str_eq,
}
use mathlib.Core.Option
use rocktick.Prelude.Int.{ltb_ℤ}
use rocktick.Prelude.Tables.{get_row, count}
use rocktick.Db.Workflows.{Workflow, DbExecution, Dependency}
use rocktick.Db.Tables.{Db, workflow_key}
use rocktick.Workflow.Context.{DbDependency}
use rocktick.Scheduler.Env.{Env}

module _ {J : Type 0} where
  abbrev pub index_le : DbExecution J → DbExecution J → Bool
  index_le a b = not (ltb_ℤ b.execution_index a.execution_index)

  abbrev pub belongs : String → DbExecution J → Bool
  belongs id e = str_eq e.workflow_id id

  -- WHERE workflow_id = $1 ORDER BY execution_index ASC.
  unfoldable pub executions_of : String → Db J → List (DbExecution J)
  executions_of id db = sort_by index_le (filter (belongs id) db.workflow_executions)

  -- `dep.wait_until < now()`, which is NULL where there is no time.
  abbrev pub join_dependency : Env J → Db J → Dependency → DbDependency J
  join_dependency env db d =
      let child : Option (Workflow J) = elim d.child_workflow_id [
        | none ↦ none
        | some id ↦ get_row workflow_key id db.workflows
      ] in
      record {
        id = d.id;
        workflow_execution_id = d.workflow_execution_id;
        child_workflow_name = d.child_workflow_name;
        child_workflow_id = d.child_workflow_id;
        wait_name = d.wait_name;
        wait_until = d.wait_until;
        child_result = Option.bind child (λ w. w.result);
        child_error = Option.bind child (λ w. w.error);
        wait_complete = Option.map (λ t. ltb_ℤ t env.now) d.wait_until;
      }

  -- JOIN workflow_executions, LEFT JOIN workflows, ORDER BY dep.id ASC.
  unfoldable pub dependencies_of : Env J → String → Db J → List (DbDependency J)
  dependencies_of env id db =
      dependency_rows
        (sort_by (λ a b. env.text_le a.id b.id) (filter owned db.workflow_dependencies))
    where
      owned : Dependency → Bool
      owned d =
          any (λ e. str_eq e.id d.workflow_execution_id && belongs id e) db.workflow_executions

      dependency_rows : List Dependency → List (DbDependency J)
      dependency_rows [] = []
      dependency_rows (d ∷ ds) = join_dependency env db d ∷ dependency_rows ds

  -- `if execution.is_retry { retry_count += 1 }` over the executions.
  unfoldable pub retry_count : List (DbExecution J) → ℕ
  retry_count = count (λ e. e.is_retry)
