-- ===== src/Scheduler/Workflow/PendingExecution.antt =====
-- src/scheduler/workflow/pending_execution.rs: the children and waits that the results ask for
-- become dependencies of the pending execution, which then waits for them.
use rocktick.Prelude.{
  ℕ, suc, String, Bool, not, ◌&&◌, ◌||◌, Option, none, some, List, [], ◌∷◌, any, find, str_eq,
}
use rocktick.Prelude.Dict.{Dict, extend, remove}
use rocktick.Prelude.Tables.{update_where}
use rocktick.Db.Workflows.{Workflow, DbExecution, Dependency}
use rocktick.Db.Tables.{Db, insert_workflow, insert_dependency, is_finished}
use rocktick.Workflow.Data.{
  ReturnedData, ChildDefinition, WaitDefinition, new_children, new_waits, url, input, max_retries,
  wait_until,
}
use rocktick.Workflow.Context.{DbDependency}
use rocktick.Scheduler.Env.{Env}
use rocktick.Scheduler.Run.{Run, committed, reached_end, failed}
use rocktick.Scheduler.Workflow.Select.{executions_of, dependencies_of, belongs}

abbrev pub dict_size {ℓ} : {V : Type ℓ} → Dict V → ℕ
dict_size [] = 0
dict_size (x ∷ xs) = suc (dict_size xs)

module _ {J : Type 0} where
  -- UPDATE workflow_executions SET status = … WHERE id = ….
  abbrev pub set_status : String → String → Db J → Db J
  set_status id status db = record db {
    workflow_executions =
        update_where (λ e. str_eq e.id id) (λ e. record e { status = status })
          db.workflow_executions;
  }

  -- EXISTS an execution with the status, and every other one is finished.
  abbrev pub only_open : String → Db J → Workflow J → Bool
  only_open status db w =
      any (λ e. belongs w.id e && str_eq e.status status) db.workflow_executions
      && not (
          any (λ e. belongs w.id e && not (str_eq e.status status || is_finished e))
            db.workflow_executions)

module _ {J : Type 0} (env : Env J) where
  -- The results that parse, in the order of their executions.
  unfoldable pub execution_results : List (DbExecution J) → List (ReturnedData J)
  execution_results [] = []
  execution_results (e ∷ es) = elim e.result_json [
    | none ↦ execution_results es
    | some json ↦ elim (env.serde.from_value json) [
      | none ↦ execution_results es
      | some returned ↦ returned ∷ execution_results es
    ]
  ]

  unfoldable pub all_children :
      List (ReturnedData J) → Dict (ChildDefinition J) → Dict (ChildDefinition J)
  all_children [] d = d
  all_children (r ∷ rs) d = all_children rs (extend d (new_children r))

  unfoldable pub all_waits : List (ReturnedData J) → Dict WaitDefinition → Dict WaitDefinition
  all_waits [] d = d
  all_waits (r ∷ rs) d = all_waits rs (extend d (new_waits r))

  abbrev remove_name {ℓ} : {V : Type ℓ} → Option String → Dict V → Dict V
  remove_name none d = d
  remove_name (some n) d = remove n d

  unfoldable pub unknown_children :
      List (DbDependency J) → Dict (ChildDefinition J) → Dict (ChildDefinition J)
  unknown_children [] d = d
  unknown_children (x ∷ xs) d = unknown_children xs (remove_name x.child_workflow_name d)

  unfoldable pub unknown_waits : List (DbDependency J) → Dict WaitDefinition → Dict WaitDefinition
  unknown_waits [] d = d
  unknown_waits (x ∷ xs) d = unknown_waits xs (remove_name x.wait_name d)

  -- The INSERT names no `context`.
  abbrev pub child_workflow : Workflow J → ℕ → ChildDefinition J → Workflow J
  child_workflow w n definition = record {
    id = env.generate "workflow" n;
    region = w.region;
    tenant_id = w.tenant_id;
    implementation_url = url definition;
    input = input definition;
    context = none;
    status = "pending";
    result = none;
    error = none;
    max_retries = max_retries definition;
  }

  abbrev pub child_dependency : String → String → ℕ → Dependency
  child_dependency execution_id name n = record {
    id = env.generate "workflow_dependency" n;
    workflow_execution_id = execution_id;
    child_workflow_name = some name;
    child_workflow_id = some (env.generate "workflow" n);
    wait_name = none;
    wait_until = none;
  }

  abbrev pub wait_dependency : String → String → ℕ → WaitDefinition → Dependency
  wait_dependency execution_id name n definition = record {
    id = env.generate "workflow_dependency" n;
    workflow_execution_id = execution_id;
    child_workflow_name = none;
    child_workflow_id = none;
    wait_name = some name;
    wait_until = some (wait_until definition);
  }

  -- The number of the child serves for the ids that are generated.
  unfoldable pub insert_children :
      Workflow J → String → Dict (ChildDefinition J) → ℕ → Db J → Option (Db J)
  insert_children w execution_id [] n db = some db
  insert_children w execution_id ((name, definition) ∷ rest) n db =
      elim (insert_workflow (child_workflow w n definition) db) [
        | none ↦ none
        | some db1 ↦ elim (insert_dependency (child_dependency execution_id name n) db1) [
          | none ↦ none
          | some db2 ↦ insert_children w execution_id rest (suc n) db2
        ]
      ]

  unfoldable pub insert_waits : String → Dict WaitDefinition → ℕ → Db J → Option (Db J)
  insert_waits execution_id [] n db = some db
  insert_waits execution_id ((name, definition) ∷ rest) n db =
      elim (insert_dependency (wait_dependency execution_id name n definition) db) [
        | none ↦ none
        | some db1 ↦ insert_waits execution_id rest (suc n) db1
      ]

  -- The dependencies that are still to be inserted.
  abbrev pub children_of : Workflow J → Db J → Dict (ChildDefinition J)
  children_of w db =
      unknown_children (dependencies_of env w.id db)
        (all_children (execution_results (executions_of w.id db)) [])

  abbrev pub waits_of : Workflow J → Db J → Dict WaitDefinition
  waits_of w db =
      unknown_waits (dependencies_of env w.id db)
        (all_waits (execution_results (executions_of w.id db)) [])

  unfoldable pub open_dependencies : Workflow J → DbExecution J → Db J → Run (Db J)
  open_dependencies w e db = elim (insert_children w e.id (children_of w db) 0 db) [
    | none ↦ failed
    | some db1 ↦ elim (insert_waits e.id (waits_of w db) (dict_size (children_of w db)) db1) [
      | none ↦ failed
      | some db2 ↦ committed (set_status e.id "waiting" db2)
    ]
  ]

  unfoldable pub run_once : Db J → Run (Db J)
  run_once db = elim (find (λ w. only_open "pending" db w && not (env.locked w.id)) db.workflows) [
    | none ↦ reached_end
    | some w ↦
        elim (find (λ e. str_eq e.status "pending" && belongs w.id e) db.workflow_executions) [
          | none ↦ failed
          | some e ↦ open_dependencies w e db
        ]
  ]
