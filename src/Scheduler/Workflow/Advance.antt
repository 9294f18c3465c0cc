-- ===== src/Scheduler/Workflow/Advance.antt =====
-- How pending_execution.rs and waited_execution.rs of src/scheduler/workflow/ move an execution on.
use rocktick.Prelude.{
  List, ◌++◌, Bool, if◌then◌else◌, any, is_text, ℕ, suc, ◌≡◌, refl, String, not, ◌&&◌, none, some,
  [], ◌∷◌, arith, find, str_eq,
}
use rocktick.Prelude.Dict.{Dict, lookup}
use rocktick.Workflow.Context.{DbDependency}
use rocktick.Db.Workflows.{Workflow, DbExecution, Dependency}
use rocktick.Db.Tables.{Db, insert_workflow}
use rocktick.Prelude.Tables.{update_where}
use rocktick.Workflow.Data.{ChildDefinition, WaitDefinition, wait_until}
use rocktick.Scheduler.Env.{Env}
use rocktick.Scheduler.Run.{failed, scheduling_loop, broken}
use rocktick.Scheduler.Workflow.Select.{belongs, executions_of, dependencies_of}
use rocktick.Scheduler.Workflow.PendingExecution
use rocktick.Scheduler.Workflow.PendingExecution.{
  all_waits, execution_results, insert_children, children_of, open_dependencies, only_open,
  child_workflow, dict_size,
}

module _ {J : Type 0} (env : Env J) where
  insert_workflow-child :
      (w : Workflow J) (n : ℕ) (definition : ChildDefinition J) (db : Db J)
      → insert_workflow (child_workflow env w n definition) db ≡ none
  unfolding insert_workflow
  insert_workflow-child w n definition db = ground arith

  insert_children-cons :
      (w : Workflow J) (id : String) (x : String × ChildDefinition J)
      (rest : Dict (ChildDefinition J)) (n : ℕ) (db : Db J)
      → insert_children env w id (x ∷ rest) n db ≡ none
  unfolding insert_children
  insert_children-cons w id (name, definition) rest n db =
      rw (insert_workflow-child w n definition db, insert_children) refl

  open_dependencies-child :
      (w : Workflow J) (e : DbExecution J) (x : String × ChildDefinition J)
      (rest : Dict (ChildDefinition J)) (db : Db J)
      → children_of env w db ≡ x ∷ rest
      → open_dependencies env w e db ≡ failed
  unfolding open_dependencies
  open_dependencies-child w e x rest db children =
      rw (children, open_dependencies, insert_children-cons w e.id x rest 0 db) refl

  -- When the worker picks a workflow whose results ask for a new child, it stops with an error,
  -- whatever the number of rounds, and the tables stay as they were: the row of the child has no
  -- `context`, which the table requires.
  pub new_child_fails :
      (db : Db J) (w : Workflow J) (e : DbExecution J) (x : String × ChildDefinition J)
      (rest : Dict (ChildDefinition J))
      → find (λ w. only_open "pending" db w && not (env.locked w.id)) db.workflows ≡ some w
      → find (λ e. str_eq e.status "pending" && belongs w.id e) db.workflow_executions ≡ some e
      → children_of env w db ≡ x ∷ rest
      → (n : ℕ) → scheduling_loop (PendingExecution.run_once env) (suc n) db ≡ broken db
  unfolding scheduling_loop PendingExecution.run_once
  new_child_fails db w e x rest found pending children n =
      rw (found, scheduling_loop, PendingExecution.run_once)
        (rw (pending, scheduling_loop, PendingExecution.run_once)
          (rw (open_dependencies-child w e x rest db children) refl))

  -- A dependency of an execution on a wait, by its name and time.
  abbrev pub WaitFor : String → String × WaitDefinition → Dependency → Type 0
  WaitFor execution_id (name, definition) d =
      (d.workflow_execution_id ≡ execution_id)
      × (d.wait_name ≡ some name)
      × (d.wait_until ≡ some (wait_until definition))
      × (d.child_workflow_name ≡ none)
      × (d.child_workflow_id ≡ none)

  -- One dependency for each wait, in order.
  abbrev pub WaitsFor : String → Dict WaitDefinition → List Dependency → Type 0
  WaitsFor execution_id [] [] = Unit {0}
  WaitsFor execution_id [] (d ∷ ds) = ⊥
  WaitsFor execution_id (x ∷ waits) [] = ⊥
  WaitsFor execution_id (x ∷ waits) (d ∷ ds) =
      WaitFor execution_id x d × WaitsFor execution_id waits ds

  -- The tables after waits were added for an execution.
  abbrev Waited : String → Dict WaitDefinition → Db J → Db J → Type 0
  Waited id waits db db' =
      (added : List Dependency) × WaitsFor id waits added
      × (db'.workflow_dependencies ≡ db.workflow_dependencies ++ added)
      × (db'.workflow_executions ≡ db.workflow_executions)
      × (db'.workflows ≡ db.workflows)

  -- A wait of this name is known already.
  abbrev pub is_known : List (DbDependency J) → String → Bool
  is_known known name = any (λ x. is_text x.wait_name name) known

  -- The waits that the results ask for.
  abbrev pub asked_waits : Workflow J → Db J → Dict WaitDefinition
  asked_waits w db = all_waits env (execution_results env (executions_of w.id db)) []

  -- What a pending execution without new children leaves.
  abbrev pub WaitsOpened : Workflow J → DbExecution J → Db J → Db J → Type 0
  WaitsOpened w e db db' =
      (waits : Dict WaitDefinition) × (added : List Dependency) × ((name : String)
        → lookup name waits ≡ (
            if is_known (dependencies_of env w.id db) name
            then none
            else lookup name (asked_waits w db)))
      × WaitsFor e.id waits added
      × (db'.workflow_dependencies ≡ db.workflow_dependencies ++ added)
      × (db'.workflow_executions
          ≡ update_where (λ x. str_eq x.id e.id) (λ x. record x { status = "waiting" })
              db.workflow_executions)
      × (db'.workflows ≡ db.workflows)
