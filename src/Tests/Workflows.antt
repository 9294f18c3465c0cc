-- ===== src/Tests/Workflows.antt =====
-- A workflow in each of its stages.
use rocktick.Prelude.{
  ◌≡◌, ◌≢◌, refl, String, true, not, ◌&&◌, none, some, List, [], ◌∷◌, find, any, str_eq, filter,
  sort_by,
}
use rocktick.Prelude.Int.{pos}
use rocktick.Prelude.Tables.{get_row}
use rocktick.Prelude.Dict.{extend, insert}
use rocktick.Db.Workflows.{DbExecution, Dependency}
use rocktick.Db.Tables.{Db, workflow_execution_key}
use rocktick.Workflow.Data.{wait_until}
use rocktick.Workflow.Context
use rocktick.Workflow.Context.{
  WorkflowContext, DbDependency, waited, last_outcome, ingest_dependencies,
  contains-ingest_dependencies, lookup-ingest_dependencies,
}
use rocktick.Workflow.SideEffect.{responded, from_body, to_data, write, written}
use rocktick.Scheduler.Run.{committed, scheduling_loop, broken, running}
use rocktick.Scheduler.Workflow.Select.{executions_of, dependencies_of}
use rocktick.Scheduler.Workflow.NoExecutions
use rocktick.Scheduler.Workflow.NoExecutions.{
  resume_workflow, drop_or_fail, finalize_workflow_success,
}
use rocktick.Scheduler.Workflow.Stalls.{
  DroppedSuccess, run_once-ne-committed, scheduling_loop-Unstarted, response_counts_as_success,
}
use rocktick.Scheduler.Workflow.PendingExecution
use rocktick.Scheduler.Workflow.PendingExecution.{children_of, waits_of, dict_size}
use rocktick.Scheduler.Workflow.Advance.{new_child_fails}
use rocktick.Scheduler.Workflow.WaitedExecution
use rocktick.Tests.Fixtures.{env, serde, workflow, execution, child, empty_db}

abbrev with_executions : List (DbExecution String) → Db String
with_executions es = record empty_db { workflows = workflow ∷ []; workflow_executions = es }

-- The timer of the first execution is over, and its child has failed.
abbrev over : DbDependency String
over = record {
  id = "dependency_1";
  workflow_execution_id = "execution_1";
  child_workflow_name = none;
  child_workflow_id = none;
  wait_name = some "pause";
  wait_until = some (pos 50_000_000);
  child_result = none;
  child_error = none;
  wait_complete = some true;
}

abbrev start : WorkflowContext String
start = Context.new "{}"

abbrev scheduled_db : Db String
scheduled_db = with_executions (execution "execution_1" (pos 0) "scheduled" none ∷ [])

abbrev answered_db : Db String
answered_db = written serde "execution_1" (responded "wait") (pos 90_000_000) scheduled_db

-- The first execution is done, with the result that is named.
abbrev done_db : String → Db String
done_db result = with_executions (execution "execution_1" (pos 0) "completed" (some result) ∷ [])

run_once-ne-committed_example :
    NoExecutions.run_once env (done_db "wait") ≢ committed (done_db "wait")
run_once-ne-committed_example =
    run_once-ne-committed env (done_db "wait") (done_db "wait") (refl, tt)

unstarted-found :
    find (NoExecutions.is_idle env (with_executions [])) (workflow ∷ []) ≡ some workflow
unfolding find any
unstarted-found = refl

unstarted-free :
    get_row workflow_execution_key "workflow_execution" (with_executions []).workflow_executions
    ≡ none
unfolding get_row
unstarted-free = refl

scheduling_loop-Unstarted_example :
    scheduling_loop (NoExecutions.run_once env) 100 (with_executions [])
    ≡ running (with_executions [])
scheduling_loop-Unstarted_example =
    scheduling_loop-Unstarted env workflow (with_executions []) unstarted-found tt unstarted-free
      100

response_counts_as_success_example : DroppedSuccess env workflow "nonsense" scheduled_db (
    resume_workflow env workflow
      (write
        (to_data (from_body serde (responded "nonsense")))
        (pos 90_000_000)
        (execution "execution_1" (pos 0) "scheduled" none))
      (pos 0)
      []
      start
      scheduled_db)
response_counts_as_success_example =
    response_counts_as_success env workflow (execution "execution_1" (pos 0) "scheduled" none)
      (pos 90_000_000) "nonsense" "nonsense" (pos 0) [] start scheduled_db refl
      (unfold get_row in refl) refl

-- The second execution is pending.
abbrev second : DbExecution String
second = execution "execution_2" (pos 1) "pending" none

abbrev pending_db : String → Db String
pending_db result =
    with_executions (execution "execution_1" (pos 0) "completed" (some result) ∷ second ∷ [])

pending_db-found :
    find
      (λ w. PendingExecution.only_open "pending" (pending_db "child") w && not (env.locked w.id))
      (workflow ∷ [])
    ≡ some workflow
unfolding find any
pending_db-found = refl

pending_db-second :
    find
      (λ (e : DbExecution String). str_eq e.status "pending" && str_eq e.workflow_id "workflow_1")
      (pending_db "child").workflow_executions
    ≡ some second
unfolding find
pending_db-second = refl

pending_db-children : children_of env workflow (pending_db "child") ≡ ("child", child) ∷ []
unfolding dependencies_of executions_of sort_by filter PendingExecution.unknown_children
    PendingExecution.all_children PendingExecution.execution_results extend insert
pending_db-children = refl

new_child_fails_example :
    scheduling_loop (PendingExecution.run_once env) 10 (pending_db "child")
    ≡ broken (pending_db "child")
new_child_fails_example =
    new_child_fails env (pending_db "child") workflow second ("child", child) [] pending_db-found
      pending_db-second pending_db-children 9

abbrev pause : Dependency
pause = record {
  id = "workflow_dependency";
  workflow_execution_id = "execution_2";
  child_workflow_name = none;
  child_workflow_id = none;
  wait_name = some "pause";
  wait_until = some (pos 200_000_000);
}

abbrev waiting_db : Db String
waiting_db = record (pending_db "wait") {
  workflow_executions =
      execution "execution_1" (pos 0) "completed" (some "wait")
      ∷ execution "execution_2" (pos 1) "waiting" none
      ∷ [];
  workflow_dependencies = pause ∷ [];
}

-- The timer of the waiting execution is over.
abbrev ready_db : Db String
ready_db = record waiting_db {
  workflow_dependencies = record pause { wait_until = some (pos 50_000_000) } ∷ [];
}

abbrev dispatched_db : Db String
dispatched_db = record ready_db {
  workflows = record workflow { context = some "context" } ∷ [];
  http_requests = WaitedExecution.call_request env workflow "context" ∷ [];
  scheduled_jobs =
      WaitedExecution.call_job env workflow (execution "execution_2" (pos 1) "waiting" none)
        (pos 280_000_000)
      ∷ [];
  workflow_executions =
      execution "execution_1" (pos 0) "completed" (some "wait")
      ∷ execution "execution_2" (pos 1) "scheduled" none
      ∷ [];
}
