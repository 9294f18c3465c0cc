-- ===== src/Workflow/Context.antt =====
-- `WorkflowContext` of src/util/workflow.rs: what the next call of an implementation is told of the
-- executions and dependencies so far.
use rocktick.Prelude.{
  ◌≡◌, inl, inr, refl, String, Bool, true, false, ◌&&◌, ◌||◌, Option, none, some, List, [], ◌∷◌,
  ◌++◌, arith, unwrap_or, is_none, is_text, or_else, if◌then◌else◌, Option-cases, any,
}
use rocktick.Prelude.Dict.{Dict, lookup, insert, extend, contains, add, lookup-insert, contains-add}
use rocktick.Db.Jobs.{Timestamp}
use rocktick.Db.Workflows.{DbExecution}
use rocktick.Workflow.Data.{Serde, new_steps}

pub data ChildWorkflowResult (J : Type 0) : Type 0 where
  success : J → ChildWorkflowResult J
  failure : String → ChildWorkflowResult J

pub record PreviousError : Type 0 where
  pub timestamp : Timestamp
  pub message : String

pub record WorkflowContext (J : Type 0) : Type 0 where
  pub input : J
  pub steps : Dict J
  pub child_workflows : Dict (ChildWorkflowResult J)
  pub completed_waits : List String
  pub prev_errors : List PreviousError

-- A row of the join of workflow_dependencies with its child workflow.
pub record DbDependency (J : Type 0) : Type 0 where
  pub id : String
  pub workflow_execution_id : String
  pub child_workflow_name : Option String
  pub child_workflow_id : Option String
  pub wait_name : Option String
  pub wait_until : Option Timestamp
  pub child_result : Option J
  pub child_error : Option String
  pub wait_complete : Option Bool

module _ {J : Type 0} where
  unfoldable pub new : J → WorkflowContext J
  new input = record {
    input = input;
    steps = [];
    child_workflows = [];
    completed_waits = [];
    prev_errors = [];
  }

  abbrev pub push_error : Timestamp → String → WorkflowContext J → WorkflowContext J
  push_error timestamp message c = record c {
    prev_errors = c.prev_errors ++ (record { timestamp = timestamp; message = message }) ∷ [];
  }

  -- The `if let` on a JSON result; `now` stands for a missing time.
  ingest_result :
      Serde J → Timestamp → DbExecution J → Option J → WorkflowContext J → WorkflowContext J
  ingest_result serde now exec none c = c
  ingest_result serde now exec (some json) c = elim (serde.from_value json) [
    | some returned ↦ record c { steps = extend c.steps (new_steps returned) }
    | none ↦ push_error (unwrap_or exec.executed_at now) (serde.poorly_formed_message json) c
  ]

  -- The first `if let`: both a reason and a time.
  abbrev pub reported : DbExecution J → Option (String × Timestamp)
  reported exec = elim exec.failure_reason [
    | none ↦ none
    | some error ↦ elim exec.executed_at [ none ↦ none | some timestamp ↦ some (error, timestamp) ]
  ]

  unfoldable pub ingest_execution :
      Serde J → Timestamp → DbExecution J → WorkflowContext J → WorkflowContext J
  unfolding ingest_result
  ingest_execution serde now exec c = elim (reported exec) [
    | some (error, timestamp) ↦ push_error timestamp error c
    | none ↦ ingest_result serde now exec exec.result_json c
  ]

  -- The first branch: a named wait that is over.
  abbrev pub waited : DbDependency J → Option String
  waited dep = if unwrap_or dep.wait_complete false then dep.wait_name else none

  -- The outcome of a child: a result before an error.
  abbrev pub child_outcome : DbDependency J → Option (ChildWorkflowResult J)
  child_outcome dep = elim dep.child_result [
    | some result ↦ some (success result)
    | none ↦ elim dep.child_error [ some error ↦ some (failure error) | none ↦ none ]
  ]

  record_child :
      Option String → Option (ChildWorkflowResult J) → WorkflowContext J → WorkflowContext J
  record_child none o c = c
  record_child (some name) none c = c
  record_child (some name) (some o) c = record c {
    child_workflows = insert name o c.child_workflows;
  }

  unfoldable pub ingest_dependency : DbDependency J → WorkflowContext J → WorkflowContext J
  unfolding record_child
  ingest_dependency dep c = elim (waited dep) [
    | some name ↦ record c { completed_waits = add name c.completed_waits }
    | none ↦ record_child dep.child_workflow_name (child_outcome dep) c
  ]

  waits-record_child :
      (n : Option String) (o : Option (ChildWorkflowResult J)) (c : WorkflowContext J)
      (name : String)
      → contains name (record_child n o c).completed_waits ≡ contains name c.completed_waits
  unfolding record_child
  waits-record_child none o c x = refl
  waits-record_child (some n) none c x = refl
  waits-record_child (some n) (some o) c x = refl

  child-record_child :
      (n : Option String) (o : Option (ChildWorkflowResult J)) (c : WorkflowContext J)
      (name : String)
      → lookup name (record_child n o c).child_workflows ≡ (
          if is_text n name
          then or_else o (lookup name c.child_workflows)
          else lookup name c.child_workflows)
  unfolding record_child
  child-record_child none o c name = refl
  child-record_child (some n) none c name = ground arith
  child-record_child (some n) (some o) c name = lookup-insert n name o c.child_workflows

  unfoldable pub ingest_executions :
      Serde J → Timestamp → List (DbExecution J) → WorkflowContext J → WorkflowContext J
  ingest_executions serde now [] c = c
  ingest_executions serde now (e ∷ es) c =
      ingest_executions serde now es (ingest_execution serde now e c)

  unfoldable pub ingest_dependencies : List (DbDependency J) → WorkflowContext J → WorkflowContext J
  ingest_dependencies [] c = c
  ingest_dependencies (d ∷ ds) c = ingest_dependencies ds (ingest_dependency d c)

  -- What a list of dependencies says of a named child: the last word on it, or else the given one.
  abbrev pub last_outcome :
      String
      → List (DbDependency J)
      → Option (ChildWorkflowResult J)
      → Option (ChildWorkflowResult J)
  last_outcome name [] before = before
  last_outcome name (d ∷ ds) before = last_outcome name ds (
      if is_none (waited d) && is_text d.child_workflow_name name
      then or_else (child_outcome d) before
      else before)

  contains-ingest_dependency :
      (d : DbDependency J) (c : WorkflowContext J) (name : String)
      → contains name (ingest_dependency d c).completed_waits
        ≡ (if is_text (waited d) name then true else contains name c.completed_waits)
  unfolding ingest_dependency
  contains-ingest_dependency d c name = elim (Option-cases (waited d)) [
    | inl e ↦
        rw (e, ingest_dependency)
          (waits-record_child d.child_workflow_name (child_outcome d) c name)
    | inr (n, e) ↦ rw (e, ingest_dependency) (contains-add n name c.completed_waits)
  ]

  -- The completed waits of a context are those that some dependency reports as over.
  pub contains-ingest_dependencies :
      (ds : List (DbDependency J)) (c : WorkflowContext J) (name : String)
      → contains name (ingest_dependencies ds c).completed_waits
        ≡ (any (λ d. is_text (waited d) name) ds || contains name c.completed_waits)
  unfolding ingest_dependencies any
  contains-ingest_dependencies [] c name = refl
  contains-ingest_dependencies (d ∷ ds) c name = ground (
    arith,
    contains-ingest_dependencies ds (ingest_dependency d c) name,
    contains-ingest_dependency d c name,
  )

  lookup-ingest_dependency :
      (d : DbDependency J) (c : WorkflowContext J) (name : String)
      → lookup name (ingest_dependency d c).child_workflows ≡ (
          if is_none (waited d) && is_text d.child_workflow_name name
          then or_else (child_outcome d) (lookup name c.child_workflows)
          else lookup name c.child_workflows)
  unfolding ingest_dependency
  lookup-ingest_dependency d c name = elim (Option-cases (waited d)) [
    | inl e ↦
        rw (e, ingest_dependency)
          (child-record_child d.child_workflow_name (child_outcome d) c name)
    | inr (n, e) ↦ rw (e, ingest_dependency)
  ]

  -- What a context says of a child is the last outcome that a dependency reports of it.
  pub lookup-ingest_dependencies :
      (ds : List (DbDependency J)) (c : WorkflowContext J) (name : String)
      → lookup name (ingest_dependencies ds c).child_workflows
        ≡ last_outcome name ds (lookup name c.child_workflows)
  unfolding ingest_dependencies
  lookup-ingest_dependencies [] c name = refl
  lookup-ingest_dependencies (d ∷ ds) c name =
      rw (lookup-ingest_dependencies ds (ingest_dependency d c) name)
        (rw (lookup-ingest_dependency d c name))
