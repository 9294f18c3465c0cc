-- ===== src/Scheduler/Workflow/Stalls.antt =====
-- What src/scheduler/workflow/no_executions.rs does to the tables that the rest of the program
-- writes: it never commits, so it starts no execution, ends no workflow, and never sleeps.
use rocktick.Prelude.{
  refl, ℕ, ◌≡◌, ◌≢◌, String, Bool, true, false, not, ◌&&◌, ◌||◌, Option, none, some, List, [], ◌∷◌,
  ◌++◌, arith, inl, inr, any, find, find-test, filter, last?, All, All-filter, All-sort_by,
  All-last?, All-zip, All-map, any-false, any-false_iff, filter-false, Option-cases, str_eq,
  is_some, sort_by, &&_left,
}
use rocktick.Prelude.Int.{ℤ, pos, eqb_ℤ}
use rocktick.Prelude.Tables.{get_row, update_where}
use rocktick.Prelude.Updates.{get_row-update_key_self}
use rocktick.Db.Jobs.{Timestamp}
use rocktick.Db.Workflows.{Workflow, DbExecution}
use rocktick.Db.Tables.{Db, workflow_key, workflow_execution_key, insert_execution, is_finished}
use rocktick.Workflow.Context.{WorkflowContext}
use rocktick.Workflow.SideEffect.{Decided, responded, from_body, to_data, write}
use rocktick.Scheduler.Env.{Env}
use rocktick.Scheduler.Run.{
  Run, dropped, committed, scheduling_loop, running, scheduling_loop-dropped,
}
use rocktick.Scheduler.Workflow.Select.{executions_of, belongs, index_le}
use rocktick.Scheduler.Workflow.NoExecutions.{
  drop_or_fail, is_idle, run_once, run_workflow, resume_workflow, create_workflow_execution,
  finalize_workflow_success, new_execution,
}

not-true : (b : Bool) → not b ≡ true → b ≡ false
not-true b h = ground arith

module _ {J : Type 0} (env : Env J) where
  abbrev pub Outcome : DbExecution J → Type 0
  Outcome e = (is_some e.result_json || is_some e.failure_reason) ≡ true

  -- The executions of an idle workflow all have an outcome.
  executions_of-Outcome :
      (w : Workflow J) (db : Db J)
      → is_idle env db w ≡ true
      → All Decided db.workflow_executions
      → All Outcome (executions_of w.id db)
  unfolding executions_of
  executions_of-Outcome w db idle decided =
      let none_open =
        any-false (λ e. belongs w.id e && not (is_finished e)) db.workflow_executions
          (not-true _ (
            &&_left (not (any (λ e. belongs w.id e && not (is_finished e)) db.workflow_executions))
              (not (env.locked w.id)) idle)) in
      All-sort_by index_le Outcome (filter (belongs w.id) db.workflow_executions) (
        All-filter (λ e. ((belongs w.id e && not (is_finished e)) ≡ false) × Decided e) Outcome
          (belongs w.id) db.workflow_executions (λ e h mine. ground (arith, h.0, h.1, mine))
          (All-zip _ Decided db.workflow_executions none_open decided))

  drop_or_fail-ne-committed : (o : Option (Db J)) (d : Db J) → drop_or_fail o ≢ committed d
  drop_or_fail-ne-committed none d = λ h. cc
  drop_or_fail-ne-committed (some e) d = λ h. cc

  resume-ne-committed :
      (w : Workflow J) (latest : DbExecution J) (retries : ℤ) (names : List String)
      (c : WorkflowContext J) (db d : Db J)
      → Outcome latest
      → resume_workflow env w latest retries names c db ≢ committed d
  unfolding resume_workflow
  resume-ne-committed w latest retries names c db d o h = elim (Option-cases latest.result_json) [
    | inr (r, e) ↦ drop_or_fail-ne-committed _ d (rw (e, resume_workflow) at h)
    | inl e ↦ elim (Option-cases latest.failure_reason) [
      | inl f ↦ absurd (ground arith)
      | inr (x, f) ↦ ground arith
    ]
  ]

  -- While every finished execution has an outcome, no run commits anything.
  pub run_once-ne-committed :
      (db d : Db J) → All Decided db.workflow_executions → run_once env db ≢ committed d
  unfolding run_once run_workflow
  run_once-ne-committed db d decided h = elim (Option-cases (find (is_idle env db) db.workflows)) [
    | inl e ↦ absurd (ground arith)
    | inr (w, e) ↦
        let outcomes =
          executions_of-Outcome w db (find-test (is_idle env db) db.workflows w e) decided in
        elim (Option-cases (last? (executions_of w.id db))) [
          | inl f ↦
              drop_or_fail-ne-committed (create_workflow_execution env w (pos 0) false db) d
                (rw (f, run_workflow) at (rw (e, run_once) at h))
          | inr (latest, f) ↦
              resume-ne-committed w latest _ _ _ db d (All-last? Outcome _ latest outcomes f)
                (rw (f, run_workflow) at (rw (e, run_once) at h))
        ]
  ]

  -- No execution of the workflow stands in the table.
  abbrev pub Unstarted : Workflow J → Db J → Type 0
  Unstarted w db = All (λ e. belongs w.id e ≡ false) db.workflow_executions

  run_workflow-Unstarted :
      (w : Workflow J) (db : Db J)
      → Unstarted w db
      → run_workflow env w db ≡ drop_or_fail (create_workflow_execution env w (pos 0) false db)
  unfolding run_workflow executions_of sort_by last?
  run_workflow-Unstarted w db u =
      let empty = filter-false (belongs w.id) db.workflow_executions u in rw (empty, run_workflow)

  create-Unstarted :
      (w : Workflow J) (db : Db J)
      → Unstarted w db
      → get_row workflow_execution_key (env.generate "workflow_execution" 0) db.workflow_executions
        ≡ none
      → (d : Db J) × (create_workflow_execution env w (pos 0) false db ≡ some d)
  unfolding create_workflow_execution insert_execution
  create-Unstarted w db u fresh =
      let same_index =
        any-false_iff (λ f. str_eq f.workflow_id w.id && eqb_ℤ f.execution_index (pos 0))
          db.workflow_executions
          (All-map _ _ db.workflow_executions (λ e h. ground (arith, h)) u) in
      let active =
        any-false_iff (λ f. str_eq f.workflow_id w.id && not (is_finished f)) db.workflow_executions
          (All-map _ _ db.workflow_executions (λ e h. ground (arith, h)) u) in
      (
        record db {
          workflow_executions = db.workflow_executions ++ new_execution env w (pos 0) false ∷ [];
        },
        ground (arith, fresh, same_index, active),
      )

  -- When the worker picks a workflow with no execution, and the id that it generates is new, then
  -- after any number of rounds it is still running on the same tables: it inserts the row, drops
  -- the transaction, and picks the workflow again, without a pause.
  pub scheduling_loop-Unstarted :
      (w : Workflow J) (db : Db J)
      → find (is_idle env db) db.workflows ≡ some w
      → Unstarted w db
      → get_row workflow_execution_key (env.generate "workflow_execution" 0) db.workflow_executions
        ≡ none
      → (n : ℕ) → scheduling_loop (run_once env) n db ≡ running db
  unfolding run_once
  scheduling_loop-Unstarted w db e u fresh n =
      let (d, created) = create-Unstarted w db u fresh in
      scheduling_loop-dropped (run_once env) db d
        (rw (e, run_once) (rw (run_workflow-Unstarted w db u, created))) n

  result_json-responded :
      (body : String) (json : J)
      → env.serde.from_str body ≡ some json
      → (to_data (from_body env.serde (responded body))).result_json ≡ some json
  unfolding from_body to_data
  result_json-responded body json parsed = ground arith

  -- The tables in which a workflow has ended with a result, dropped with their transaction.
  abbrev pub DroppedSuccess : Workflow J → J → Db J → Run (Db J) → Type 0
  DroppedSuccess w result db run =
      (d : Db J) × (w' : Workflow J) × (run ≡ dropped d)
      × (get_row workflow_key w.id d.workflows ≡ some w')
      × (w'.status ≡ "completed")
      × (w'.result ≡ some result)
      × (w'.error ≡ none)
      × (d.workflow_executions ≡ db.workflow_executions)

  finalize-DroppedSuccess :
      (w : Workflow J) (result : J) (c : WorkflowContext J) (db : Db J)
      → get_row workflow_key w.id db.workflows ≡ some w
      → w.error ≡ none
      → DroppedSuccess w result db (drop_or_fail (finalize_workflow_success env w result c db))
  unfolding finalize_workflow_success
  finalize-DroppedSuccess w result c db found no_error =
      let finish : Workflow J → Workflow J = λ x. record x {
        status = "completed";
        result = some result;
        context = some (env.to_value c);
      } in
      (
        record db { workflows = update_where (λ x. str_eq x.id w.id) finish db.workflows },
        finish w,
        rw (no_error, finalize_workflow_success) refl,
        get_row-update_key_self workflow_key w.id finish db.workflows w (λ x. refl) found,
        refl,
        refl,
        no_error,
        refl,
      )

  -- An execution whose response parses as JSON makes its workflow a success with that JSON as the
  -- result, also where the JSON names an error or is no returned data, if the workflow has no error
  -- so far; and the transaction that writes this is dropped.
  pub response_counts_as_success :
      (w : Workflow J) (e : DbExecution J) (t : Timestamp) (body : String) (json : J) (retries : ℤ)
      (names : List String) (c : WorkflowContext J) (db : Db J)
      → env.serde.from_str body ≡ some json
      → get_row workflow_key w.id db.workflows ≡ some w
      → w.error ≡ none
      → DroppedSuccess w json db (
          resume_workflow env w
            (write (to_data (from_body env.serde (responded body))) t e)
            retries
            names
            c
            db)
  unfolding resume_workflow
  response_counts_as_success w e t body json retries names c db parsed found no_error =
      rw (result_json-responded body json parsed, resume_workflow)
        (finalize-DroppedSuccess w json c db found no_error)
