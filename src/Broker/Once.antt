-- ===== src/Broker/Once.antt =====
-- `record_execution` of src/broker/job.rs takes the lock of the job away, so that the same report
-- counts once.
use rocktick.Prelude.{
  ◌≡◌, ◌≢◌, refl, sym, ap, ◌∙◌, String, Bool, true, false, not, ◌&&◌, Option, none, some, List, [],
  ◌∷◌, ◌++◌, arith, find, inl, inr, Option-cases, any, str_eq, str_eq→≡, eq_iff, find-test, subst,
  &&_left, &&_right,
}
use rocktick.Prelude.Int.{wrap_i32}
use rocktick.Prelude.Tables.{get_row, update_where}
use rocktick.Db.Jobs.{Timestamp, JobExecution, ScheduledJob}
use rocktick.Db.Tables.{
  Db, insert_request, insert_response, insert_job_execution, clashes, request_has_nul,
  response_has_nul, may_have_nul,
}
use rocktick.Drone.Store.Rows
use rocktick.Scheduler.Env.{Env}
use rocktick.Workflow.SideEffect.{handle_workflow_execution_side_effect}
use rocktick.Broker.Record.{
  is_reported, reported_response, reported_request, reported_execution, insert_outcome, side_effect,
  finish, record_for, record_execution, holds_lock, response_id,
}

module _ {J : Type 0} (env : Env J) (in_range : Timestamp → Bool) where
  insert_outcome-keeps :
      (e : Rows.JobExecution) (db db' : Db J)
      → insert_outcome env in_range e db ≡ some db'
      → (db'.scheduled_jobs ≡ db.scheduled_jobs) × (db'.job_executions ≡ db.job_executions)
  unfolding insert_outcome insert_response
  insert_outcome-keeps e db db' h = ground arith

  side_effect-keeps :
      (job : ScheduledJob) (e : Rows.JobExecution) (db db' : Db J)
      → side_effect env in_range job e db ≡ some db'
      → (db'.scheduled_jobs ≡ db.scheduled_jobs) × (db'.job_executions ≡ db.job_executions)
  unfolding side_effect handle_workflow_execution_side_effect
  side_effect-keeps job e db db' h = ground arith

  insert_request-keeps :
      (e : Rows.JobExecution) (db db' : Db J)
      → insert_request (reported_request env in_range e) db ≡ some db'
      → (db'.scheduled_jobs ≡ db.scheduled_jobs) × (db'.job_executions ≡ db.job_executions)
  unfolding insert_request
  insert_request-keeps e db db' h = ground arith

  insert_job_execution-appends :
      (x : JobExecution) (db db' : Db J)
      → insert_job_execution x db ≡ some db'
      → (db'.scheduled_jobs ≡ db.scheduled_jobs)
        × (db'.job_executions ≡ db.job_executions ++ x ∷ [])
  unfolding insert_job_execution
  insert_job_execution-appends x db db' h = ground arith

  -- What a recorded report leaves in the tables of jobs and executions.
  abbrev pub Records : ScheduledJob → Rows.JobExecution → Db J → Db J → Type 0
  Records job e db db' =
      (db'.scheduled_jobs
        ≡ update_where (λ j. str_eq j.id job.id)
            (λ j. record j { execution_id = some (env.generate "execution" 0); lock_nonce = none })
            db.scheduled_jobs)
      × (db'.job_executions ≡ db.job_executions ++ reported_execution env in_range e ∷ [])

  pub record_for-Records :
      (job : ScheduledJob) (e : Rows.JobExecution) (db db' : Db J)
      → record_for env in_range job e db ≡ some db'
      → Records job e db db'
  unfolding record_for
  record_for-Records job e db db' h =
      elim (Option-cases (insert_request (reported_request env in_range e) db)) [
        | inl f ↦ absurd (ground arith)
        | inr (db1, f) ↦ elim (Option-cases (insert_outcome env in_range e db1)) [
          | inl g ↦ absurd (ground arith)
          | inr (db2, g) ↦
              elim (Option-cases (insert_job_execution (reported_execution env in_range e) db2)) [
                | inl k ↦ absurd (ground arith)
                | inr (db3, k) ↦ elim (Option-cases (side_effect env in_range job e db3)) [
                  | inl l ↦ absurd (ground arith)
                  | inr (db4, l) ↦
                      let same : finish env in_range job.id db4 ≡ db' = ground arith in
                      let a = insert_request-keeps e db db1 f in
                      let b = insert_outcome-keeps e db1 db2 g in
                      let c =
                        insert_job_execution-appends (reported_execution env in_range e) db2 db3
                          k in
                      let d = side_effect-keeps job e db3 db4 l in
                      subst (Records job e db) same (
                        ap (update_where _ _) (d.0 ∙ c.0 ∙ b.0 ∙ a.0),
                        d.1
                            ∙ c.1
                            ∙ ap (λ t. t ++ reported_execution env in_range e ∷ []) (b.1 ∙ a.1),
                      )
                ]
              ]
        ]
      ]

  -- Once the lock is taken away no job with that id holds one.
  find-finished :
      (e : Rows.JobExecution) (id x : String) (t : List ScheduledJob)
      → e.job_id ≡ id
      → find (is_reported e) (
          update_where
            (λ j. str_eq j.id id)
            (λ j. record j { execution_id = some x; lock_nonce = none })
            t)
        ≡ none
  unfolding find update_where
  find-finished e id x [] same = refl
  find-finished e id x (j ∷ t) same =
      ground (arith, find-finished e id x t same, eq_iff j.id id, eq_iff j.id e.job_id, same)

  -- A locked job, its report, and the end of it.
  abbrev pub Recorded : Rows.JobExecution → Db J → Db J → Type 0
  Recorded e db db' =
      (job : ScheduledJob) × (job.id ≡ e.job_id)
      × (holds_lock (wrap_i32 e.lock_nonce) job ≡ true)
      × Records job e db db'
      × (record_execution env in_range e db' ≡ none)

  pub record_execution-once :
      (e : Rows.JobExecution) (db db' : Db J)
      → record_execution env in_range e db ≡ some db'
      → Recorded e db db'
  unfolding record_execution
  record_execution-once e db db' h =
      elim (Option-cases (find (is_reported e) db.scheduled_jobs)) as (λ _. Recorded e db db') [
        | inl f ↦ absurd (ground arith)
        | inr (job, f) ↦
            let test = find-test (is_reported e) db.scheduled_jobs job f in
            let mine =
              str_eq→≡ job.id e.job_id
                (&&_left (str_eq job.id e.job_id) (holds_lock (wrap_i32 e.lock_nonce) job) test) in
            let records = record_for-Records job e db db' (ground arith) in
            let none_left =
              ap (find (is_reported e)) records.0
              ∙ find-finished e job.id (env.generate "execution" 0) db.scheduled_jobs (sym mine) in
            (
              job,
              mine,
              &&_right (str_eq job.id e.job_id) (holds_lock (wrap_i32 e.lock_nonce) job) test,
              records,
              rw (none_left, record_execution) refl,
            )
      ]

  -- The generated ids are new to the tables.
  abbrev pub FreshIds : Rows.JobExecution → Db J → Type 0
  FreshIds e db =
      (get_row (λ r. r.id) (env.generate "request" 0) db.http_requests ≡ none)
      × (get_row (λ r. r.id) (env.generate "response" 0) db.http_responses ≡ none)
      × (get_row (λ x. x.id) (env.generate "execution" 0) db.job_executions ≡ none)
      × (any (λ x. str_eq x.request_id (env.generate "request" 0)) db.job_executions ≡ false)
      × (any (λ x. clashes (response_id env in_range e) x.response_id) db.job_executions ≡ false)

  abbrev body_has_nul : Option Rows.Response → Bool
  body_has_nul none = false
  body_has_nul (some res) = response_has_nul (reported_response env in_range res)

  -- No text that the report writes has the character U+0000, which the tables refuse.
  abbrev pub is_storable : Rows.JobExecution → Bool
  is_storable e =
      not (request_has_nul (reported_request env in_range e))
      && not (body_has_nul e.response)
      && not (may_have_nul e.response_error)

  -- The first report of the lock's holder on a job of no workflow is recorded, where the generated
  -- ids are new and the texts are storable.
  pub record_execution-ne-none :
      (e : Rows.JobExecution) (db : Db J) (job : ScheduledJob)
      → find (is_reported e) db.scheduled_jobs ≡ some job
      → job.workflow_execution_id ≡ none
      → FreshIds e db
      → is_storable e ≡ true
      → record_execution env in_range e db ≢ none
  unfolding record_execution record_for insert_request insert_outcome insert_response
      insert_job_execution side_effect
  record_execution-ne-none e db job found no_workflow
        (new_request, new_response, new_execution, r, s) texts =
      elim (Option-cases e.response) [
        | inl f ↦
            ground
              (arith, found, no_workflow, new_request, new_response, new_execution, r, s, texts)
        | inr (res, f) ↦
            ground
              (arith, found, no_workflow, new_request, new_response, new_execution, r, s, texts)
      ]
