-- ===== src/Scheduler/Retention/Scheduled.antt =====
-- src/scheduler/retention/scheduled.rs: executed jobs are wiped once their tenant's days are over.
use rocktick.Prelude.{
  ℕ, ◌<◌, ◌≡◌, ◌≢◌, refl, String, Bool, true, false, not, ◌&&◌, none, some, List, arith, find, inl,
  inr, Option-cases, find-test, find-none, All, All-map, str_eq, &&_left, is_none,
}
use rocktick.Prelude.Int.{◌-ℤ◌, scale_ℤ, ltb_ℤ}
use rocktick.Prelude.Tables.{get_row, update_where, count, UniqueKeys, get_row-find}
use rocktick.Prelude.Updates.{count-update_where, UniqueKeys-update_where}
use rocktick.Db.Jobs.{Timestamp, Tenant, JobExecution, ScheduledJob}
use rocktick.Db.Tables.{Db, scheduled_key, job_execution_key}
use rocktick.Scheduler.Run.{
  Run, committed, dropped, reached_end, failed, scheduling_loop, Drains, Rests,
  scheduling_loop-Rests, Worker, idle, broken, running,
}
use rocktick.Scheduler.Tokens.{tenant_key}
use rocktick.Scheduler.Retention.Wipe.{
  delete_scheduled_job, executed, delete_job, delete_http_req, delete_http_resp,
}

-- exec.executed_at < now() - (tenant.retain_for_days * interval '1 day').
abbrev pub is_old : Timestamp → Tenant → JobExecution → Bool
is_old now t e = ltb_ℤ e.executed_at (now -ℤ scale_ℤ 86_400_000_000 t.retain_for_days)

-- The JOINs on the execution and the tenant, and the WHERE clause.
abbrev pub is_past : Timestamp → List JobExecution → List Tenant → ScheduledJob → Bool
is_past now executions tenants job = elim job.execution_id [
  | none ↦ false
  | some execution_id ↦ elim job.tenant_id [
    | none ↦ false
    | some tenant_id ↦ elim (get_row job_execution_key execution_id executions) [
      | none ↦ false
      | some e ↦ elim (get_row tenant_key tenant_id tenants) [
        | none ↦ false
        | some t ↦ is_none job.deleted_at && is_old now t e
      ]
    ]
  ]
]

-- A deleted job is not chosen again.
is_past-delete_job :
    (now : Timestamp) (executions : List JobExecution) (tenants : List Tenant) (job : ScheduledJob)
    → is_past now executions tenants (delete_job now job) ≡ false
is_past-delete_job now executions tenants job = ground arith

module _ {J : Type 0} where
  abbrev pub Keyed : Db J → Type 0
  Keyed db = UniqueKeys scheduled_key db.scheduled_jobs

module _ {J : Type 0} (now : Timestamp) (locked : String → Bool) where
  abbrev past : Db J → ScheduledJob → Bool
  past db = is_past now db.job_executions db.tenants

  abbrev ready : Db J → ScheduledJob → Bool
  ready db job = past db job && not (locked job.id)

  unfoldable pub run_once : Db J → Run (Db J)
  run_once db = elim (find (ready db) db.scheduled_jobs) [
    | none ↦ reached_end
    | some job ↦ elim (delete_scheduled_job now job.id db) [
      | none ↦ failed
      | some db1 ↦ committed db1
    ]
  ]

  -- What a wipe leaves of the tables that the choice reads.
  abbrev Deletes : String → Db J → Db J → Type 0
  Deletes id db db' =
      (db'.scheduled_jobs ≡ update_where (λ j. str_eq j.id id) (delete_job now) db.scheduled_jobs)
      × (db'.job_executions ≡ db.job_executions)
      × (db'.tenants ≡ db.tenants)

  delete_scheduled_job-Deletes :
      (id : String) (db db' : Db J) → delete_scheduled_job now id db ≡ some db' → Deletes id db db'
  unfolding delete_scheduled_job delete_http_req delete_http_resp
  delete_scheduled_job-Deletes id db db' h = elim (Option-cases (executed now id db)) [
    | inl e ↦ absurd (ground arith)
    | inr (x, e) ↦ ground (arith, e)
  ]

  -- A committed run wipes one job that was past its days, and touches no other job.
  abbrev pub Wipes : Db J → Db J → Type 0
  Wipes db db' =
      (job : ScheduledJob) × (get_row scheduled_key job.id db.scheduled_jobs ≡ some job)
      × (past db job ≡ true)
      × Deletes job.id db db'

  executed-past :
      (db : Db J) (job : ScheduledJob)
      → get_row scheduled_key job.id db.scheduled_jobs ≡ some job
      → past db job ≡ true
      → executed now job.id db ≢ none
  executed-past db job here old gone = ground (arith, here, old, gone)

  run_once-Wipes : (db db' : Db J) → Keyed db → run_once db ≡ committed db' → Wipes db db'
  unfolding run_once
  run_once-Wipes db db' u h =
      elim (Option-cases (find (ready db) db.scheduled_jobs)) as (λ _. Wipes db db') [
        | inl e ↦ absurd (ground arith)
        | inr (job, e) ↦
            let here = get_row-find scheduled_key (ready db) db.scheduled_jobs job u e in
            let test = find-test (ready db) db.scheduled_jobs job e in
            (
              job,
              here,
              &&_left (past db job) (not (locked job.id)) test,
              delete_scheduled_job-Deletes job.id db db' (ground arith),
            )
      ]

  run_once-ne-failed : (db : Db J) → Keyed db → run_once db ≢ failed
  unfolding run_once delete_scheduled_job
  run_once-ne-failed db u h = elim (Option-cases (find (ready db) db.scheduled_jobs)) [
    | inl e ↦ ground arith
    | inr (job, e) ↦
        let here = get_row-find scheduled_key (ready db) db.scheduled_jobs job u e in
        let test = find-test (ready db) db.scheduled_jobs job e in
        elim (Option-cases (executed now job.id db)) [
          | inl gone ↦
              executed-past db job here (&&_left (past db job) (not (locked job.id)) test) gone
          | inr (x, f) ↦ ground (arith, e, f)
        ]
  ]

  run_once-ne-dropped : (db e : Db J) → run_once db ≢ dropped e
  unfolding run_once
  run_once-ne-dropped db e = ground arith

  -- The executed jobs past their tenant's days.
  abbrev pub to_wipe : Db J → ℕ
  to_wipe db = count (past db) db.scheduled_jobs

  Wipes-Keyed : (db db' : Db J) → Keyed db → Wipes db db' → Keyed db'
  Wipes-Keyed db db' u (job, here, old, (jobs, executions, tenants)) = rw jobs (
      UniqueKeys-update_where scheduled_key (λ j. str_eq j.id job.id) (delete_job now)
        db.scheduled_jobs (λ j. refl) u)

  Wipes-to_wipe : (db db' : Db J) → Keyed db → Wipes db db' → to_wipe db' < to_wipe db
  Wipes-to_wipe db db' u (job, here, old, (jobs, executions, tenants)) =
      let sums =
        count-update_where scheduled_key (past db) job.id (delete_job now) db.scheduled_jobs job u
          here in
      let deleted = is_past-delete_job now db.job_executions db.tenants job in
      rw (jobs, executions, tenants) (ground (arith, sums, deleted, old))

  Keyed-Drains : Drains run_once Keyed to_wipe
  Keyed-Drains = record {
    keeps = λ db db' u h. Wipes-Keyed db db' u (run_once-Wipes db db' u h);
    falls = λ db db' u h. Wipes-to_wipe db db' u (run_once-Wipes db db' u h);
    commits = λ db e u. run_once-ne-dropped db e;
  }

-- No lock is held by others.
abbrev none_locked : String → Bool
none_locked _ = false

module _ {J : Type 0} (now : Timestamp) where
  abbrev wipe_all : Db J → Run (Db J)
  wipe_all = run_once now none_locked

  -- The worker sleeps, and no executed job is past its tenant's days.
  abbrev pub Wiped : Worker (Db J) → Type 0
  Wiped (idle db) =
      Keyed db × All (λ j. is_past now db.job_executions db.tenants j ≡ false) db.scheduled_jobs
  Wiped (broken db) = ⊥
  Wiped (running db) = ⊥

  none_past :
      (db : Db J)
      → wipe_all db ≡ reached_end
      → All (λ j. is_past now db.job_executions db.tenants j ≡ false) db.scheduled_jobs
  unfolding run_once
  none_past db h = elim (Option-cases (find (ready now none_locked db) db.scheduled_jobs)) [
    | inl e ↦
        All-map _ _ db.scheduled_jobs (λ j f. ground (arith, f)) (find-none _ db.scheduled_jobs e)
    | inr (job, e) ↦ absurd (ground arith)
  ]

  Rests-Wiped : (w : Worker (Db J)) → Rests wipe_all Keyed w → Wiped w
  Rests-Wiped (idle db) (u, e) = (u, none_past db e)
  Rests-Wiped (broken db) (u, e) = absurd (run_once-ne-failed now none_locked db u e)
  Rests-Wiped (running db) r = r

  -- With more rounds than there are executed jobs past their tenant's days, and no lock held by
  -- others, the worker stops on no error and sleeps, and no such job is left; where the ids of the
  -- scheduled jobs are unique, as they stay.
  pub scheduling_loop-Wiped :
      (db : Db J)
      → Keyed db
      → (n : ℕ) → to_wipe now none_locked db < n
      → Wiped (scheduling_loop wipe_all n db)
  scheduling_loop-Wiped db u n h = Rests-Wiped _ (
      scheduling_loop-Rests wipe_all Keyed (to_wipe now none_locked) (Keyed-Drains now none_locked)
        n db u h)
