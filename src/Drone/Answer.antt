-- ===== src/Drone/Answer.antt =====
-- From the broker to a drone and back: a job that `get_jobs` of src/broker/job.rs sends, `run_job` of
-- src/drone/jobs.rs executes, and `record_execution` of src/broker/job.rs takes the report.
use rocktick.Prelude.{
  ℕ, ◌≡◌, refl, ap, ◌∙◌, String, Bool, true, Option, none, some, List, [], ◌∷◌, arith, find, ◌⊎◌,
  inl, inr, Option-cases, Bool-cases, All,
}
use rocktick.Prelude.Int.{ℤ, wrap_i32, eqb_ℤ_refl}
use rocktick.Prelude.Tables.{get_row, update_where, UniqueKeys}
use rocktick.Prelude.Updates.{get_row-update_where}
use rocktick.Db.Jobs.{Timestamp, ScheduledJob}
use rocktick.Db.Tables.{Db, scheduled_key}
use rocktick.Drone.Store.Rows
use rocktick.Drone.Execute.{Attempt, replied, failed, execution}
use rocktick.Secrets.KeyRing.{Bytes}
use rocktick.Scheduler.Env.{Env}
use rocktick.Broker.HandOut.{lock_jobs, is_taken, lock_job}
use rocktick.Broker.Record.{is_reported, holds_lock, record_execution}
use rocktick.Broker.Once.{FreshIds, is_storable, record_execution-once, record_execution-ne-none}
use rocktick.Broker.States.{held, done, view_by, life}
use rocktick.Broker.Reports.{finished_life}
use rocktick.Broker.Spec.{Keys, JobSpec, get_jobs}
use rocktick.Broker.Sent.{get_jobs-Sent}

execution_names :
    (lossy : Bytes → String) (spec : JobSpec) (outcome : Attempt) (at : ℤ)
    → let e = execution lossy spec outcome at in
      (e.job_id ≡ spec.job_id) × (e.lock_nonce ≡ spec.lock_nonce)
unfolding execution
execution_names lossy spec (replied res) at = (refl, refl)
execution_names lossy spec (failed error) at = (refl, refl)

view_by-held : (o : Option String) (l : Option ℤ) (n : ℤ) → view_by o l ≡ held n → l ≡ some n
view_by-held none none n h = cc
view_by-held none (some m) n h = cc
view_by-held (some e) l n h = cc

-- The row that an id names is the one that a report of its lock finds.
find-named :
    (e : Rows.JobExecution) (t : List ScheduledJob) (j : ScheduledJob)
    → get_row scheduled_key e.job_id t ≡ some j
    → holds_lock (wrap_i32 e.lock_nonce) j ≡ true
    → find (is_reported e) t ≡ some j
unfolding find get_row
find-named e [] j h l = cc
find-named e (x ∷ t) j h l = ground (arith, find-named e t j)

-- One of the jobs that are sent.
abbrev pub Among : JobSpec → List JobSpec → Type 0
Among spec [] = ⊥
Among spec (x ∷ xs) = (spec ≡ x) ⊎ Among spec xs

All-Among :
    (P : JobSpec → Type 0) (xs : List JobSpec) (spec : JobSpec) → Among spec xs → All P xs → P spec
All-Among P [] spec m a = elim m [ ]
All-Among P (x ∷ xs) spec (inl e) a = rw e a.0
All-Among P (x ∷ xs) spec (inr m) a = All-Among P xs spec m a.1

-- An update changes a row's workflow only where its function does.
locked-workflow :
    (p : ScheduledJob → Bool) (f : ScheduledJob → ScheduledJob) (id : String)
    (t : List ScheduledJob) (j : ScheduledJob)
    → ((x : ScheduledJob) → (f x).id ≡ x.id)
    → ((x : ScheduledJob) → (f x).workflow_execution_id ≡ x.workflow_execution_id)
    → get_row scheduled_key id t ≡ some j
    → (k : ScheduledJob) × (get_row scheduled_key id (update_where p f t) ≡ some k)
      × (k.workflow_execution_id ≡ j.workflow_execution_id)
locked-workflow p f id t j same keeps h =
    let e = get_row-update_where scheduled_key p f id t same in
    elim (Bool-cases (p j)) [
      | inl q ↦ (f j, e ∙ rw (h, q) refl, keeps j)
      | inr q ↦ (j, e ∙ rw (h, q) refl, refl)
    ]

module _ {J : Type 0} (env : Env J) (in_range : Timestamp → Bool) where
  -- The report is recorded, the job has its execution, and the same report is then refused.
  abbrev pub Executed : Rows.JobExecution → Db J → Type 0
  Executed e db =
      (db' : Db J) × (record_execution env in_range e db ≡ some db')
      × (life e.job_id db'.scheduled_jobs ≡ done (env.generate "execution" 0))
      × (record_execution env in_range e db' ≡ none)

  held-Executed :
      (e : Rows.JobExecution) (db : Db J) (j : ScheduledJob)
      → get_row scheduled_key e.job_id db.scheduled_jobs ≡ some j
      → j.lock_nonce ≡ some (wrap_i32 e.lock_nonce)
      → j.workflow_execution_id ≡ none
      → FreshIds env in_range e db
      → is_storable env in_range e ≡ true
      → Executed e db
  held-Executed e db j named locked no_workflow fresh texts =
      let found =
        find-named e db.scheduled_jobs j named (rw locked (eqb_ℤ_refl (wrap_i32 e.lock_nonce))) in
      elim (Option-cases (record_execution env in_range e db)) [
        | inl h ↦
            absurd (record_execution-ne-none env in_range e db j found no_workflow fresh texts h)
        | inr (db', h) ↦
            let (job, mine, _, records, refused) = record_execution-once env in_range e db db' h in
            (
              db',
              h,
              ap (life e.job_id) records.0
                  ∙ finished_life e.job_id job.id (env.generate "execution" 0) db.scheduled_jobs j
                      mine named,
              refused,
            )
      ]

module _ {J : Type 0} (keys : Keys) (env env' : Env J) (in_range : Timestamp → Bool)
    (lossy : Bytes → String) (region : String) (db : Db J) where
  -- A job that `get_jobs` sends, of no workflow, is executed once its report is the next that the
  -- broker records, be it of a response or of an error, and the report is then refused. The ids of
  -- the jobs are unique, those that the report generates are new, the nonce has 32 bits, and no
  -- text of the report has the character U+0000, which Postgres refuses.
  pub get_jobs-Executed :
      (received : ℕ) (spec : JobSpec) (job : ScheduledJob) (outcome : Attempt) (at : ℤ)
      → UniqueKeys scheduled_key db.scheduled_jobs
      → Among spec (get_jobs keys env region received db).1
      → get_row scheduled_key spec.job_id db.scheduled_jobs ≡ some job
      → job.workflow_execution_id ≡ none
      → wrap_i32 spec.lock_nonce ≡ spec.lock_nonce
      → FreshIds env' in_range (execution lossy spec outcome at) (lock_jobs env region db)
      → is_storable env' in_range (execution lossy spec outcome at) ≡ true
      → Executed env' in_range (execution lossy spec outcome at) (lock_jobs env region db)
  unfolding lock_jobs
  get_jobs-Executed received spec job outcome at u sent named no_workflow bits fresh texts =
      let (_, is_held, _) = All-Among _ _ spec sent (get_jobs-Sent keys env region db received u) in
      let (same_id, same_nonce) = execution_names lossy spec outcome at in
      let (k, found, of_job) =
        locked-workflow (is_taken env region db) (lock_job env region) spec.job_id db.scheduled_jobs
          job (λ x. refl) (λ x. refl) named in
      let locked : k.lock_nonce ≡ some spec.lock_nonce =
        view_by-held k.execution_id k.lock_nonce spec.lock_nonce (rw found at is_held) in
      held-Executed env' in_range (execution lossy spec outcome at) (lock_jobs env region db) k
        (rw same_id found) (rw same_nonce (rw bits locked)) (of_job ∙ no_workflow) fresh texts
