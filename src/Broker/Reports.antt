-- ===== src/Broker/Reports.antt =====
-- The stream of `record_execution` in src/broker/job.rs: the reports of a drone, each in a transaction
-- of its own, in the order in which these end, and the ids that are acknowledged.
use rocktick.Prelude.{
  ◌≡◌, ◌≢◌, refl, sym, ap, ◌∙◌, String, Bool, true, false, ◌||◌, Option, none, some, List, [], ◌∷◌,
  All, All-find, arith, find, find-test, inl, inr, Option-cases, str_eq, str_eq→≡, eq_iff, is_none,
  &&_left, &&_right,
}
use rocktick.Prelude.Int.{ℤ, wrap_i32, eqb_ℤ}
use rocktick.Prelude.Tables.{get_row, update_where, get_row-find}
use rocktick.Db.Jobs.{Timestamp, ScheduledJob}
use rocktick.Db.Tables.{Db, scheduled_key}
use rocktick.Drone.Store.Rows
use rocktick.Scheduler.Env.{Env}
use rocktick.Broker.Record.{record_execution, is_reported, holds_lock}
use rocktick.Broker.Once.{record_for-Records}
use rocktick.Broker.Life.BrokerSteps.{start, then_step}
use rocktick.Broker.Life.{BrokerStep, BrokerSteps, records, executed_stays, BrokerSteps-LifeSteps}
use rocktick.Broker.States.{done, view_by, view, life, is_settled, Settled}

module _ {J : Type 0} (in_range : Timestamp → Bool) where
  -- A report that fails is logged, and is not acknowledged.
  unfoldable pub record_reports : List (Env J × Rows.JobExecution) → Db J → Db J × List String
  record_reports [] db = (db, [])
  record_reports ((env, e) ∷ reports) db = elim (record_execution env in_range e db) [
    | none ↦ record_reports reports db
    | some db1 ↦ let rest = record_reports reports db1 in (rest.0, e.job_id ∷ rest.1)
  ]

pub finished_life :
    (id job_id x : String) (t : List ScheduledJob) (j : ScheduledJob)
    → job_id ≡ id
    → get_row scheduled_key id t ≡ some j
    → life id (
        update_where
          (λ r. str_eq r.id job_id)
          (λ r. record r { execution_id = some x; lock_nonce = none })
          t)
      ≡ done x
unfolding get_row update_where
finished_life id job_id x [] j same h = cc
finished_life id job_id x (r ∷ t) j same h =
    ground (arith, eq_iff r.id id, eq_iff r.id job_id, finished_life id job_id x t j same)

-- A settled row that is seen as done holds no lock that a report could name.
done_unlocked :
    (j : ScheduledJob) (x : String) (n : ℤ)
    → is_settled j ≡ true
    → view j ≡ done x
    → holds_lock n j ≡ false
done_unlocked j x n s v = by_lock j.execution_id j.lock_nonce s v
  where
    by_lock :
        (o : Option String) (l : Option ℤ)
        → (is_none l || is_none o) ≡ true
        → view_by o l ≡ done x
        → (elim l [ none ↦ false | some m ↦ eqb_ℤ m n ]) ≡ false
    by_lock o none s v = refl
    by_lock none (some m) s v = cc
    by_lock (some e) (some m) s v = cc

module _ {J : Type 0} (env : Env J) (in_range : Timestamp → Bool) (e : Rows.JobExecution)
    (db : Db J) (s : Settled db.scheduled_jobs) where
  reported-held :
      (job : ScheduledJob)
      → find (is_reported e) db.scheduled_jobs ≡ some job
      → (get_row scheduled_key e.job_id db.scheduled_jobs ≡ some job)
        × (job.id ≡ e.job_id)
        × (holds_lock (wrap_i32 e.lock_nonce) job ≡ true)
  reported-held job f =
      let test = find-test (is_reported e) db.scheduled_jobs job f in
      let same =
        str_eq→≡ job.id e.job_id
          (&&_left (str_eq job.id e.job_id) (holds_lock (wrap_i32 e.lock_nonce) job) test) in
      (
        ap (λ k. get_row scheduled_key k db.scheduled_jobs) (sym same)
            ∙ get_row-find scheduled_key (is_reported e) db.scheduled_jobs job s.0 f,
        same,
        &&_right (str_eq job.id e.job_id) (holds_lock (wrap_i32 e.lock_nonce) job) test,
      )

  recorded-done :
      (db' : Db J)
      → record_execution env in_range e db ≡ some db'
      → life e.job_id db'.scheduled_jobs ≡ done (env.generate "execution" 0)
  unfolding record_execution
  recorded-done db' h = elim (Option-cases (find (is_reported e) db.scheduled_jobs)) [
    | inl f ↦ absurd (ground arith)
    | inr (job, f) ↦
        let (found, same, _) = reported-held job f in
        let written = record_for-Records env in_range job e db db' (ground arith) in
        ap (life e.job_id) written.0
        ∙ finished_life e.job_id job.id (env.generate "execution" 0) db.scheduled_jobs job same
            found
  ]

  done_refused :
      (x : String)
      → life e.job_id db.scheduled_jobs ≡ done x
      → record_execution env in_range e db ≡ none
  unfolding record_execution
  done_refused x d = elim (Option-cases (find (is_reported e) db.scheduled_jobs)) [
    | inl f ↦ rw (f, record_execution) refl
    | inr (job, f) ↦
        let (found, _, locked) = reported-held job f in
        let settled =
          All-find (λ j. is_settled j ≡ true) (is_reported e) db.scheduled_jobs job s.1 f in
        let free = done_unlocked job x (wrap_i32 e.lock_nonce) settled (rw found at d) in
        absurd (ground arith)
  ]

-- No id occurs twice.
abbrev pub Distinct : List String → Type 0
Distinct [] = Unit {0}
Distinct (id ∷ ids) = All (λ other. other ≢ id) ids × Distinct ids

module _ {J : Type 0} where
  first_step : {db db1 db2 : Db J} → BrokerStep db db1 → BrokerSteps db1 db2 → BrokerSteps db db2
  first_step t start = then_step start t
  first_step t (then_step r u) = then_step (first_step t r) u

  abbrev pub Done : Db J → String → Type 0
  Done db id = (x : String) × (life id db.scheduled_jobs ≡ done x)

  -- Transactions of the broker, after which every acknowledged job is done, each acknowledged once.
  abbrev pub Acknowledged : Db J → Db J × List String → Type 0
  Acknowledged db (db', ids) = BrokerSteps db db' × All (Done db') ids × Distinct ids

  module _ (in_range : Timestamp → Bool) where
    -- A job that is done is not acknowledged again.
    done_silent :
        (reports : List (Env J × Rows.JobExecution)) (db : Db J) (id x : String)
        → Settled db.scheduled_jobs
        → life id db.scheduled_jobs ≡ done x
        → All (λ other. other ≢ id) (record_reports in_range reports db).1
    unfolding record_reports
    done_silent [] db id x s d = tt
    done_silent ((env, e) ∷ reports) db id x s d =
        elim (Option-cases (record_execution env in_range e db)) [
          | inl f ↦ rw (f, record_reports) (done_silent reports db id x s d)
          | inr (db1, f) ↦
              let r : BrokerSteps db db1 = then_step start (records env in_range e f) in
              let d1 = executed_stays id x s r d in
              let other : e.job_id ≢ id =
                λ same. ground (arith, f, done_refused env in_range e db s x (rw same d)) in
              rw (f, record_reports)
                (other, done_silent reports db1 id x (BrokerSteps-LifeSteps s r).0 d1)
        ]

    -- Where the ids of the jobs are unique and no executed job holds a lock, reports in any order
    -- are transactions of the broker; each job that is acknowledged has its execution at the end,
    -- and none is acknowledged twice.
    pub record_reports-Acknowledged :
        (reports : List (Env J × Rows.JobExecution)) (db : Db J)
        → Settled db.scheduled_jobs
        → Acknowledged db (record_reports in_range reports db)
    unfolding record_reports
    record_reports-Acknowledged [] db s = (start, tt, tt)
    record_reports-Acknowledged ((env, e) ∷ reports) db s =
        elim (Option-cases (record_execution env in_range e db)) [
          | inl f ↦ rw (f, record_reports) (record_reports-Acknowledged reports db s)
          | inr (db1, f) ↦
              let t : BrokerStep db db1 = records env in_range e f in
              let s1 = (BrokerSteps-LifeSteps s (then_step start t)).0 in
              let d1 = recorded-done env in_range e db s db1 f in
              let (steps, all, once) = record_reports-Acknowledged reports db1 s1 in
              rw (f, record_reports)
                (
                  first_step t steps,
                  ((_, executed_stays e.job_id _ s1 steps d1), all),
                  (done_silent reports db1 e.job_id _ s1 d1, once),
                )
        ]
