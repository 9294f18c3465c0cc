-- ===== src/Broker/Life.antt =====
-- `get_jobs`, `record_execution` and the cleanup loop of src/broker/job.rs, in any order, take each
-- scheduled job through its states.
use rocktick.Prelude.{
  List, [], ◌∷◌, &&_left, str_eq→≡, ◌≡◌, refl, sym, subst, String, Bool, true, none, some, All,
  All-map, All-zip, arith, find, inl, inr, Option-cases, find-test, &&_right, str_eq,
}
use rocktick.Prelude.Int.{wrap_i32}
use rocktick.Prelude.Tables.{get_row, get_row-find}
use rocktick.Prelude.Selections.{Row, All-Row}
use rocktick.Db.Jobs.{Timestamp, epoch}
use rocktick.Db.Tables.{Db, scheduled_key}
use rocktick.Drone.Store.Rows
use rocktick.Scheduler.Env.{Env}
use rocktick.Broker.Record.{record_execution, is_reported, holds_lock}
use rocktick.Broker.Once.{record_for-Records}
use rocktick.Broker.HandOut.{is_taken, lock_job, lock_jobs}
use rocktick.Broker.Unlock.{is_expired, unlock_job, unlock}
use rocktick.Broker.States.{
  Action, hand_out, clean_up, report, Life, absent, done, life, LifeStep, not_taken, not_expired,
  is_other, is_locked, is_unlocked, is_executed, LifeSteps, is_settled, Settled, Refines,
  update-Refines, Good-lock, Good-unlock, Good-finish,
}

-- One transaction of the broker on the tables.
pub data BrokerStep {J : Type 0} (db : Db J) (db' : Db J) : Type 0 where
  hands_out : (env : Env J) (region : String) → db' ≡ lock_jobs env region db → BrokerStep db db'
  unlocks : (now : Timestamp) → db' ≡ unlock now db → BrokerStep db db'
  records :
      (env : Env J) (in_range : Timestamp → Bool) (e : Rows.JobExecution)
      → record_execution env in_range e db ≡ some db'
      → BrokerStep db db'

pub data BrokerSteps {J : Type 0} (db : Db J) : Db J → Type 0 where
  start : BrokerSteps db db
  then_step : {db1 db2 : Db J} → BrokerSteps db db1 → BrokerStep db1 db2 → BrokerSteps db db2

module _ {J : Type 0} where
  -- What a transaction is for the jobs.
  abbrev pub action : {db db' : Db J} → BrokerStep db db' → Action
  action (hands_out env region e) = hand_out (epoch env.now)
  action (unlocks now e) = clean_up
  action (records env in_range e h) =
      report e.job_id (wrap_i32 e.lock_nonce) (env.generate "execution" 0)

  abbrev pub actions : {db db' : Db J} → BrokerSteps db db' → List Action
  actions start = []
  actions (then_step r t) = action t ∷ actions r

module _ {J : Type 0} (db db' : Db J) (s : Settled db.scheduled_jobs) where
  -- Every settled row, with the fact that its id finds it.
  rows : All (λ x. (is_settled x ≡ true) × Row scheduled_key db.scheduled_jobs x) db.scheduled_jobs
  rows = All-zip _ _ db.scheduled_jobs s.1 (All-Row scheduled_key db.scheduled_jobs s.0)

  records-Refines :
      (env : Env J) (in_range : Timestamp → Bool) (e : Rows.JobExecution)
      → record_execution env in_range e db ≡ some db'
      → Refines
          (report e.job_id (wrap_i32 e.lock_nonce) (env.generate "execution" 0))
          db.scheduled_jobs
          db'.scheduled_jobs
  unfolding record_execution
  records-Refines env in_range e h =
      elim (Option-cases (find (is_reported e) db.scheduled_jobs))
        as (λ _.
          Refines (report e.job_id (wrap_i32 e.lock_nonce) (env.generate "execution" 0))
            db.scheduled_jobs db'.scheduled_jobs) [
              | inl f ↦ absurd (ground arith)
              | inr (job, f) ↦
                  let test = find-test (is_reported e) db.scheduled_jobs job f in
                  let named = str_eq→≡ job.id e.job_id (
                    &&_left (str_eq job.id e.job_id) (holds_lock (wrap_i32 e.lock_nonce) job)
                      test) in
                  let locked =
                    &&_right (str_eq job.id e.job_id) (holds_lock (wrap_i32 e.lock_nonce) job)
                      test in
                  let found =
                    get_row-find scheduled_key (is_reported e) db.scheduled_jobs job s.0 f in
                  let written = record_for-Records env in_range job e db db' (ground arith) in
                  let act = report e.job_id (wrap_i32 e.lock_nonce) (env.generate "execution" 0) in
                  let known : get_row scheduled_key e.job_id db.scheduled_jobs ≡ some job =
                    rw (sym named) found in
                  subst (Refines act db.scheduled_jobs) (sym written.0) (
                    update-Refines act (λ j. str_eq j.id job.id)
                      (λ j. record j {
                        execution_id = some (env.generate "execution" 0);
                        lock_nonce = none;
                      })
                      db.scheduled_jobs (λ x. refl) s.0
                      (λ id n.
                        is_other e.job_id (wrap_i32 e.lock_nonce) (env.generate "execution" 0) id
                          absent (λ q. ground (arith, rw (q) at n, known)))
                      (All-map _ _ db.scheduled_jobs
                        (λ x (t, r).
                          Good-finish db x t job (wrap_i32 e.lock_nonce) e.job_id
                            (env.generate "execution" 0) r found named locked)
                        rows))
            ]

  step-Refines : (t : BrokerStep db db') → Refines (action t) db.scheduled_jobs db'.scheduled_jobs
  unfolding lock_jobs unlock
  step-Refines (hands_out env region e) = rw e (
      update-Refines (hand_out (epoch env.now)) (is_taken env region db) (lock_job env region)
        db.scheduled_jobs (λ x. refl) s.0 (λ id n. not_taken _ id absent)
        (All-map _ _ db.scheduled_jobs (λ x (t, r). Good-lock db x t env region s.0 r) rows))
  step-Refines (unlocks now e) = rw e (
      update-Refines clean_up (is_expired now db) unlock_job db.scheduled_jobs (λ x. refl) s.0
        (λ id n. not_expired id absent)
        (All-map _ _ db.scheduled_jobs (λ x (t, r). Good-unlock db x t now) rows))
  step-Refines (records env in_range e h) = records-Refines env in_range e h

module _ {J : Type 0} {db : Db J} (s : Settled db.scheduled_jobs) where
  steps-Settled : {db' : Db J} → BrokerSteps db db' → Settled db'.scheduled_jobs
  steps-Settled start = s
  steps-Settled (then_step {db1 = db1} {db2 = db2} r t) =
      (step-Refines db1 db2 (steps-Settled r) t).0

  steps-Life :
      {db' : Db J} (id : String) (r : BrokerSteps db db')
      → LifeSteps id (life id db.scheduled_jobs) (actions r) (life id db'.scheduled_jobs)
  steps-Life id start = LifeSteps.start
  steps-Life id (then_step {db1 = db1} {db2 = db2} r t) =
      LifeSteps.then_step (steps-Life id r) ((step-Refines db1 db2 (steps-Settled r) t).1 id)

  -- Any sequence of hand-outs, reports and clean-ups, from tables with unique job ids in which no
  -- executed job holds a lock, leaves such tables, and each of its transactions does to each job
  -- what is promised of it: a hand-out may lock a free job, under the nonce of its time; a clean-up
  -- may free a held job; a report ends the job that it names, which was held under the nonce that
  -- it names, and leaves every other job as it is.
  pub BrokerSteps-LifeSteps :
      {db' : Db J} (r : BrokerSteps db db')
      → Settled db'.scheduled_jobs
        × ((id : String)
            → LifeSteps id (life id db.scheduled_jobs) (actions r) (life id db'.scheduled_jobs))
  BrokerSteps-LifeSteps r = (steps-Settled r, λ id. steps-Life id r)

-- Nothing follows an execution.
step_after_done :
    {x : Action} {id : String} {a b : Life} (e : String)
    → LifeStep x id a b
    → a ≡ done e
    → b ≡ done e
step_after_done e (not_taken n id l) h = h
step_after_done e (not_expired id l) h = h
step_after_done e (is_other job n x id l ne) h = h
step_after_done e (is_locked n id) h = cc
step_after_done e (is_unlocked id n) h = cc
step_after_done e (is_executed job n d) h = cc

done_stays :
    {id : String} {a b : Life} {xs : List Action} (e : String)
    → LifeSteps id a xs b
    → a ≡ done e
    → b ≡ done e
done_stays e LifeSteps.start h = h
done_stays e (LifeSteps.then_step r t) h = step_after_done e t (done_stays e r h)

-- A job that has been executed keeps its execution through any sequence of hand-outs, reports and
-- clean-ups, where the ids of the jobs are unique and no executed job holds a lock at the start.
pub executed_stays :
    {J : Type 0} {db db' : Db J} (id e : String)
    → Settled db.scheduled_jobs
    → BrokerSteps db db'
    → life id db.scheduled_jobs ≡ done e
    → life id db'.scheduled_jobs ≡ done e
executed_stays id e s r h = done_stays e ((BrokerSteps-LifeSteps s r).1 id) h
