-- ===== src/Scheduler/Jobs/Retry.antt =====
-- src/scheduler/jobs/retries.rs: a scheduled job whose execution failed gets a retry.
use Prim.Native.Nat.{bit_xor}
use rocktick.Prelude.{
  ℕ, zero, suc, ◌*◌, ◌<◌, ◌≡◌, ◌≢◌, refl, String, Bool, true, false, not, ◌&&◌, Option, none, some,
  List, [], ◌∷◌, ◌++◌, arith, find, any, any-append, All, All-append, inl, inr, Option-cases,
  find-test, find-any, if◌then◌else◌, str_eq_refl, is_text, is_none, length,
}
use rocktick.Prelude.Int.{pos, ◌+ℤ◌, ◌-ℤ◌, ◌≤ℤ◌, ltb_ℤ}
use rocktick.Prelude.Tables.{count, get_row}
use rocktick.Prelude.Counts.{count-fewer, count-append}
use rocktick.Db.Jobs.{JobExecution, ScheduledJob, Timestamp}
use rocktick.Db.Tables.{Db, insert_scheduled_job, job_execution_key}
use rocktick.Scheduler.Env.{Env, hash_i32}
use rocktick.Scheduler.Run.{
  Run, committed, dropped, reached_end, failed, scheduling_loop, Drains, Rests,
  scheduling_loop-Rests,
}

abbrev pub is_retry_of : String → ScheduledJob → Bool
is_retry_of id s = is_text s.retry_for_id id

-- The rows of `retry_chain` go from a job to its retries. `retry_for_id` is UNIQUE, so the chain does
-- not branch and its largest depth is its length; the fuel is the number of rows.
unfoldable pub attempts : ℕ → String → List ScheduledJob → ℕ
attempts zero id scheduled = 0
attempts (suc n) id scheduled = elim (find (is_retry_of id) scheduled) [
  | none ↦ 0
  | some s ↦ suc (attempts n s.id scheduled)
]

-- In milliseconds; `^` is an exclusive or.
unfoldable pub wait_time : ℕ → ℕ
wait_time attempts_made = 60 * 1000 * bit_xor 2 attempts_made

abbrev pub has_failed : JobExecution → Bool
has_failed e = elim e.success [ none ↦ false | some success ↦ not success ]

-- The execution that the INNER JOIN finds, if it failed.
abbrev pub failed_execution : List JobExecution → ScheduledJob → Option JobExecution
failed_execution executions job = elim job.execution_id [
  | none ↦ none
  | some id ↦ elim (get_row job_execution_key id executions) [
    | none ↦ none
    | some e ↦ if has_failed e then some e else none
  ]
]

abbrev pub is_some_execution : Option JobExecution → Bool
is_some_execution none = false
is_some_execution (some e) = true

-- The WHERE clause.
abbrev pub wants_retry : List JobExecution → List ScheduledJob → ScheduledJob → Bool
wants_retry executions scheduled job =
    is_none job.deleted_at
    && is_none job.workflow_id
    && is_some_execution (failed_execution executions job)
    && ltb_ℤ (pos 0) job.max_retries
    && not (any (is_retry_of job.id) scheduled)

module _ {J : Type 0} (env : Env J) where
  abbrev pub retry_for : ScheduledJob → Timestamp → ScheduledJob
  retry_for job time =
      let id = env.gen_for_time "scheduled" time 0 in
      record {
        id = id;
        hash = hash_i32 (env.full_hash id);
        lock_nonce = none;
        times_locked = pos 0;
        region = job.region;
        tenant_id = job.tenant_id;
        one_off_job_id = job.one_off_job_id;
        cron_job_id = job.cron_job_id;
        workflow_id = none;
        workflow_execution_id = none;
        retry_for_id = some job.id;
        scheduled_at = time;
        request_id = job.request_id;
        execution_id = none;
        timeout_ms = job.timeout_ms;
        max_retries = job.max_retries -ℤ pos 1;
        max_response_bytes = job.max_response_bytes;
        deleted_at = none;
      }

  abbrev pub next_time : Db J → ScheduledJob → JobExecution → Timestamp
  next_time db job e =
      e.executed_at
      +ℤ pos (wait_time (attempts (length db.scheduled_jobs) job.id db.scheduled_jobs) * 1000)

  -- The INSERT of the retry, and the commit.
  unfoldable pub schedule : Db J → ScheduledJob → JobExecution → Run (Db J)
  schedule db job e = elim (insert_scheduled_job (retry_for job (next_time db job e)) db) [
    | none ↦ failed
    | some db1 ↦ committed db1
  ]

  abbrev ready : Db J → ScheduledJob → Bool
  ready db job = wants_retry db.job_executions db.scheduled_jobs job && not (env.locked job.id)

  unfoldable pub run_once : Db J → Run (Db J)
  run_once db = elim (find (ready db) db.scheduled_jobs) [
    | none ↦ reached_end
    | some job ↦ elim (failed_execution db.job_executions job) [
      | none ↦ reached_end
      | some e ↦ schedule db job e
    ]
  ]

  schedule-committed :
      (db db' : Db J) (job : ScheduledJob) (e : JobExecution)
      → schedule db job e ≡ committed db'
      → db' ≡ record db {
        scheduled_jobs = db.scheduled_jobs ++ retry_for job (next_time db job e) ∷ [];
      }
  unfolding schedule insert_scheduled_job
  schedule-committed db db' job e h = ground arith

  attempts-none :
      (n : ℕ) (id : String) (t : List ScheduledJob)
      → any (is_retry_of id) t ≡ false
      → attempts n id t ≡ 0
  unfolding attempts
  attempts-none zero id t h = refl
  attempts-none (suc n) id t h = rw (find-any (is_retry_of id) t h, attempts) refl

  -- The retry that a committed run adds.
  abbrev pub Retries : Db J → Db J → Type 0
  Retries db db' =
      (job : ScheduledJob) × (e : JobExecution) × (find (ready db) db.scheduled_jobs ≡ some job)
      × (failed_execution db.job_executions job ≡ some e)
      × (db' ≡ record db {
        scheduled_jobs = db.scheduled_jobs ++ retry_for job (e.executed_at +ℤ pos 120_000_000) ∷ [];
      })

  pub run_once-Retries : (db db' : Db J) → run_once db ≡ committed db' → Retries db db'
  unfolding run_once wait_time
  run_once-Retries db db' h =
      elim (Option-cases (find (ready db) db.scheduled_jobs)) as (λ _. Retries db db') [
        | inl e ↦ absurd (ground arith)
        | inr (job, found) ↦
            elim (Option-cases (failed_execution db.job_executions job)) as (λ _. Retries db db') [
              | inl e ↦ absurd (ground arith)
              | inr (e, joined) ↦
                  let test = find-test (ready db) db.scheduled_jobs job found in
                  let unretried : any (is_retry_of job.id) db.scheduled_jobs ≡ false =
                    ground (arith, test) in
                  let first =
                    attempts-none (length db.scheduled_jobs) job.id db.scheduled_jobs unretried in
                  let added = schedule-committed db db' job e (ground arith) in
                  (job, e, found, joined, rw first at added)
            ]
      ]

  -- The jobs that want a retry.
  abbrev pub unretried : Db J → ℕ
  unretried db = count (wants_retry db.job_executions db.scheduled_jobs) db.scheduled_jobs

  -- After a retry is added, its job and the retry itself want none.
  unretried-falls : (db db' : Db J) → run_once db ≡ committed db' → unretried db' < unretried db
  unretried-falls db db' h =
      let (job, e, found, joined, q) = run_once-Retries db db' h in
      let new = retry_for job (e.executed_at +ℤ pos 120_000_000) in
      let after = wants_retry db.job_executions (db.scheduled_jobs ++ new ∷ []) in
      let test = find-test (ready db) db.scheduled_jobs job found in
      let fewer : count after db.scheduled_jobs < unretried db =
        count-fewer (wants_retry db.job_executions db.scheduled_jobs) after
          (λ x g. ground (arith, any-append (is_retry_of x.id) db.scheduled_jobs new, g)) (ready db)
          db.scheduled_jobs job found (ground (arith, test))
          (ground
            (arith, any-append (is_retry_of job.id) db.scheduled_jobs new, str_eq_refl job.id)) in
      rw q (rw (count-append after db.scheduled_jobs new) (ground (arith, fewer)))

  -- No job has a negative number of retries left.
  abbrev pub Budget : Db J → Type 0
  Budget db = All (λ s. pos 0 ≤ℤ s.max_retries) db.scheduled_jobs

  keeps_Budget : (db db' : Db J) → Budget db → run_once db ≡ committed db' → Budget db'
  unfolding ◌-ℤ◌
  keeps_Budget db db' b h =
      let (job, e, found, joined, q) = run_once-Retries db db' h in
      let test = find-test (ready db) db.scheduled_jobs job found in
      rw q (All-append (λ s. pos 0 ≤ℤ s.max_retries) db.scheduled_jobs _ b (ground (arith, test)))

  run_once-ne-dropped : (db e : Db J) → run_once db ≢ dropped e
  unfolding run_once schedule
  run_once-ne-dropped db e = ground arith

  Budget-Drains : Drains run_once Budget unretried
  Budget-Drains = record {
    keeps = keeps_Budget;
    falls = λ db db' b h. unretried-falls db db' h;
    commits = λ db e b. run_once-ne-dropped db e;
  }

  -- With more rounds than there are jobs that want a retry, the worker sleeps with nothing left to
  -- pick or has stopped on an error, and no job has a negative number of retries left, if none had
  -- at the start.
  pub scheduling_loop-Budget :
      (db : Db J)
      → Budget db
      → (n : ℕ) → unretried db < n
      → Rests run_once Budget (scheduling_loop run_once n db)
  scheduling_loop-Budget db b n h =
      scheduling_loop-Rests run_once Budget unretried Budget-Drains n db b h
