-- ===== src/Scheduler/Jobs/OneOff.antt =====
-- src/scheduler/jobs/one_off.rs: a one-off job gets its scheduled job.
use rocktick.Prelude.{
  ℕ, ◌<◌, ◌≤◌, ◌≡◌, ◌≢◌, refl, sym, ◌∙◌, String, Bool, not, ◌&&◌, Option, none, some, List, [], ◌∷◌,
  ◌++◌, arith, find, any, any-append, str_eq_refl, str_eq→≡, inl, inr, Option-cases, Bool-cases,
  find-test, if◌then◌else◌, str_eq, is_text, is_none,
}
use rocktick.Prelude.Int.{ℤ, pos, scale_ℤ}
use rocktick.Prelude.Tables.{count}
use rocktick.Prelude.Counts.{count-fewer, count-append, count-any}
use rocktick.Db.Jobs.{OneOffJob, ScheduledJob, Timestamp}
use rocktick.Db.Tables.{Db, insert_scheduled_job}
use rocktick.Scheduler.Env.{Env, hash_i32}
use rocktick.Scheduler.Run.{
  Run, committed, dropped, reached_end, failed, scheduling_loop, Drains, Rests,
  scheduling_loop-Rests,
}

-- The LEFT JOIN finds no scheduled job of it.
abbrev pub is_unscheduled : List ScheduledJob → OneOffJob → Bool
is_unscheduled scheduled job =
    not (any (λ s. is_text s.one_off_job_id job.id) scheduled) && is_none job.deleted_at

-- `DateTime::from_timestamp_secs`, which fails outside the years that chrono has.
abbrev pub from_timestamp_secs : (Timestamp → Bool) → ℤ → Option Timestamp
from_timestamp_secs in_range t =
    let time = scale_ℤ 1_000_000 t in if in_range time then some time else none

module _ {J : Type 0} (env : Env J) (in_range : Timestamp → Bool) where
  abbrev pub job_for : OneOffJob → Timestamp → ScheduledJob
  job_for job time =
      let id = env.gen_for_time "scheduled" time 0 in
      record {
        id = id;
        hash = hash_i32 (env.full_hash id);
        lock_nonce = none;
        times_locked = pos 0;
        region = job.region;
        tenant_id = job.tenant_id;
        one_off_job_id = some job.id;
        cron_job_id = none;
        workflow_id = none;
        workflow_execution_id = none;
        retry_for_id = none;
        scheduled_at = time;
        request_id = job.request_id;
        execution_id = none;
        timeout_ms = job.timeout_ms;
        max_retries = job.max_retries;
        max_response_bytes = job.max_response_bytes;
        deleted_at = none;
      }

  -- The INSERT of the scheduled job, and the commit.
  unfoldable pub schedule : Db J → OneOffJob → Timestamp → Run (Db J)
  schedule db job time = elim (insert_scheduled_job (job_for job time) db) [
    | none ↦ failed
    | some db1 ↦ committed db1
  ]

  unfoldable pub run_once : Db J → Run (Db J)
  run_once db =
      elim (find (λ job. is_unscheduled db.scheduled_jobs job && not (env.locked job.id))
        db.one_off_jobs) [
          | none ↦ reached_end
          | some job ↦ elim (from_timestamp_secs in_range job.execute_at) [
            | none ↦ failed
            | some time ↦ schedule db job time
          ]
        ]

  abbrev ready : Db J → OneOffJob → Bool
  ready db job = is_unscheduled db.scheduled_jobs job && not (env.locked job.id)

  schedule-committed :
      (db db' : Db J) (job : OneOffJob) (time : Timestamp)
      → schedule db job time ≡ committed db'
      → db' ≡ record db { scheduled_jobs = db.scheduled_jobs ++ job_for job time ∷ [] }
  unfolding schedule insert_scheduled_job
  schedule-committed db db' job time h = ground arith

  -- A committed run schedules a job that had none, at its second, and changes nothing else.
  abbrev pub Schedules : Db J → Db J → Type 0
  Schedules db db' =
      (job : OneOffJob) × (find (ready db) db.one_off_jobs ≡ some job)
      × (db' ≡ record db {
        scheduled_jobs = db.scheduled_jobs ++ job_for job (scale_ℤ 1_000_000 job.execute_at) ∷ [];
      })

  run_once-Schedules : (db db' : Db J) → run_once db ≡ committed db' → Schedules db db'
  unfolding run_once
  run_once-Schedules db db' h =
      elim (Option-cases (find (ready db) db.one_off_jobs)) as (λ _. Schedules db db') [
        | inl e ↦ absurd (ground arith)
        | inr (job, e) ↦
            let time = scale_ℤ 1_000_000 job.execute_at in
            elim (Bool-cases (in_range time)) as (λ _. Schedules db db') [
              | inr out ↦ absurd (ground arith)
              | inl inside ↦ (
                job,
                e,
                schedule-committed db db' job time (
                    let found : run_once db ≡ schedule db job time =
                      rw (e, run_once) (rw (inside, run_once) refl) in
                    sym found ∙ h),
              )
            ]
      ]

  -- The first scheduled job of a one-off job, which is no retry.
  abbrev pub is_first : String → ScheduledJob → Bool
  is_first id s = is_text s.one_off_job_id id && is_none s.retry_for_id

  abbrev pub Once : Db J → Type 0
  Once db = (id : String) → count (is_first id) db.scheduled_jobs ≤ 1

  keeps_Once : (db db' : Db J) → Once db → run_once db ≡ committed db' → Once db'
  keeps_Once db db' o h id =
      let (job, e, q) = run_once-Schedules db db' h in
      let new = job_for job (scale_ℤ 1_000_000 job.execute_at) in
      let free = find-test (ready db) db.one_off_jobs job e in
      rw q (
        rw (count-append (is_first id) db.scheduled_jobs new)
          (elim (Bool-cases (str_eq job.id id)) [
            | inr f ↦ ground (arith, o id, f)
            | inl f ↦
                let none_yet =
                  count-any (is_first id) (λ s. is_text s.one_off_job_id job.id)
                    (λ s g. ground (arith, str_eq→≡ job.id id f, g)) db.scheduled_jobs
                    (ground (arith, free)) in
                ground (arith, none_yet)
          ]))

  abbrev pub unscheduled : Db J → ℕ
  unscheduled db = count (is_unscheduled db.scheduled_jobs) db.one_off_jobs

  unscheduled-falls :
      (db db' : Db J) → run_once db ≡ committed db' → unscheduled db' < unscheduled db
  unscheduled-falls db db' h =
      let (job, e, q) = run_once-Schedules db db' h in
      let new = job_for job (scale_ℤ 1_000_000 job.execute_at) in
      let free = find-test (ready db) db.one_off_jobs job e in
      rw q (
        count-fewer (is_unscheduled db.scheduled_jobs)
          (is_unscheduled (db.scheduled_jobs ++ new ∷ []))
          (λ x g.
            ground
              (arith, any-append (λ s. is_text s.one_off_job_id x.id) db.scheduled_jobs new, g))
          (ready db) db.one_off_jobs job e (ground (arith, free))
          (ground (
            arith,
            any-append (λ s. is_text s.one_off_job_id job.id) db.scheduled_jobs new,
            str_eq_refl job.id,
          )))

  run_once-ne-dropped : (db e : Db J) → run_once db ≢ dropped e
  unfolding run_once schedule
  run_once-ne-dropped db e = ground arith

  Once-Drains : Drains run_once Once unscheduled
  Once-Drains = record {
    keeps = keeps_Once;
    falls = λ db db' o h. unscheduled-falls db db' h;
    commits = λ db e o. run_once-ne-dropped db e;
  }

  -- With more rounds than there are one-off jobs to schedule, the worker sleeps with nothing left
  -- to pick, or has stopped on an error; and no one-off job has two scheduled jobs that are no
  -- retries, if none had at the start.
  pub scheduling_loop-Once :
      (db : Db J)
      → Once db
      → (n : ℕ) → unscheduled db < n
      → Rests run_once Once (scheduling_loop run_once n db)
  scheduling_loop-Once db o n h =
      scheduling_loop-Rests run_once Once unscheduled Once-Drains n db o h
