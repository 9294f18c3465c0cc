-- ===== src/Scheduler/Jobs/Cron.antt =====
-- src/scheduler/jobs/cron.rs: a cron job gets its next scheduled jobs. The parser and the iterator of
-- croner are a parameter: the times of an expression after a start.
use rocktick.Prelude.{
  ℕ, zero, suc, String, Bool, not, ◌&&◌, Option, none, some, List, [], ◌∷◌, find, any, ltb, str_eq,
  is_text, is_none, if◌then◌else◌, unwrap_or,
}
use rocktick.Prelude.Int.{pos, ◌+ℤ◌, ◌-ℤ◌, ltb_ℤ, max_ℤ}
use rocktick.Prelude.Tables.{count, update_where}
use rocktick.Db.Jobs.{Timestamp, CronJob, ScheduledJob}
use rocktick.Db.Tables.{Db, insert_scheduled_job}
use rocktick.Scheduler.Env.{Env, hash_i32, seconds}
use rocktick.Scheduler.Run.{Run, committed, reached_end, failed}

-- croner: the times of a valid expression from a start on, and the text of an error.
pub record Croner : Type 0 where
  pub parse : String → Option (Timestamp → List Timestamp)
  pub error_message : String → String

abbrev pub is_waiting : String → ScheduledJob → Bool
is_waiting id s = is_text s.cron_job_id id && is_none s.execution_id

-- Fewer than 60 jobs wait, and none of them is more than ten minutes ahead.
abbrev pub wants_jobs : Timestamp → List ScheduledJob → CronJob → Bool
wants_jobs now scheduled job =
    ltb (count (is_waiting job.id) scheduled) 60
    && not (any (λ s. is_waiting job.id s && ltb_ℤ (now +ℤ seconds 600) s.scheduled_at) scheduled)
    && is_none job.error
    && is_none job.deleted_at

-- ORDER BY scheduled_at DESC LIMIT 1.
unfoldable pub latest_scheduled : String → List ScheduledJob → Option Timestamp
latest_scheduled id [] = none
latest_scheduled id (s ∷ t) =
    let rest = latest_scheduled id t in
    if is_text s.cron_job_id id && is_none s.retry_for_id
    then some (max_ℤ s.scheduled_at (unwrap_or rest s.scheduled_at))
    else rest

unfoldable pub take : ℕ → List Timestamp → List Timestamp
take zero ts = []
take (suc n) [] = []
take (suc n) (t ∷ ts) = t ∷ take n ts

-- The loop over the times, with its count: it stops after a time more than 15 minutes ahead, and
-- after the 61st.
unfoldable pub pick_times : Timestamp → ℕ → List Timestamp → List Timestamp
pick_times now n [] = []
pick_times now n (t ∷ ts) =
    let rest = pick_times now (suc n) ts in
    if ltb_ℤ (seconds 900) (t -ℤ now) then t ∷ [] else if ltb 60 (suc n) then t ∷ [] else t ∷ rest

module _ {J : Type 0} (env : Env J) where
  abbrev pub job_at : CronJob → Timestamp → ℕ → ScheduledJob
  job_at job time n =
      let id = env.gen_for_time "scheduled" time n in
      record {
        id = id;
        hash = hash_i32 (env.full_hash id);
        lock_nonce = none;
        times_locked = pos 0;
        region = job.region;
        tenant_id = job.tenant_id;
        one_off_job_id = none;
        cron_job_id = some job.id;
        workflow_id = none;
        workflow_execution_id = none;
        retry_for_id = none;
        scheduled_at = time;
        request_id = job.request_id;
        execution_id = none;
        timeout_ms = job.timeout_ms;
        max_retries = job.max_retries;
        max_response_bytes = job.max_response_bytes;
        deleted_at = none;
      }

  unfoldable pub insert_jobs : CronJob → List Timestamp → ℕ → Db J → Option (Db J)
  insert_jobs job [] n db = some db
  insert_jobs job (t ∷ ts) n db = elim (insert_scheduled_job (job_at job t n) db) [
    | none ↦ none
    | some db1 ↦ insert_jobs job ts (suc n) db1
  ]

  abbrev pub set_error : String → String → Db J → Db J
  set_error id message db = record db {
    cron_jobs =
        update_where (λ j. str_eq j.id id) (λ j. record j { error = some message }) db.cron_jobs;
  }

  abbrev pub start_time : CronJob → Db J → Timestamp
  start_time job db =
      max_ℤ (unwrap_or (latest_scheduled job.id db.scheduled_jobs) env.utc_now) env.utc_now

  -- The times of a valid expression that become scheduled jobs.
  abbrev pub next_times : CronJob → (Timestamp → List Timestamp) → Db J → List Timestamp
  next_times job times db = pick_times env.utc_now 0 (take 70 (times (start_time job db)))

  unfoldable pub schedule_cron : Croner → CronJob → Db J → Run (Db J)
  schedule_cron croner job db = elim (croner.parse job.schedule) [
    | none ↦ committed (set_error job.id (croner.error_message job.schedule) db)
    | some times ↦ elim (insert_jobs job (next_times job times db) 0 db) [
      | none ↦ failed
      | some db1 ↦ committed db1
    ]
  ]

  unfoldable pub run_once : Croner → Db J → Run (Db J)
  run_once croner db =
      elim (find (λ job. wants_jobs env.now db.scheduled_jobs job && not (env.locked job.id))
        db.cron_jobs) [ none ↦ reached_end | some job ↦ schedule_cron croner job db ]
