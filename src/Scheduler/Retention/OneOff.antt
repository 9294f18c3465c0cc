-- ===== src/Scheduler/Retention/OneOff.antt =====
-- src/scheduler/retention/one_off.rs: a one-off job is wiped an hour after all its scheduled jobs.
use rocktick.Prelude.{
  ℕ, ◌<◌, ◌≡◌, ◌≢◌, refl, String, Bool, true, false, not, ◌&&◌, none, some, List, arith, find, any,
  inl, inr, Option-cases, find-test, find-none, &&_left, str_eq, is_none, is_text, All, All-map,
}
use rocktick.Prelude.Int.{◌-ℤ◌, ltb_ℤ}
use rocktick.Prelude.Tables.{get_row, update_where, count, UniqueKeys, get_row-find}
use rocktick.Prelude.Updates.{count-update_where, UniqueKeys-update_where}
use rocktick.Db.Jobs.{Timestamp, OneOffJob, ScheduledJob}
use rocktick.Db.Tables.{Db}
use rocktick.Scheduler.Env.{seconds}
use rocktick.Scheduler.Run.{
  Run, committed, reached_end, failed, scheduling_loop, Drains, Rests, scheduling_loop-Rests,
  Worker, idle, broken, running,
}
use rocktick.Scheduler.Retention.Wipe.{delete_http_req}

abbrev pub one_off_key : OneOffJob → String
one_off_key j = j.id

-- sched_2.deleted_at IS NULL OR sched_2.deleted_at >= now() - interval '1 hours'.
abbrev pub is_recent : Timestamp → ScheduledJob → Bool
is_recent now s = elim s.deleted_at [ none ↦ true | some t ↦ not (ltb_ℤ t (now -ℤ seconds 3600)) ]

-- The JOIN, and the WHERE clause of the candidates.
abbrev pub is_candidate : Timestamp → List ScheduledJob → OneOffJob → Bool
is_candidate now scheduled job =
    any (λ s. is_text s.one_off_job_id job.id) scheduled
    && is_none job.deleted_at
    && not (any (λ s. is_text s.one_off_job_id job.id && is_recent now s) scheduled)

abbrev delete_one_off : Timestamp → OneOffJob → OneOffJob
delete_one_off now j = record j { deleted_at = some now }

-- No row is held by others. The query looks at ten candidates, of which it takes one that is free; the
-- model looks at all of them.
abbrev none_locked : String → Bool
none_locked _ = false

module _ {J : Type 0} where
  abbrev pub KeyedOneOffs : Db J → Type 0
  KeyedOneOffs db = UniqueKeys one_off_key db.one_off_jobs

module _ {J : Type 0} (now : Timestamp) where
  abbrev candidate : Db J → OneOffJob → Bool
  candidate db = is_candidate now db.scheduled_jobs

  -- The UPDATE of one_off_jobs, and the wiping of its request.
  abbrev pub delete_job_and_request : OneOffJob → Db J → Db J
  delete_job_and_request job db = delete_http_req now job.request_id (record db {
    one_off_jobs = update_where (λ j. str_eq j.id job.id) (delete_one_off now) db.one_off_jobs;
  })

  unfoldable pub run_once : (String → Bool) → Db J → Run (Db J)
  run_once locked db =
      elim (find (λ job. candidate db job && not (locked job.id)) db.one_off_jobs) [
        | none ↦ reached_end
        | some job ↦ committed (delete_job_and_request job db)
      ]

  -- A committed run wipes one candidate, and changes neither another one-off job nor any scheduled one.
  abbrev pub WipesOneOff : Db J → Db J → Type 0
  WipesOneOff db db' =
      (job : OneOffJob) × (get_row one_off_key job.id db.one_off_jobs ≡ some job)
      × (candidate db job ≡ true)
      × (db'.one_off_jobs
          ≡ update_where (λ j. str_eq j.id job.id) (delete_one_off now) db.one_off_jobs)
      × (db'.scheduled_jobs ≡ db.scheduled_jobs)

  run_once-WipesOneOff :
      (locked : String → Bool) (db db' : Db J)
      → KeyedOneOffs db
      → run_once locked db ≡ committed db'
      → WipesOneOff db db'
  unfolding run_once delete_http_req
  run_once-WipesOneOff locked db db' u h =
      elim (Option-cases (find (λ job. candidate db job && not (locked job.id)) db.one_off_jobs))
        as (λ _. WipesOneOff db db') [
          | inl e ↦ absurd (ground arith)
          | inr (job, e) ↦
              let test =
                find-test (λ job. candidate db job && not (locked job.id)) db.one_off_jobs job e in
              (
                job,
                get_row-find one_off_key (λ job. candidate db job && not (locked job.id))
                    db.one_off_jobs job u e,
                &&_left (candidate db job) (not (locked job.id)) test,
                ground arith,
                ground arith,
              )
        ]

  abbrev pub candidates : Db J → ℕ
  candidates db = count (candidate db) db.one_off_jobs

  abbrev wipe_all : Db J → Run (Db J)
  wipe_all = run_once none_locked

  KeyedOneOffs-Drains : Drains wipe_all KeyedOneOffs candidates
  unfolding run_once
  KeyedOneOffs-Drains = record {
    keeps = λ db db' u h.
        let (job, here, test, jobs, scheduled) = run_once-WipesOneOff none_locked db db' u h in
        rw jobs (
          UniqueKeys-update_where one_off_key (λ j. str_eq j.id job.id) (delete_one_off now)
            db.one_off_jobs (λ j. refl) u);
    falls = λ db db' u h.
        let (job, here, test, jobs, scheduled) = run_once-WipesOneOff none_locked db db' u h in
        let sums =
          count-update_where one_off_key (candidate db) job.id (delete_one_off now) db.one_off_jobs
            job u here in
        rw (jobs, scheduled) (ground (arith, sums, test));
    commits = λ db e u. ground arith;
  }

  -- The worker sleeps with no candidate left.
  abbrev pub WipedOneOffs : Worker (Db J) → Type 0
  WipedOneOffs (idle db) = KeyedOneOffs db × All (λ j. candidate db j ≡ false) db.one_off_jobs
  WipedOneOffs (broken db) = ⊥
  WipedOneOffs (running db) = ⊥

  none_left :
      (db : Db J) → wipe_all db ≡ reached_end → All (λ j. candidate db j ≡ false) db.one_off_jobs
  unfolding run_once
  none_left db h =
      elim (Option-cases
        (find (λ job. candidate db job && not (none_locked job.id)) db.one_off_jobs)) [
          | inl e ↦
              All-map _ _ db.one_off_jobs (λ j f. ground (arith, f)) (find-none _ db.one_off_jobs e)
          | inr (job, e) ↦ absurd (ground arith)
        ]

  not_failed : (db : Db J) → wipe_all db ≢ failed
  unfolding run_once
  not_failed db = ground arith

  Rests-WipedOneOffs : (w : Worker (Db J)) → Rests wipe_all KeyedOneOffs w → WipedOneOffs w
  Rests-WipedOneOffs (idle db) (u, e) = (u, none_left db e)
  Rests-WipedOneOffs (broken db) (u, e) = absurd (not_failed db e)
  Rests-WipedOneOffs (running db) r = r

  -- With more rounds than there are one-off jobs whose scheduled jobs all were deleted more than an
  -- hour ago, and no lock held by others, the worker stops on no error and sleeps, and no such job
  -- is left; where the ids of the one-off jobs are unique, as they stay.
  pub scheduling_loop-WipedOneOffs :
      (db : Db J)
      → KeyedOneOffs db
      → (n : ℕ) → candidates db < n
      → WipedOneOffs (scheduling_loop wipe_all n db)
  scheduling_loop-WipedOneOffs db u n h =
      Rests-WipedOneOffs _
        (scheduling_loop-Rests wipe_all KeyedOneOffs candidates KeyedOneOffs-Drains n db u h)
