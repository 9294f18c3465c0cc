-- ===== src/Api/Jobs/EditLaws.antt =====
-- What holds of the update and the deletion in src/api/jobs.rs.
use rocktick.Prelude.{
  ◌≡◌, refl, sym, ap, subst, ◌∙◌, ◌&&◌, String, Bool, true, false, Option, none, some, All, arith,
  is_none, is_text,
}
use rocktick.Prelude.Result.{ok, >>=-eq-ok, ok_or, ok_or-eq-ok}
use rocktick.Prelude.Tables.{get_row}
use rocktick.Prelude.Updates.{get_row-update_key_self, get_row-delete_spared}
use rocktick.Prelude.Selections.{All-delete_where_spared}
use rocktick.Db.Jobs
use rocktick.Db.Jobs.{ScheduledJob}
use rocktick.Db.Tables.{Db, one_off_key, scheduled_key}
use rocktick.Scheduler.Env.{Env}
use rocktick.Scheduler.Jobs.OneOff.{is_unscheduled}
use rocktick.Scheduler.Retention.Wipe.{delete_http_req}
use rocktick.Api.Base.{ApiLib, Context, not_found, rolled_back_ok, committed_ok}
use rocktick.Api.Models
use rocktick.Api.Models.{OneOffJob, verify}
use rocktick.Api.Limits.{check_region, fetch_tenant, within_limits, check_body}
use rocktick.Api.Jobs.{UpdateJob, IntermediateOneOffJob, to_one_off_job, find_job}
use rocktick.Api.Jobs.Edit.{
  update_job, update_txn, update_request, delete_pending, delete_job, delete_txn, delete_unlocked,
  mark_deleted, check_time_if, body_of,
}

-- A scheduled job of the job that no drone has.
abbrev pub is_unlocked_of : String → ScheduledJob → Bool
is_unlocked_of id s = is_text s.one_off_job_id id && is_none s.lock_nonce && is_none s.execution_id

module _ {J : Type 0} (env : Env J) (lib : ApiLib) where
  find_job-job :
      (b : Bool) (db : Db J) (id : String) (tenant_id : Option String) (row : IntermediateOneOffJob)
      → find_job env lib b db id tenant_id ≡ some row
      → get_row one_off_key id db.one_off_jobs ≡ some row.job
  find_job-job b db id tenant_id row h = ground arith

  update_request-keeps :
      (req_id : String) (r : Option Models.HttpRequest) (db db' : Db J)
      → update_request env lib req_id r db ≡ ok db'
      → db'.one_off_jobs ≡ db.one_off_jobs
  unfolding update_request
  update_request-keeps req_id r db db' h = ground arith

  -- The columns that a client can change.
  abbrev pub ShowsJob : Jobs.OneOffJob → OneOffJob → Type 0
  ShowsJob job a =
      (a.id ≡ job.id)
      × (a.region ≡ job.region)
      × (a.execute_at ≡ job.execute_at)
      × (a.timeout_ms ≡ job.timeout_ms)
      × (a.max_retries ≡ job.max_retries)
      × (a.max_response_bytes ≡ job.max_response_bytes)

  abbrev pub Unchanged : Db J → String → Db J → OneOffJob → Type 0
  Unchanged db job_id db' a =
      (db' ≡ db)
      × (job : Jobs.OneOffJob) × (get_row one_off_key job_id db.one_off_jobs ≡ some job)
      × ShowsJob job a

  update_txn-Shows :
      (ctx : Context) (job_id : String) (tenant_id : Option String) (opts : UpdateJob)
      (db db1 : Db J) (a : OneOffJob)
      → update_txn env lib ctx job_id tenant_id opts db ≡ ok (db1, a)
      → (job : Jobs.OneOffJob) × (get_row one_off_key job_id db.one_off_jobs ≡ some job)
        × ShowsJob job a
  unfolding update_txn to_one_off_job
  update_txn-Shows ctx job_id tenant_id opts db db1 a h =
      let (u1, p1, h1) = >>=-eq-ok (check_region ctx opts.region) _ h in
      let (tenant, p2, h2) = >>=-eq-ok (fetch_tenant db tenant_id) _ h1 in
      let (u3, p3, h3) =
        >>=-eq-ok
          (within_limits lib tenant opts.timeout_ms opts.max_retries opts.max_response_bytes) _
          h2 in
      let (u4, p4, h4) = >>=-eq-ok (check_time_if env lib tenant opts.execute_at) _ h3 in
      let (u5, p5, h5) = >>=-eq-ok (check_body lib tenant (body_of env lib opts.request)) _ h4 in
      let (old, p6, h6) =
        >>=-eq-ok (ok_or (find_job env lib false db job_id tenant_id) not_found) _ h5 in
      let (db2, p7, h7) =
        >>=-eq-ok
          (update_request env lib old.req.id opts.request (delete_pending env lib job_id db)) _
          h6 in
      let (row, p8, h8) =
        >>=-eq-ok (ok_or (find_job env lib true db2 job_id none) not_found) _ h7 in
      let same =
        update_request-keeps old.req.id opts.request (delete_pending env lib job_id db) db2 p7 in
      let found =
        find_job-job true db2 job_id none row
          (ok_or-eq-ok (find_job env lib true db2 job_id none) not_found row p8) in
      (row.job, ap (get_row one_off_key job_id) (sym same) ∙ found, ground (arith, h8))

  -- An update that is accepted changes nothing in the tables, and its answer shows the job's region,
  -- time and limits as they were, whatever was asked for.
  pub update_job-Unchanged :
      (ctx : Context) (job_id : String) (tenant_id : Option String) (opts : UpdateJob)
      (db db' : Db J) (a : OneOffJob)
      → update_job env lib ctx job_id tenant_id opts db ≡ (db', ok a)
      → Unchanged db job_id db' a
  unfolding update_job
  update_job-Unchanged ctx job_id tenant_id opts db db' a h =
      let (same, db1, e) =
        rolled_back_ok db db' (update_txn env lib ctx job_id tenant_id opts db) a h in
      let (job, found, shows) = update_txn-Shows ctx job_id tenant_id opts db db1 a e in
      (same, job, found, shows)

  abbrev pub Deleted : Db J → String → ScheduledJob → Db J → Type 0
  Deleted db job_id s db' =
      (job : Jobs.OneOffJob) × (job' : Jobs.OneOffJob) × (get_row one_off_key job_id db.one_off_jobs
        ≡ some job)
      × (get_row one_off_key job_id db'.one_off_jobs ≡ some job')
      × (job' ≡ record job { deleted_at = some env.now })
      × (is_unscheduled db'.scheduled_jobs job' ≡ false)
      × All (λ x. is_unlocked_of job_id x ≡ false) db'.scheduled_jobs
      × (get_row scheduled_key s.id db'.scheduled_jobs ≡ some s)

  -- A deletion that is accepted marks the job, so that the scheduler passes it over, and removes its
  -- scheduled jobs that are neither locked nor executed. A scheduled job that is locked, executed or
  -- of another job stays as it is.
  pub delete_job-Deleted :
      (job_id : String) (tenant_id : Option String) (db db' : Db J) (a : OneOffJob)
      (s : ScheduledJob)
      → delete_job env lib job_id tenant_id db ≡ (db', ok a)
      → get_row scheduled_key s.id db.scheduled_jobs ≡ some s
      → is_unlocked_of job_id s ≡ false
      → Deleted db job_id s db'
  unfolding delete_job delete_txn delete_http_req
  delete_job-Deleted job_id tenant_id db db' a s h here spared =
      let e = committed_ok db db' (delete_txn env lib job_id tenant_id db) a h in
      let (tenant, p, h1) = >>=-eq-ok (fetch_tenant db tenant_id) _ e in
      let (old, q, h2) =
        >>=-eq-ok (ok_or (find_job env lib false db job_id tenant_id) not_found) _ h1 in
      let found =
        find_job-job false db job_id tenant_id old
          (ok_or-eq-ok (find_job env lib false db job_id tenant_id) not_found old q) in
      let last : delete_http_req env.now old.req.id
            (delete_unlocked env lib job_id (mark_deleted env lib job_id db))
          ≡ db' =
        ground (arith, h2) in
      subst (Deleted db job_id s) last (
        old.job,
        record old.job { deleted_at = some env.now },
        found,
        get_row-update_key_self one_off_key job_id (λ j. record j { deleted_at = some env.now })
            db.one_off_jobs old.job (λ x. refl) found,
        refl,
        ground arith,
        All-delete_where_spared (is_unlocked_of job_id) db.scheduled_jobs,
        get_row-delete_spared scheduled_key (is_unlocked_of job_id) s.id db.scheduled_jobs s here
            spared,
      )
