-- ===== src/Api/Cron/Laws.antt =====
-- What holds of the creation of cron jobs in src/api/cron.rs.
use rocktick.Prelude.{◌≡◌, subst, String, true, Option, some, [], ◌∷◌, ◌++◌, arith}
use rocktick.Prelude.Int.{pos, ltb_ℤ, ◌≤ℤ◌}
use rocktick.Prelude.Result.{ok, >>=-eq-ok, ensure_holds}
use rocktick.Prelude.Tables.{get_row, count}
use rocktick.Prelude.Counts.{count-append}
use rocktick.Db.Jobs.{Tenant}
use rocktick.Db.Tables.{Db, insert_request, insert_cron_job}
use rocktick.Scheduler.Env.{Env}
use rocktick.Scheduler.Tokens.{tenant_key}
use rocktick.Api.Base.{ApiLib, Context, committed_ok}
use rocktick.Api.Models.{CronJob, verify}
use rocktick.Api.Limits.{choose_region, fetch_tenant, within_limits, check_body}
use rocktick.Api.Jobs.{retries_of}
use rocktick.Api.Cron.{
  CreateCronJob, is_active_of, check_schedule, check_count, insert_cron, new_cron, create_txn,
  create_cron_job,
}

module _ {J : Type 0} (env : Env J) (lib : ApiLib) where
  insert_cron-appends :
      (opts : CreateCronJob) (region : String) (tenant_id : Option String) (tenant : Option Tenant)
      (db db' : Db J) (a : CronJob)
      → insert_cron env lib opts region tenant_id tenant db ≡ ok (db', a)
      → db'.cron_jobs
        ≡ db.cron_jobs
          ++ new_cron env lib opts region tenant_id (retries_of env lib opts.max_retries tenant)
            ∷ []
  unfolding insert_cron insert_request insert_cron_job
  insert_cron-appends opts region tenant_id tenant db db' a h = ground arith

  fetch_tenant-row :
      (db : Db J) (id : String) (t : Tenant) (tenant : Option Tenant)
      → get_row tenant_key id db.tenants ≡ some t
      → fetch_tenant db (some id) ≡ ok tenant
      → tenant ≡ some t
  unfolding fetch_tenant
  fetch_tenant-row db id t tenant found h = ground arith

  check_count_bound :
      (t : Tenant) (db : Db J)
      → check_count env lib (some t) db ≡ ok tt
      → ltb_ℤ (pos (count (is_active_of t.id) db.cron_jobs)) t.max_cron_jobs ≡ true
  unfolding check_count
  check_count_bound t db h = ensure_holds _ _ h

  -- A tenant that may create a cron job has at most as many active ones afterwards as its limit.
  pub create_cron_job-le :
      (ctx : Context) (id : String) (t : Tenant) (opts : CreateCronJob) (db db' : Db J)
      (a : CronJob)
      → get_row tenant_key id db.tenants ≡ some t
      → create_cron_job env lib ctx (some id) opts db ≡ (db', ok a)
      → pos (count (is_active_of t.id) db'.cron_jobs) ≤ℤ t.max_cron_jobs
  unfolding create_cron_job create_txn
  create_cron_job-le ctx id t opts db db' a found h =
      let e = committed_ok db db' (create_txn env lib ctx (some id) opts db) a h in
      let (region, p1, h1) = >>=-eq-ok (choose_region ctx opts.region) _ e in
      let (u2, p2, h2) = >>=-eq-ok (check_schedule env lib opts.schedule) _ h1 in
      let (u3, p3, h3) = >>=-eq-ok (verify lib opts.request) _ h2 in
      let (tenant, p4, h4) = >>=-eq-ok (fetch_tenant db (some id)) _ h3 in
      let (u5, p5, h5) =
        >>=-eq-ok
          (within_limits lib tenant opts.timeout_ms opts.max_retries opts.max_response_bytes) _
          h4 in
      let (u6, p6, h6) = >>=-eq-ok (check_body lib tenant opts.request.body) _ h5 in
      let (u7, p7, h7) = >>=-eq-ok (check_count env lib tenant db) _ h6 in
      let me = fetch_tenant-row db id t tenant found p4 in
      let room = check_count_bound t db (subst (λ o. check_count env lib o db ≡ ok tt) me p7) in
      let new =
        new_cron env lib opts region (some id) (retries_of env lib opts.max_retries tenant) in
      rw (insert_cron-appends opts region (some id) tenant db db' a h7)
        (rw (count-append (is_active_of t.id) db.cron_jobs new) (ground (arith, room)))
