-- ===== src/Tests/Api.antt =====
-- Requests of clients on one tenant's jobs.
use rocktick.Db.Tables.{request_has_nul, has_nul}
use rocktick.Prelude.{◌≡◌, refl, String, true, none, some, [], ◌∷◌, any, filter}
use rocktick.Prelude.Int.{pos, ◌-ℤ◌, ◌≤ℤ◌, wrap_i32}
use rocktick.Prelude.Result.{ok}
use rocktick.Prelude.Tables.{get_row, update_where, delete_where, count}
use rocktick.Prelude.Selections.{flat_map}
use rocktick.Db.Jobs
use rocktick.Db.Jobs.{ScheduledJob}
use rocktick.Db.Tables.{Db, insert_request, insert_cron_job, scheduled_key}
use rocktick.Http.{header_line}
use rocktick.Scheduler.Jobs.OneOff.{job_for}
use rocktick.Scheduler.Retention.Wipe.{delete_http_req}
use rocktick.Scheduler.Tokens.{tenant_key}
use rocktick.Api.Base.{ApiLib, Context}
use rocktick.Api.Models
use rocktick.Api.Models.{verify}
use rocktick.Api.Executions.{get_executions}
use rocktick.Api.Limits.{
  choose_region, check_region, fetch_tenant, within_limits, check_body, check_time,
}
use rocktick.Api.Jobs as OneOffs
use rocktick.Api.Jobs.Edit as JobEdit
use rocktick.Api.Jobs.EditLaws.{Unchanged, Deleted, update_job-Unchanged, delete_job-Deleted}
use rocktick.Api.Cron as Crons
use rocktick.Api.Cron.Edit as CronEdit
use rocktick.Api.Cron.Laws.{create_cron_job-le}
use rocktick.Tests.Fixtures.{env, empty_db, one_off, tenant}
use rocktick.Tests.HandOut.{always, request}

abbrev lib : ApiLib
lib = record {
  digits = λ n. "7";
  is_method = λ m. true;
  url_error = λ u. none;
  cron_error = λ s. none;
  in_range = always;
  db_error = "refused";
}

abbrev ctx : Context
ctx = record { valid_regions = "eu" ∷ "us" ∷ []; auth_keys = none }

abbrev asked : Models.HttpRequest
asked = record { method = "GET"; url = "http://example.com/"; headers = []; body = some "hi" }

abbrev create : OneOffs.CreateJob
create = record {
  region = none;
  execute_at = pos 200;
  request = asked;
  timeout_ms = some (pos 1000);
  max_retries = none;
  max_response_bytes = none;
}

abbrev tenant_db : Db String
tenant_db = record empty_db { tenants = tenant ∷ [] }

abbrev created_db : Db String
created_db = record tenant_db {
  http_requests = OneOffs.new_request env lib asked ∷ [];
  one_off_jobs = OneOffs.new_job env lib create "eu" (some "tenant_1") (pos 2) ∷ [];
}

-- A stored job with its request, and two scheduled jobs of it, one of which is locked.
abbrev waiting : ScheduledJob
waiting = record (job_for env always one_off (pos 200_000_000)) { id = "scheduled_1" }

abbrev locked : ScheduledJob
locked = record waiting { id = "scheduled_2"; lock_nonce = some (pos 100) }

abbrev stored_db : Db String
stored_db = record empty_db {
  http_requests = request ∷ [];
  one_off_jobs = one_off ∷ [];
  scheduled_jobs = waiting ∷ locked ∷ [];
}

abbrev stored : OneOffs.IntermediateOneOffJob
stored = record { job = one_off; req = request }

abbrev later : OneOffs.UpdateJob
later = record {
  region = some "us";
  execute_at = some (pos 300);
  request = none;
  timeout_ms = none;
  max_retries = none;
  max_response_bytes = none;
}

abbrev unchanged : Models.OneOffJob
unchanged = OneOffs.to_one_off_job [] stored

stored_db-update_job :
    JobEdit.update_job env lib ctx "one_off_1" none later stored_db ≡ (stored_db, ok unchanged)
unfolding JobEdit.update_job JobEdit.update_txn JobEdit.update_request check_region fetch_tenant
    within_limits check_body check_time get_row update_where delete_where any get_executions
    flat_map filter ◌-ℤ◌
stored_db-update_job = refl

update_job-Unchanged_example : Unchanged env lib stored_db "one_off_1" stored_db unchanged
update_job-Unchanged_example =
    update_job-Unchanged env lib ctx "one_off_1" none later stored_db stored_db unchanged
      stored_db-update_job

abbrev deleted_db : Db String
deleted_db = delete_http_req (pos 100_000_000) "request_1" (record stored_db {
  one_off_jobs = record one_off { deleted_at = some (pos 100_000_000) } ∷ [];
  scheduled_jobs = locked ∷ [];
})

stored_db-delete_job :
    JobEdit.delete_job env lib "one_off_1" none stored_db ≡ (deleted_db, ok unchanged)
unfolding JobEdit.delete_job JobEdit.delete_txn fetch_tenant get_row update_where delete_where any
    get_executions flat_map filter delete_http_req
stored_db-delete_job = refl

stored_db-locked : get_row scheduled_key "scheduled_2" stored_db.scheduled_jobs ≡ some locked
unfolding get_row
stored_db-locked = refl

delete_job-Deleted_example : Deleted env lib stored_db "one_off_1" locked deleted_db
delete_job-Deleted_example =
    delete_job-Deleted env lib "one_off_1" none stored_db deleted_db unchanged locked
      stored_db-delete_job stored_db-locked refl

abbrev create_cron : Crons.CreateCronJob
create_cron = record {
  region = some "us";
  schedule = "* * * * *";
  request = asked;
  timeout_ms = none;
  max_retries = none;
  max_response_bytes = none;
}

abbrev cron_db : Db String
cron_db = record tenant_db {
  http_requests = OneOffs.new_request env lib asked ∷ [];
  cron_jobs = Crons.new_cron env lib create_cron "us" (some "tenant_1") (pos 2) ∷ [];
}

abbrev cron_created : Models.CronJob
cron_created = Crons.created env lib create_cron "us" (some "tenant_1") (pos 2)

tenant_db-create_cron_job :
    Crons.create_cron_job env lib ctx (some "tenant_1") create_cron tenant_db
    ≡ (cron_db, ok cron_created)
unfolding Crons.create_cron_job Crons.create_txn choose_region verify fetch_tenant within_limits
    check_body Crons.check_count Crons.insert_cron insert_request insert_cron_job any get_row count
    wrap_i32 header_line request_has_nul has_nul
tenant_db-create_cron_job = refl

tenant_db-tenant : get_row tenant_key "tenant_1" tenant_db.tenants ≡ some tenant
unfolding get_row
tenant_db-tenant = refl

create_cron_job-le_example :
    pos (count (Crons.is_active_of "tenant_1") cron_db.cron_jobs) ≤ℤ tenant.max_cron_jobs
create_cron_job-le_example =
    create_cron_job-le env lib ctx "tenant_1" tenant create_cron tenant_db cron_db cron_created
      tenant_db-tenant tenant_db-create_cron_job

abbrev new_schedule : Crons.UpdateCronJob
new_schedule = record {
  region = none;
  schedule = some "0 * * * *";
  request = none;
  timeout_ms = none;
  max_retries = none;
  max_response_bytes = none;
}

-- The cron job with a scheduled job that a drone has.
abbrev busy_db : Db String
busy_db = record cron_db {
  http_requests = record (OneOffs.new_request env lib asked) { headers = [] } ∷ [];
  scheduled_jobs = record locked { one_off_job_id = none; cron_job_id = some "cron" } ∷ [];
}

abbrev written : Jobs.CronJob
written =
    CronEdit.write_cron env lib new_schedule
      (Crons.new_cron env lib create_cron "us" (some "tenant_1") (pos 2))
      (Crons.new_cron env lib create_cron "us" (some "tenant_1") (pos 2))

abbrev updated_db : Db String
updated_db = record busy_db { cron_jobs = written ∷ []; scheduled_jobs = [] }

abbrev cron_updated : Models.CronJob
cron_updated =
    Crons.to_cron_job []
      (record { job = written; req = record (OneOffs.new_request env lib asked) { headers = [] } })
