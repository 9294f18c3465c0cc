-- ===== src/Api/Jobs/Laws.antt =====
-- What holds of the handlers of src/api/jobs.rs.
use rocktick.Prelude.{map, ◌≡◌, String, true, Option, none, [], ◌∷◌, ◌++◌}
use rocktick.Db.Jobs
use rocktick.Db.Jobs.{Tenant, HttpRequest}
use rocktick.Http.{header_line}
use rocktick.Api.Models
use rocktick.Db.Tables.{Db}
use rocktick.Scheduler.Env.{Env}
use rocktick.Api.Base.{ApiLib, Context, has}
use rocktick.Api.Models.{OneOffJob}
use rocktick.Api.LimitLaws.{WithinLimits, NamedTenant, Retries, Asked, InTime, BodyWithin}
use rocktick.Api.Jobs.{CreateJob, new_request, retries_of, new_job, created}

-- A stored request that holds what was asked for.
abbrev pub RequestOf : Models.HttpRequest → HttpRequest → Type 0
RequestOf asked r =
    (r.method ≡ asked.method)
    × (r.url ≡ asked.url)
    × (r.headers ≡ map header_line asked.headers)
    × (r.body ≡ asked.body)
    × (r.deleted_at ≡ none)

module _ {J : Type 0} (env : Env J) (lib : ApiLib) (ctx : Context) (tenant_id : Option String) where
  -- A stored job that holds what was asked for, and the answer that describes it.
  abbrev pub JobOf : CreateJob → Option Tenant → HttpRequest → Jobs.OneOffJob → OneOffJob → Type 0
  JobOf opts tenant req job a =
      (job.request_id ≡ req.id)
      × (job.tenant_id ≡ tenant_id)
      × (job.execute_at ≡ opts.execute_at)
      × (job.timeout_ms ≡ opts.timeout_ms)
      × Retries opts.max_retries tenant job.max_retries
      × (job.max_response_bytes ≡ opts.max_response_bytes)
      × (job.deleted_at ≡ none)
      × (has job.region ctx.valid_regions ≡ true)
      × Asked opts.region job.region
      × (a.id ≡ job.id)
      × (a.region ≡ job.region)
      × (a.execute_at ≡ job.execute_at)
      × (a.max_retries ≡ job.max_retries)
      × (a.request ≡ opts.request)

  -- What an accepted request for a job has added, and the limits that it has met.
  abbrev pub Created : CreateJob → Db J → Db J → OneOffJob → Type 0
  Created opts db db' a =
      (tenant : Option Tenant) × (req : HttpRequest) × (job : Jobs.OneOffJob) × NamedTenant db
        tenant_id tenant
      × WithinLimits tenant opts.timeout_ms opts.max_retries opts.max_response_bytes
      × InTime tenant env.utc_now opts.execute_at
      × BodyWithin tenant opts.request.body
      × RequestOf opts.request req
      × JobOf opts tenant req job a
      × (db' ≡ record db {
        http_requests = db.http_requests ++ req ∷ [];
        one_off_jobs = db.one_off_jobs ++ job ∷ [];
      })

  abbrev Inserted : CreateJob → String → Option Tenant → Db J → Db J → OneOffJob → Type 0
  Inserted opts region tenant db db' a =
      let retries = retries_of env lib opts.max_retries tenant in
      (a ≡ created env lib opts region tenant_id retries)
      × (db' ≡ record db {
        http_requests = db.http_requests ++ new_request env lib opts.request ∷ [];
        one_off_jobs = db.one_off_jobs ++ new_job env lib opts region tenant_id retries ∷ [];
      })
