-- ===== src/Api/Tenants.antt =====
-- src/api/tenants.rs: tenants and their signing secrets. The period and the step of a tenant's tokens
-- are computed in floating point there, and are parameters here.
use rocktick.Prelude.{
  String, Bool, false, not, ◌&&◌, Option, none, some, [], ◌∷◌, ◌++◌, is_none, is_text, str_eq,
  unwrap_or, if◌then◌else◌,
}
use mathlib.Core.Option
use rocktick.Prelude.Int.{ℤ, pos, ltb_ℤ, scale_ℤ}
use rocktick.Prelude.Result.{Result, ok, err, ◌>>=◌, ◌>>◌, ok_or, ensure}
use rocktick.Prelude.Tables.{get_row, update_where, count}
use rocktick.Db.Jobs
use rocktick.Db.Jobs.{Interval, ScheduledJob}
use rocktick.Db.Tables.{Db}
use rocktick.Scheduler.Env.{Env}
use rocktick.Scheduler.Tokens.{tenant_key}
use rocktick.Api.Base.{ApiError, ApiLib, internal_server_error, not_found, tenant_not_allowed}
use rocktick.Api.Executions.{execution_of}

-- `models::Tenant`.
pub record Tenant : Type 0 where
  pub id : String
  pub tokens : ℤ
  pub max_tokens : ℤ
  pub tok_per_day : ℤ
  pub max_timeout : ℤ
  pub default_retries : ℤ
  pub max_retries : ℤ
  pub max_max_response_bytes : ℤ
  pub max_request_bytes : ℤ
  pub retain_for_days : ℤ
  pub max_delay_days : ℤ
  pub max_cron_jobs : ℤ

pub record CreateTenant : Type 0 where
  pub max_tokens : ℤ
  pub tok_per_day : ℤ
  pub max_timeout : ℤ
  pub default_retries : ℤ
  pub max_retries : ℤ
  pub max_max_response_bytes : ℤ
  pub max_request_bytes : ℤ
  pub retain_for_days : ℤ
  pub max_delay_days : ℤ
  pub max_cron_jobs : ℤ

pub record UpdateTenant : Type 0 where
  pub tokens : Option ℤ
  pub max_tokens : Option ℤ
  pub tok_per_day : Option ℤ
  pub max_timeout : Option ℤ
  pub default_retries : Option ℤ
  pub max_retries : Option ℤ
  pub max_max_response_bytes : Option ℤ
  pub max_request_bytes : Option ℤ
  pub retain_for_days : Option ℤ
  pub max_delay_days : Option ℤ

pub record Rates : Type 0 where
  -- `compute_incr_and_period`, and its inverse in the answers.
  pub compute_incr_and_period : ℤ → Result ApiError (Interval × ℤ)
  pub tok_per_day : Interval → ℤ → ℤ

-- A caller that is a tenant asks for itself only.
unfoldable pub check_caller : Option String → String → Result ApiError (Unit {0})
check_caller none tenant_id = ok tt
check_caller (some caller) tenant_id = ensure (str_eq caller tenant_id) tenant_not_allowed

abbrev pub to_tenant : ℤ → Jobs.Tenant → Tenant
to_tenant tok_per_day t = record {
  id = t.id;
  tokens = t.tokens;
  max_tokens = t.max_tokens;
  tok_per_day = tok_per_day;
  max_timeout = t.max_timeout;
  default_retries = t.default_retries;
  max_retries = t.max_retries;
  max_max_response_bytes = t.max_max_response_bytes;
  max_request_bytes = t.max_request_bytes;
  retain_for_days = t.retain_for_days;
  max_delay_days = t.max_delay_days;
  max_cron_jobs = t.max_cron_jobs;
}

module _ {J : Type 0} (env : Env J) (lib : ApiLib) (rates : Rates) where
  abbrev pub new_tenant : CreateTenant → Interval → ℤ → Jobs.Tenant
  new_tenant opts period increment = record {
    id = env.generate "tenant" 0;
    tokens = opts.tok_per_day;
    max_tokens = opts.max_tokens;
    increment = increment;
    period = period;
    next_increment = env.now;
    max_timeout = opts.max_timeout;
    default_retries = opts.default_retries;
    max_retries = opts.max_retries;
    max_max_response_bytes = opts.max_max_response_bytes;
    max_request_bytes = opts.max_request_bytes;
    retain_for_days = opts.retain_for_days;
    max_delay_days = opts.max_delay_days;
    max_cron_jobs = opts.max_cron_jobs;
    current_signing_key = none;
    next_signing_key = none;
  }

  -- An INSERT, refused where the id is taken.
  abbrev insert_tenant : Jobs.Tenant → Db J → Result ApiError (Db J)
  insert_tenant t db =
      if is_none (get_row tenant_key t.id db.tenants)
      then ok (record db { tenants = db.tenants ++ t ∷ [] })
      else err (internal_server_error (some lib.db_error))

  unfoldable pub create_tenant :
      Option String → CreateTenant → Db J → Result ApiError (Db J × Tenant)
  create_tenant caller opts db = do
    ensure (is_none caller) tenant_not_allowed
    rate ← rates.compute_incr_and_period opts.tok_per_day
    let t = new_tenant opts rate.0 rate.1
    db1 ← insert_tenant t db
    ok (db1, to_tenant opts.tok_per_day t)

  unfoldable pub get_tenant : Option String → String → Db J → Result ApiError Tenant
  get_tenant caller tenant_id db = do
    check_caller caller tenant_id
    t ← ok_or (get_row tenant_key tenant_id db.tenants) not_found
    ok (to_tenant (rates.tok_per_day t.period t.increment) t)

  abbrev rate_if : Option ℤ → Result ApiError (Option (Interval × ℤ))
  rate_if none = ok none
  rate_if (some n) = do rate ← rates.compute_incr_and_period n; ok (some rate)

  abbrev pub write_tenant : UpdateTenant → Option (Interval × ℤ) → Jobs.Tenant → Jobs.Tenant
  write_tenant opts rate t = record t {
    tokens = unwrap_or opts.tokens t.tokens;
    max_tokens = unwrap_or opts.max_tokens t.max_tokens;
    period = unwrap_or (Option.map (λ (r : Interval × ℤ). r.0) rate) t.period;
    increment = unwrap_or (Option.map (λ (r : Interval × ℤ). r.1) rate) t.increment;
    max_timeout = unwrap_or opts.max_timeout t.max_timeout;
    default_retries = unwrap_or opts.default_retries t.default_retries;
    max_retries = unwrap_or opts.max_retries t.max_retries;
    max_max_response_bytes = unwrap_or opts.max_max_response_bytes t.max_max_response_bytes;
    max_request_bytes = unwrap_or opts.max_request_bytes t.max_request_bytes;
    retain_for_days = unwrap_or opts.retain_for_days t.retain_for_days;
    max_delay_days = unwrap_or opts.max_delay_days t.max_delay_days;
  }

  unfoldable pub update_tenant :
      Option String → String → UpdateTenant → Db J → Result ApiError (Db J × Tenant)
  update_tenant caller tenant_id opts db = do
    ensure (is_none caller) tenant_not_allowed
    rate ← rate_if opts.tok_per_day
    t ← ok_or (get_row tenant_key tenant_id db.tenants) not_found
    let new = write_tenant opts rate t
    ok (
      record db {
        tenants =
            update_where (λ (x : Jobs.Tenant). str_eq x.id tenant_id) (write_tenant opts rate)
              db.tenants;
      },
      to_tenant (rates.tok_per_day new.period new.increment) new,
    )

  -- COUNT(*) of the executions of the tenant in [start_time, end_time), and the new cursor.
  abbrev pub is_used : Db J → String → ℤ → ℤ → ScheduledJob → Bool
  is_used db tenant_id start_time end_time job = elim (execution_of db job) [
    | none ↦ false
    | some e ↦
        is_text job.tenant_id tenant_id
        && not (ltb_ℤ e.executed_at (scale_ℤ 1_000_000 start_time))
        && ltb_ℤ e.executed_at (scale_ℤ 1_000_000 end_time)
  ]

  unfoldable pub get_tenant_usage : Option String → String → ℤ → ℤ → Db J → Result ApiError (ℤ × ℤ)
  get_tenant_usage caller tenant_id start_time end_time db = do
    check_caller caller tenant_id
    ok (pos (count (is_used db tenant_id start_time end_time) db.scheduled_jobs), end_time)
