-- ===== src/Api/LimitLaws.antt =====
-- What the checks of clients' values ensure, those that src/api/jobs.rs and src/api/cron.rs share.
use rocktick.Prelude.{
  sym, subst, inl, inr, Option-cases, ◌≡◌, String, true, Option, none, some, arith,
}
use mathlib.Core.Option
use Prim.Native.String
use rocktick.Prelude.Int.{wrap_i32, ℤ, pos, scale_ℤ, ◌-ℤ◌, ◌≤ℤ◌}
use rocktick.Prelude.Result.{ok, ok_or, >>=-eq-ok, ensure_holds}
use rocktick.Db.Jobs.{Tenant}
use rocktick.Prelude.Tables.{get_row}
use rocktick.Scheduler.Tokens.{tenant_key}
use rocktick.Scheduler.Jobs.OneOff.{from_timestamp_secs}
use rocktick.Db.Tables.{Db}
use rocktick.Api.Base.{ApiLib, Context, has}
use rocktick.Api.Limits.{
  choose_region, fetch_tenant, within_limits, at_most, check_body, check_time,
}

-- A value that is given is at most the limit of a tenant that is given.
abbrev pub Bounded : Option ℤ → Option ℤ → Type 0
Bounded none limit = Unit {0}
Bounded (some n) none = Unit {0}
Bounded (some n) (some limit) = n ≤ℤ limit

abbrev pub WithinLimits : Option Tenant → Option ℤ → Option ℤ → Option ℤ → Type 0
WithinLimits tenant timeout_ms max_retries max_response_bytes =
    Bounded timeout_ms (Option.map (λ (t : Tenant). t.max_timeout) tenant)
    × Bounded max_retries (Option.map (λ (t : Tenant). t.max_retries) tenant)
    × Bounded max_response_bytes (Option.map (λ (t : Tenant). t.max_max_response_bytes) tenant)

module _ (lib : ApiLib) where
  at_most-Bounded :
      (value limit : Option ℤ) (message : ℤ → ℤ → String)
      → at_most lib value limit message ≡ ok tt
      → Bounded value limit
  at_most-Bounded none limit message h = tt
  at_most-Bounded (some n) none message h = tt
  at_most-Bounded (some n) (some limit) message h = ground (arith, ensure_holds _ _ h)

  pub within_limits-WithinLimits :
      (tenant : Option Tenant) (t r b : Option ℤ)
      → within_limits lib tenant t r b ≡ ok tt
      → WithinLimits tenant t r b
  unfolding within_limits
  within_limits-WithinLimits tenant t r b h =
      let (u, p, h1) = >>=-eq-ok _ _ h in
      let (v, q, h2) = >>=-eq-ok _ _ h1 in
      (at_most-Bounded _ _ _ p, at_most-Bounded _ _ _ q, at_most-Bounded _ _ _ h2)

pub choose_region-valid :
    (ctx : Context) (asked : Option String) (region : String)
    → choose_region ctx asked ≡ ok region
    → has region ctx.valid_regions ≡ true
unfolding choose_region
choose_region-valid ctx asked region h = ground arith

-- The tenant that the caller names, if any, is in the table.
abbrev pub NamedTenant : {J : Type 0} → Db J → Option String → Option Tenant → Type 0
NamedTenant db none tenant = tenant ≡ none
NamedTenant db (some id) tenant =
    (t : Tenant) × (tenant ≡ some t) × (get_row tenant_key id db.tenants ≡ some t)

pub fetch_tenant-NamedTenant :
    {J : Type 0} (db : Db J) (asked : Option String) (tenant : Option Tenant)
    → fetch_tenant db asked ≡ ok tenant
    → NamedTenant db asked tenant
unfolding fetch_tenant
fetch_tenant-NamedTenant db none tenant h = ground arith
fetch_tenant-NamedTenant db (some id) tenant h =
    elim (Option-cases (get_row tenant_key id db.tenants)) [
      | inl e ↦ absurd (ground arith)
      | inr (t, e) ↦ (t, ground arith, e)
    ]

-- The retries that are asked for, or else the tenant's, or else three.
abbrev pub Retries : Option ℤ → Option Tenant → ℤ → Type 0
Retries (some n) tenant retries = retries ≡ n
Retries none (some t) retries = retries ≡ t.default_retries
Retries none none retries = retries ≡ pos 3

-- A value that is asked for.
abbrev pub Asked : Option String → String → Type 0
Asked none given = Unit {0}
Asked (some s) given = given ≡ s

-- No further ahead than the tenant may plan, in microseconds.
abbrev pub InTime : Option Tenant → ℤ → ℤ → Type 0
InTime none utc_now execute_at = Unit {0}
InTime (some t) utc_now execute_at =
    scale_ℤ 1_000_000 execute_at -ℤ utc_now ≤ℤ scale_ℤ 86_400_000_000 t.max_delay_days

pub check_time-InTime :
    (lib : ApiLib) (utc_now : ℤ) (tenant : Option Tenant) (execute_at : ℤ)
    → check_time lib utc_now tenant execute_at ≡ ok tt
    → InTime tenant utc_now execute_at
unfolding check_time
check_time-InTime lib utc_now none execute_at h = tt
check_time-InTime lib utc_now (some t) execute_at h =
    let (time, p, q) = >>=-eq-ok (ok_or (from_timestamp_secs lib.in_range execute_at) _) _ h in
    let same : scale_ℤ 1_000_000 execute_at ≡ time = ground arith in
    let within = ensure_holds _ _ q in
    let near : time -ℤ utc_now ≤ℤ scale_ℤ 86_400_000_000 t.max_delay_days =
      ground (arith, within) in
    subst (λ x. x -ℤ utc_now ≤ℤ scale_ℤ 86_400_000_000 t.max_delay_days) (sym same) near

pub choose_region-Asked :
    (ctx : Context) (asked : Option String) (region : String)
    → choose_region ctx asked ≡ ok region
    → Asked asked region
unfolding choose_region
choose_region-Asked ctx none region h = tt
choose_region-Asked ctx (some s) region h = ground arith

-- The body of a request, by its length as an `i32`.
abbrev pub BodyWithin : Option Tenant → Option String → Type 0
BodyWithin (some t) (some body) = wrap_i32 (pos (String.len body)) ≤ℤ t.max_request_bytes
BodyWithin (some t) none = Unit {0}
BodyWithin none body = Unit {0}

pub check_body-BodyWithin :
    (lib : ApiLib) (tenant : Option Tenant) (body : Option String)
    → check_body lib tenant body ≡ ok tt
    → BodyWithin tenant body
unfolding check_body
check_body-BodyWithin lib (some t) (some body) h = ground (arith, ensure_holds _ _ h)
check_body-BodyWithin lib (some t) none h = tt
check_body-BodyWithin lib none body h = tt
