-- ===== src/Broker/HandOut.antt =====
-- The statement of `get_jobs` in src/broker/job.rs: which scheduled jobs a drone is given, their
-- locks, and what the tenants pay. `now()` has passed 1970 and its seconds have 32 bits.
use rocktick.Prelude.{
  String, Bool, not, ◌&&◌, ◌||◌, Option, none, some, List, [], ◌∷◌, ◌++◌, filter, sort_by, is_none,
  is_text, str_eq,
}
use rocktick.Prelude.Int.{ℤ, pos, pos_part, ltb_ℤ, eqb_ℤ, max_ℤ, ◌+ℤ◌, ◌-ℤ◌}
use rocktick.Prelude.Tables.{get_row, update_where, count}
use rocktick.Prelude.Selections.{take, flat_map, is_among}
use rocktick.Db.Jobs.{Timestamp, epoch, Tenant, HttpRequest, ScheduledJob}
use rocktick.Db.Tables.{Db, scheduled_key, request_key}
use rocktick.Scheduler.Env.{Env, seconds}
use rocktick.Scheduler.Tokens.{tenant_key}

-- The conditions on the lock, the execution, the region and the time.
abbrev pub is_open : String → Timestamp → ScheduledJob → Bool
is_open region now job =
    is_none job.lock_nonce
    && is_none job.execution_id
    && (str_eq job.region region && not (ltb_ℤ (now +ℤ seconds 3) job.scheduled_at)
        || not (ltb_ℤ (now -ℤ seconds 5) job.scheduled_at))

-- A row of the SELECT, without the columns of the signing key.
pub record LockedJob : Type 0 where
  pub job : ScheduledJob
  pub lock_nonce : ℤ
  pub tenant : Option Tenant
  pub request : HttpRequest

module _ {J : Type 0} (env : Env J) (region : String) where
  -- ORDER BY scheduled_at ASC, id ASC.
  abbrev pub earlier : ScheduledJob → ScheduledJob → Bool
  earlier a b =
      ltb_ℤ a.scheduled_at b.scheduled_at
      || eqb_ℤ a.scheduled_at b.scheduled_at && env.text_le a.id b.id

  abbrev pub is_active : Tenant → Bool
  is_active t = ltb_ℤ (pos 0) t.tokens && not (env.locked t.id)

  -- As many jobs of a tenant as it has tokens.
  abbrev pub tenant_candidates : List ScheduledJob → Tenant → List ScheduledJob
  tenant_candidates jobs t =
      take (pos_part t.tokens)
        (sort_by earlier (filter (λ j. is_text j.tenant_id t.id && is_open region env.now j) jobs))

  abbrev pub free_candidates : List ScheduledJob → List ScheduledJob
  free_candidates = filter (λ j. is_none j.tenant_id && is_open region env.now j)

  -- ORDER BY and LIMIT are those of the whole UNION ALL.
  unfoldable pub candidates : Db J → List ScheduledJob
  candidates db = take 100 (
      sort_by earlier (
        flat_map (tenant_candidates db.scheduled_jobs) (filter is_active db.tenants)
        ++ free_candidates db.scheduled_jobs))

  -- WHERE id IN candidate_ids, FOR UPDATE SKIP LOCKED.
  unfoldable pub is_taken : Db J → ScheduledJob → Bool
  is_taken db job = is_among scheduled_key (candidates db) job && not (env.locked job.id)

  abbrev pub lock_job : ScheduledJob → ScheduledJob
  lock_job j = record j {
    lock_nonce = some (epoch env.now);
    times_locked = j.times_locked +ℤ pos 1;
  }

  -- `count(*)` of the updated jobs of a tenant.
  abbrev pub used_tokens : Db J → String → ℤ
  used_tokens db id = pos (count (λ j. is_taken db j && is_text j.tenant_id id) db.scheduled_jobs)

  abbrev pub pay : Db J → Tenant → Tenant
  pay db t = record t { tokens = max_ℤ (pos 0) (t.tokens -ℤ used_tokens db t.id) }

  -- The UPDATEs: a tenant of no updated job has no row in `sub`.
  unfoldable pub lock_jobs : Db J → Db J
  lock_jobs db = record db {
    scheduled_jobs = update_where (is_taken db) lock_job db.scheduled_jobs;
    tenants = update_where (λ t. ltb_ℤ (pos 0) (used_tokens db t.id)) (pay db) db.tenants;
  }

  abbrev find_tenant : Db J → Option String → Option Tenant
  find_tenant db none = none
  find_tenant db (some id) = get_row tenant_key id db.tenants

  abbrev pub with_request : Db J → ScheduledJob → Option HttpRequest → List LockedJob
  with_request db j none = []
  with_request db j (some request) =
      record {
        job = j;
        lock_nonce = epoch env.now;
        tenant = find_tenant db j.tenant_id;
        request = request;
      }
      ∷ []

  -- JOIN http_requests, LEFT JOIN tenants.
  abbrev pub join_row : Db J → ScheduledJob → List LockedJob
  join_row db j = with_request db j (get_row request_key j.request_id db.http_requests)

  unfoldable pub handed_out : Db J → List LockedJob
  handed_out db = flat_map (join_row db) (
      sort_by (λ a b. not (ltb_ℤ b.scheduled_at a.scheduled_at))
        (filter (is_taken db) db.scheduled_jobs))
