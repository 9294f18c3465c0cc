-- ===== src/Broker/Unlock.antt =====
-- `run_job_cleanup_loop` of src/broker/job.rs: a lock that no report has ended in time is taken back
-- and its token given back. `now` is the start of the transaction, which is 15 seconds before the
-- statement. The FOR UPDATE of a WITH query names no table, so it locks and skips no row.
use rocktick.Prelude.{
  ℕ, ◌+◌, ◌≡◌, refl, sym, ap, ◌≤◌, ◌∙◌, ◌⊎◌, inl, inr, String, Bool, false, ◌&&◌, Option, none,
  some, arith, is_none, is_text, or_else, unwrap_or, if◌then◌else◌,
}
use mathlib.Core.Option
use rocktick.Prelude.Int.{ℤ, pos, negsuc, scale_ℤ, ltb_ℤ, min_ℤ, trunc_div, ◌+ℤ◌, ◌≤ℤ◌}
use rocktick.Prelude.Tables.{get_row, update_where, count}
use rocktick.Prelude.Updates.{get_row-update_where}
use rocktick.Prelude.Selections.{count-update_less, All-intro}
use rocktick.Db.Jobs.{Timestamp, Tenant, ScheduledJob}
use rocktick.Db.Tables.{Db}
use rocktick.Scheduler.Env.{seconds}
use rocktick.Scheduler.Tokens.{tenant_key}
use rocktick.Broker.Fair.{is_held, held, if_tokens}

abbrev pub unlock_job : ScheduledJob → ScheduledJob
unlock_job j = record j { lock_nonce = none }

refunded :
    (a m : ℤ) (u h : ℕ)
    → pos 0 ≤ℤ a
    → a ≤ℤ m
    → let left = if ltb_ℤ (pos 0) (pos u) then min_ℤ (a +ℤ pos u) m else a in
      (a ≤ℤ left)
      × (left ≤ℤ m)
      × ((left ≡ m) ⊎ (left +ℤ pos h ≡ a +ℤ pos (h + u)))
      × (left +ℤ pos h ≤ℤ a +ℤ pos (h + u))
unfolding ◌+ℤ◌
refunded (pos a) (pos m) u h p q = ground arith
refunded (pos a) (negsuc m) u h p q = absurd (omega arith)
refunded (negsuc a) m u h p q = absurd (omega arith)

module _ {J : Type 0} (now : Timestamp) where
  abbrev max_timeout_of : Db J → Option String → Option ℤ
  max_timeout_of db none = none
  max_timeout_of db (some id) =
      Option.map (λ (t : Tenant). t.max_timeout) (get_row tenant_key id db.tenants)

  -- When a lock with this nonce has lasted too long: its time limit and 90 seconds.
  abbrev pub deadline : Db J → ScheduledJob → ℤ → Timestamp
  deadline db job nonce =
      scale_ℤ 1_000_000 nonce
      +ℤ scale_ℤ 1_000_000 (
          trunc_div
            (unwrap_or (or_else job.timeout_ms (max_timeout_of db job.tenant_id)) (pos 120_000))
            1000)
      +ℤ seconds 90

  unfoldable pub is_expired : Db J → ScheduledJob → Bool
  is_expired db job = elim job.lock_nonce [
    | none ↦ false
    | some nonce ↦ is_none job.execution_id && ltb_ℤ (deadline db job nonce) now
  ]

  abbrev pub refund_tokens : Db J → String → ℕ
  refund_tokens db id = count (λ j. is_expired db j && is_text j.tenant_id id) db.scheduled_jobs

  abbrev pub refund : Db J → Tenant → Tenant
  refund db t = record t { tokens = min_ℤ (t.tokens +ℤ pos (refund_tokens db t.id)) t.max_tokens }

  unfoldable pub unlock : Db J → Db J
  unlock db = record db {
    scheduled_jobs = update_where (is_expired db) unlock_job db.scheduled_jobs;
    tenants =
        update_where (λ t. ltb_ℤ (pos 0) (pos (refund_tokens db t.id))) (refund db) db.tenants;
  }

  held-unlock : (db : Db J) (id : String) → held db id ≡ held (unlock db) id + refund_tokens db id
  unfolding unlock is_expired
  held-unlock db id = sym (
      count-update_less (is_held id) (is_expired db)
        (λ j. is_expired db j && is_text j.tenant_id id) unlock_job db.scheduled_jobs
        (All-intro _ db.scheduled_jobs (λ j. ground arith)))

  -- A tenant before and after: what is given back for the jobs that lose their lock fills its
  -- bucket at most, and nothing else in the row changes.
  abbrev pub Refunded : Db J → Db J → Tenant → Type 0
  Refunded db db' t =
      (t' : Tenant) × (get_row tenant_key t.id db'.tenants ≡ some t')
      × (t' ≡ record t { tokens = t'.tokens })
      × (t.tokens ≤ℤ t'.tokens)
      × (t'.tokens ≤ℤ t.max_tokens)
      × (held db' t.id ≤ held db t.id)
      × ((t'.tokens ≡ t.max_tokens)
          ⊎ (t'.tokens +ℤ pos (held db' t.id) ≡ t.tokens +ℤ pos (held db t.id)))
      × (t'.tokens +ℤ pos (held db' t.id) ≤ℤ t.tokens +ℤ pos (held db t.id))

  -- Where a tenant's tokens are within its bucket, taking back locks leaves them there. It gives
  -- back one token for each job of the tenant that loses its lock, or fills the bucket.
  pub unlock-Refunded :
      (db : Db J) (t : Tenant)
      → get_row tenant_key t.id db.tenants ≡ some t
      → pos 0 ≤ℤ t.tokens
      → t.tokens ≤ℤ t.max_tokens
      → Refunded db (unlock db) t
  unfolding unlock
  unlock-Refunded db t h p q =
      let u = refund_tokens db t.id in
      let left =
        if ltb_ℤ (pos 0) (pos u) then min_ℤ (t.tokens +ℤ pos u) t.max_tokens else t.tokens in
      let fewer = held-unlock db t.id in
      let sums = refunded t.tokens t.max_tokens u (held (unlock db) t.id) p q in
      let same = ap (λ n. t.tokens +ℤ pos n) (sym fewer) in
      let row =
        get_row-update_where tenant_key (λ x. ltb_ℤ (pos 0) (pos (refund_tokens db x.id)))
          (refund db) t.id db.tenants (λ x. refl) in
      (
        record t { tokens = left },
        row ∙ ap (Option.map _) h ∙ ap some (if_tokens t (ltb_ℤ (pos 0) (pos u)) _),
        refl,
        sums.0,
        sums.1,
        omega arith,
        elim sums.2 [ inl e ↦ inl e | inr e ↦ inr (e ∙ same) ],
        rw (← same) sums.3,
      )
