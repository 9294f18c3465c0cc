-- ===== src/Scheduler/Tokens.antt =====
-- src/scheduler/tenants/tokens.rs: the tokens of a tenant, a bucket that is filled in steps. A month
-- of the period is not read, as in the code; the sum of two `i32` wraps.
use rocktick.Prelude.{
  ℕ, ◌+◌, ◌<◌, ◌^◌, ◌≡◌, ◌≢◌, refl, ap, ◌∙◌, String, Bool, true, false, not, ◌&&◌, none, some, List,
  All, arith, find, inl, inr, &&_left, &&_right, Option-cases, find-test, find-none, All-map,
  if◌then◌else◌, str_eq,
}
use rocktick.Prelude.Int.{
  ℤ, pos, negsuc, pos_part, ◌+ℤ◌, ◌-ℤ◌, ◌≤ℤ◌, ltb_ℤ, eqb_ℤ, min_ℤ, max_ℤ, scale_ℤ, wrap_i32,
  wrap_i32-pos,
}
use rocktick.Prelude.Tables.{get_row, update_where, UniqueKeys, get_row-find}
use rocktick.Prelude.Updates.{All-update_key, UniqueKeys-update_where, All-get_row}
use rocktick.Prelude.Counts.{total, total-update_where}
use rocktick.Db.Jobs.{Tenant, Interval, Timestamp}
use rocktick.Scheduler.Env.{seconds}
use rocktick.Scheduler.Run.{
  Run, committed, reached_end, failed, scheduling_loop, Drains, Rests, scheduling_loop-Rests,
  Worker, idle, broken, running,
}

abbrev pub tenant_key : Tenant → String
tenant_key t = t.id

-- WHERE next_increment < now() AND tokens < max_tokens.
abbrev pub is_due : Timestamp → Tenant → Bool
is_due now t = ltb_ℤ t.next_increment now && ltb_ℤ t.tokens t.max_tokens

abbrev pub new_tokens : Tenant → ℤ
new_tokens t = min_ℤ (wrap_i32 (t.tokens +ℤ t.increment)) t.max_tokens

abbrev pub period_delta : Interval → ℤ
period_delta p = scale_ℤ 86_400_000_000 p.days +ℤ p.microseconds

unfoldable pub next_time : Timestamp → Tenant → Timestamp
next_time now t =
    if eqb_ℤ (new_tokens t) t.max_tokens
    then now +ℤ max_ℤ (seconds 300) (period_delta t.period)
    else if ltb_ℤ (seconds 300) (now -ℤ t.next_increment)
    then now +ℤ period_delta t.period
    else t.next_increment +ℤ period_delta t.period

-- UPDATE tenants SET tokens = $2, next_increment = $3 WHERE id = $1.
abbrev pub set_tokens : ℤ → Timestamp → String → List Tenant → List Tenant
set_tokens tokens time id =
    update_where (λ t. str_eq t.id id) (λ t. record t { tokens = tokens; next_increment = time })

-- `now` is the start of the transaction, `utc_now` the clock of the worker.
unfoldable pub run_once : Timestamp → Timestamp → (String → Bool) → List Tenant → Run (List Tenant)
run_once now utc_now locked tenants = elim (find (λ t. is_due now t && not (locked t.id)) tenants) [
  | none ↦ reached_end
  | some t ↦ committed (set_tokens (new_tokens t) (next_time utc_now t) t.id tenants)
]

-- Tokens in their bounds, a step that adds some, and a sum that a 32-bit integer holds.
abbrev pub TenantOk : Tenant → Type 0
TenantOk t =
    (pos 0 ≤ℤ t.tokens)
    × (t.tokens ≤ℤ t.max_tokens)
    × (pos 1 ≤ℤ t.increment)
    × (pos_part t.max_tokens + pos_part t.increment < 2 ^ 31)

abbrev pub missing : Tenant → ℕ
missing t = pos_part (t.max_tokens -ℤ t.tokens)

+ℤ-pos : (a i : ℕ) → pos a +ℤ pos i ≡ pos (a + i)
unfolding ◌+ℤ◌
+ℤ-pos a i = ground arith

-- A capped sum lies between the old value, which it exceeds, and the cap.
capped_sum :
    (a m i : ℤ)
    → pos 0 ≤ℤ a
    → pos 1 ≤ℤ i
    → pos_part m + pos_part i < 2 ^ 31
    → ltb_ℤ a m ≡ true
    → let n = min_ℤ (wrap_i32 (a +ℤ i)) m in
      (pos 0 ≤ℤ n) × (n ≤ℤ m) × (pos_part (m -ℤ n) < pos_part (m -ℤ a))
unfolding ◌+ℤ◌ ◌-ℤ◌
capped_sum (pos a) (pos m) (pos i) p q r h =
    rw (ap wrap_i32 (+ℤ-pos a i) ∙ wrap_i32-pos (a + i) (ground arith)) (ground arith)
capped_sum (negsuc a) m i p q r h = absurd (ground arith)
capped_sum (pos a) (negsuc m) i p q r h = absurd (ground arith)
capped_sum (pos a) (pos m) (negsuc i) p q r h = absurd (ground arith)

-- The row that a committed run fills.
run_once-picks :
    (now utc_now : Timestamp) (locked : String → Bool) (ts ts' : List Tenant)
    → UniqueKeys tenant_key ts
    → run_once now utc_now locked ts ≡ committed ts'
    → (t : Tenant) × (get_row tenant_key t.id ts ≡ some t)
      × (is_due now t ≡ true)
      × (ts' ≡ set_tokens (new_tokens t) (next_time utc_now t) t.id ts)
unfolding run_once
run_once-picks now utc_now locked ts ts' u h =
    elim (Option-cases (find (λ t. is_due now t && not (locked t.id)) ts)) [
      | inl e ↦ absurd (ground arith)
      | inr (t, e) ↦
          let due = find-test (λ t. is_due now t && not (locked t.id)) ts t e in
          (
            t,
            get_row-find tenant_key (λ t. is_due now t && not (locked t.id)) ts t u e,
            &&_left (is_due now t) (not (locked t.id)) due,
            ground arith,
          )
    ]

-- What the UPDATE makes of a row.
abbrev fill : Timestamp → Tenant → Tenant → Tenant
fill utc_now t x = record x { tokens = new_tokens t; next_increment = next_time utc_now t }

abbrev filled : Timestamp → Tenant → Tenant
filled utc_now t = fill utc_now t t

abbrev pub Bucket : List Tenant → Type 0
Bucket ts = UniqueKeys tenant_key ts × All TenantOk ts

-- A committed run on buckets within their bounds, with unique ids and positive increments whose
-- sums have 32 bits, keeps all that, and the tokens that are missing from all buckets become fewer.
pub fill-Bucket :
    (now utc_now : Timestamp) (locked : String → Bool) (ts ts' : List Tenant)
    → Bucket ts
    → run_once now utc_now locked ts ≡ committed ts'
    → Bucket ts' × (total missing ts' < total missing ts)
fill-Bucket now utc_now locked ts ts' (u, ok) h =
    let (t, here, due, e) = run_once-picks now utc_now locked ts ts' u h in
    let mine = All-get_row tenant_key TenantOk t.id ts t ok here in
    let below : ltb_ℤ t.tokens t.max_tokens ≡ true =
      &&_right (ltb_ℤ t.next_increment now) (ltb_ℤ t.tokens t.max_tokens) due in
    let (low, high, fewer) =
      capped_sum t.tokens t.max_tokens t.increment mine.0 mine.2 mine.3 below in
    let grown : TenantOk (filled utc_now t) = (low, high, mine.2, mine.3) in
    let sums = total-update_where tenant_key missing t.id (fill utc_now t) ts t u here in
    (
      rw e (
        UniqueKeys-update_where tenant_key (λ x. str_eq x.id t.id) (fill utc_now t) ts (λ x. refl)
            u,
        All-update_key tenant_key TenantOk t.id (fill utc_now t) ts t u here grown ok,
      ),
      rw e (omega arith),
    )

module _ (now utc_now : Timestamp) where
  abbrev none_locked : String → Bool
  none_locked _ = false

  abbrev fill_all : List Tenant → Run (List Tenant)
  fill_all = run_once now utc_now none_locked

  fill-Drains : Drains fill_all Bucket (total missing)
  unfolding run_once
  fill-Drains = record {
    keeps = λ ts ts' b h. (fill-Bucket now utc_now none_locked ts ts' b h).0;
    falls = λ ts ts' b h. (fill-Bucket now utc_now none_locked ts ts' b h).1;
    commits = λ ts ts' b. ground arith;
  }

  -- The worker sleeps, with all buckets in their bounds and none that is due.
  abbrev pub Filled : Worker (List Tenant) → Type 0
  Filled (idle ts) = Bucket ts × All (λ t. is_due now t ≡ false) ts
  Filled (broken ts) = ⊥
  Filled (running ts) = ⊥

  not_failed : (ts : List Tenant) → fill_all ts ≢ failed
  unfolding run_once
  not_failed ts = ground arith

  not_due : (ts : List Tenant) → fill_all ts ≡ reached_end → All (λ t. is_due now t ≡ false) ts
  unfolding run_once
  not_due ts h = elim (Option-cases (find (λ t. is_due now t && not (none_locked t.id)) ts)) [
    | inl e ↦ All-map _ _ ts (λ t f. ground (arith, f)) (find-none _ ts e)
    | inr (t, e) ↦ absurd (ground arith)
  ]

  Rests-Filled : (w : Worker (List Tenant)) → Rests fill_all Bucket w → Filled w
  Rests-Filled (idle ts) (b, e) = (b, not_due ts e)
  Rests-Filled (broken ts) (b, e) = absurd (not_failed ts e)
  Rests-Filled (running ts) r = r

  -- With more rounds than there are missing tokens, and no lock held by others, the worker stops on
  -- no error and sleeps; all buckets are then within their bounds, and none is due at the time of
  -- the runs. At the start the ids are unique, each bucket is within its bounds, and its increment
  -- is positive and gives a sum of 32 bits.
  pub scheduling_loop-Filled :
      (ts : List Tenant)
      → Bucket ts
      → (n : ℕ) → total missing ts < n
      → Filled (scheduling_loop fill_all n ts)
  scheduling_loop-Filled ts b n h =
      Rests-Filled _ (scheduling_loop-Rests fill_all Bucket (total missing) fill-Drains n ts b h)
