-- ===== src/Broker/Fair.antt =====
-- What holds of the jobs that src/broker/job.rs hands out, and of the tokens that they cost.
use rocktick.Prelude.{
  ℕ, ◌+◌, ◌≤◌, ◌≡◌, ◌≢◌, refl, ap, ◌∙◌, subst, String, Bool, true, false, not, ◌&&◌, Option, none,
  some, List, [], ◌∷◌, ◌++◌, All, All-map, All-filter, All-sort_by, arith, filter, sort_by, inl,
  inr, Bool-cases, &&_left, &&_right, is_some, is_none, is_text, str_eq, str_eq→≡, eq_iff,
  if◌then◌else◌,
}
use mathlib.Core.Option
use rocktick.Prelude.Int.{ℤ, pos, negsuc, pos_part, max_ℤ, ◌+ℤ◌, ◌-ℤ◌, ◌≤ℤ◌, ltb_ℤ}
use rocktick.Prelude.Tables.{get_row, UniqueKeys, count}
use rocktick.Prelude.Updates.{get_row-update_where}
use rocktick.Prelude.Selections.{
  flat_map, length-take-le, All-take, count-take-le, count-length, count-++, All-++,
  count-All_false, All-flat_map, count-sort_by, Row, All-Row, is_among, count-among-le, among-Row,
  count-update_by, All-intro,
}
use rocktick.Prelude.Counts.{count-le}
use rocktick.Db.Jobs.{Tenant, ScheduledJob}
use rocktick.Db.Tables.{Db, scheduled_key}
use rocktick.Scheduler.Env.{Env}
use rocktick.Scheduler.Tokens.{tenant_key}
use rocktick.Broker.HandOut.{
  is_open, earlier, is_active, tenant_candidates, free_candidates, candidates, is_taken, lock_job,
  used_tokens, pay, lock_jobs,
}

abbrev of_tenant : String → ScheduledJob → Bool
of_tenant id j = is_text j.tenant_id id

is_text_other :
    (o : Option String) (a b : String) → is_text o a ≡ true → a ≢ b → is_text o b ≡ false
is_text_other none a b h ne = refl
is_text_other (some s) a b h ne = ground (arith, eq_iff s a, eq_iff s b)

-- The jobs of a tenant that hold a lock.
abbrev pub is_held : String → ScheduledJob → Bool
is_held id j = of_tenant id j && is_some j.lock_nonce

abbrev pub held : {J : Type 0} → Db J → String → ℕ
held db id = count (is_held id) db.scheduled_jobs

pub if_tokens :
    (t : Tenant) (b : Bool) (n : ℤ)
    → (if b then record t { tokens = n } else t) ≡ record t { tokens = if b then n else t.tokens }
if_tokens t true n = refl
if_tokens t false n = refl

paid :
    (a : ℤ) (u h : ℕ)
    → pos 0 ≤ℤ a
    → u ≤ pos_part a
    → let left = if ltb_ℤ (pos 0) (pos u) then max_ℤ (pos 0) (a -ℤ pos u) else a in
      (pos 0 ≤ℤ left) × (left +ℤ pos (h + u) ≡ a +ℤ pos h)
unfolding ◌+ℤ◌ ◌-ℤ◌
paid (pos a) u h p q = ground arith
paid (negsuc a) u h p q = absurd (omega arith)

module _ {J : Type 0} (env : Env J) (region : String) where
  -- Any property of the rows that the WHERE clauses keep holds of the candidates.
  candidates-All {κ} :
      (P : ScheduledJob → Type κ) (db : Db J)
      → All (λ j. is_open region env.now j ≡ true → P j) db.scheduled_jobs
      → All P (candidates env region db)
  unfolding candidates
  candidates-All P db a = All-take P 100 _ (
      All-sort_by (earlier env region) P _ (
        All-++ P _ _
          (All-flat_map P (tenant_candidates env region db.scheduled_jobs) _ (λ t.
            All-take P (pos_part t.tokens) _ (
              All-sort_by (earlier env region) P _ (
                All-filter _ P _ db.scheduled_jobs
                  (λ j i h. i (&&_right (is_text j.tenant_id t.id) (is_open region env.now j) h))
                  a))))
          (All-filter _ P _ db.scheduled_jobs
            (λ j i h. i (&&_right (is_none j.tenant_id) (is_open region env.now j) h)) a)))

  -- A job that is taken was open.
  pub taken-open :
      (db : Db J) (j : ScheduledJob)
      → UniqueKeys scheduled_key db.scheduled_jobs
      → Row scheduled_key db.scheduled_jobs j
      → is_taken env region db j ≡ true
      → is_open region env.now j ≡ true
  unfolding is_taken
  taken-open db j u r h =
      among-Row scheduled_key (λ c. is_open region env.now c ≡ true) db.scheduled_jobs
        (candidates env region db) j r
        (candidates-All _ db
          (All-map _ _ db.scheduled_jobs (λ x y o. y) (All-Row scheduled_key db.scheduled_jobs u)))
        (candidates-All _ db (All-intro _ db.scheduled_jobs (λ x o. o)))
        (&&_left (is_among scheduled_key (candidates env region db) j) (not (env.locked j.id)) h)

  -- The jobs of a tenant among the candidates of another.
  candidates_of_other :
      (jobs : List ScheduledJob) (id : String) (t : Tenant)
      → t.id ≢ id
      → count (of_tenant id) (tenant_candidates env region jobs t) ≡ 0
  candidates_of_other jobs id t ne = count-All_false _ _ (
      All-take _ (pos_part t.tokens) _ (
        All-sort_by (earlier env region) _ _ (
          All-filter (λ j. Unit {0}) _ _ jobs
            (λ j i h.
              is_text_other j.tenant_id t.id id
                (&&_left (is_text j.tenant_id t.id) (is_open region env.now j) h) ne)
            (All-intro _ jobs (λ j. tt)))))

  candidates_of_own :
      (jobs : List ScheduledJob) (id : String) (t : Tenant)
      → count (of_tenant id) (tenant_candidates env region jobs t) ≤ pos_part t.tokens
  candidates_of_own jobs id t = omega (
    arith,
    count-length (of_tenant id) (tenant_candidates env region jobs t),
    length-take-le (pos_part t.tokens) (
        sort_by (earlier env region)
          (filter (λ j. is_text j.tenant_id t.id && is_open region env.now j) jobs)),
  )

  lateral_absent :
      (jobs : List ScheduledJob) (id : String) (ts : List Tenant)
      → get_row tenant_key id ts ≡ none
      → count
          (of_tenant id)
          (flat_map (tenant_candidates env region jobs) (filter (is_active env region) ts))
        ≡ 0
  unfolding get_row filter flat_map count
  lateral_absent jobs id [] h = refl
  lateral_absent jobs id (x ∷ ts) h =
      let rest = lateral_absent jobs id ts (ground arith) in
      let other = candidates_of_other jobs id x (ground (arith, eq_iff x.id id)) in
      elim (Bool-cases (is_active env region x)) [
        | inl e ↦ rw e (rw count-++ (omega arith))
        | inr e ↦ rw e rest
      ]

  lateral-le :
      (jobs : List ScheduledJob) (id : String) (ts : List Tenant) (t : Tenant)
      → UniqueKeys tenant_key ts
      → get_row tenant_key id ts ≡ some t
      → count
          (of_tenant id)
          (flat_map (tenant_candidates env region jobs) (filter (is_active env region) ts))
        ≤ pos_part t.tokens
  unfolding get_row filter flat_map count
  lateral-le jobs id [] t u h = cc
  lateral-le jobs id (x ∷ ts) t u h = elim (Bool-cases (str_eq x.id id)) [
    | inl e ↦
        let same = str_eq→≡ x.id id e in
        let here : x ≡ t = ground arith in
        let gone =
          lateral_absent jobs id ts (subst (λ k. get_row tenant_key k ts ≡ none) same u.0) in
        let own = candidates_of_own jobs id x in
        elim (Bool-cases (is_active env region x)) [
          | inl f ↦ rw f (rw count-++ (omega (arith, ap (λ (y : Tenant). pos_part y.tokens) here)))
          | inr f ↦ rw f (omega arith)
        ]
    | inr e ↦
        let rest = lateral-le jobs id ts t u.1 (ground arith) in
        let other = candidates_of_other jobs id x (ground (arith, eq_iff x.id id)) in
        elim (Bool-cases (is_active env region x)) [
          | inl f ↦ rw f (rw count-++ (omega arith))
          | inr f ↦ rw f rest
        ]
  ]

  free_candidates_of :
      (jobs : List ScheduledJob) (id : String)
      → count (of_tenant id) (free_candidates env region jobs) ≡ 0
  free_candidates_of jobs id = count-All_false _ _ (
      All-filter (λ j. Unit {0}) _ _ jobs
        (λ j i h.
          none_is_other j.tenant_id (&&_left (is_none j.tenant_id) (is_open region env.now j) h))
        (All-intro _ jobs (λ j. tt)))
    where
      none_is_other : (o : Option String) → is_none o ≡ true → is_text o id ≡ false
      none_is_other none h = refl
      none_is_other (some a) h = cc

  candidates-le :
      (db : Db J) (id : String) (t : Tenant)
      → UniqueKeys tenant_key db.tenants
      → get_row tenant_key id db.tenants ≡ some t
      → count (of_tenant id) (candidates env region db) ≤ pos_part t.tokens
  unfolding candidates
  candidates-le db id t u h =
      let lateral =
        flat_map (tenant_candidates env region db.scheduled_jobs)
          (filter (is_active env region) db.tenants) in
      let all = lateral ++ free_candidates env region db.scheduled_jobs in
      omega (
        arith,
        count-take-le (of_tenant id) 100 (sort_by (earlier env region) all),
        count-sort_by (earlier env region) (of_tenant id) all,
        count-++ (of_tenant id) lateral (free_candidates env region db.scheduled_jobs),
        free_candidates_of db.scheduled_jobs id,
        lateral-le db.scheduled_jobs id db.tenants t u h,
      )

  -- No tenant has more jobs taken than it has tokens.
  taken-le :
      (db : Db J) (id : String) (t : Tenant)
      → UniqueKeys scheduled_key db.scheduled_jobs
      → UniqueKeys tenant_key db.tenants
      → get_row tenant_key id db.tenants ≡ some t
      → count (λ j. is_taken env region db j && of_tenant id j) db.scheduled_jobs
        ≤ pos_part t.tokens
  unfolding is_taken
  taken-le db id t uj ut h = omega (
    arith,
    count-le (λ j. is_among scheduled_key (candidates env region db) j && of_tenant id j)
        (λ j. is_taken env region db j && of_tenant id j) (λ j e. ground (arith, e))
        db.scheduled_jobs,
    count-among-le scheduled_key (of_tenant id) db.scheduled_jobs (candidates env region db) uj (
        candidates-All _ db (
          All-map _ _ db.scheduled_jobs (λ x y o. y) (All-Row scheduled_key db.scheduled_jobs uj))),
    candidates-le db id t ut h,
  )

  held-lock_jobs :
      (db : Db J) (id : String)
      → UniqueKeys scheduled_key db.scheduled_jobs
      → held (lock_jobs env region db) id
        ≡ held db id + count (λ j. is_taken env region db j && of_tenant id j) db.scheduled_jobs
  unfolding lock_jobs
  held-lock_jobs db id u =
      count-update_by (is_held id) (is_taken env region db)
        (λ j. is_taken env region db j && of_tenant id j) (lock_job env region) db.scheduled_jobs
        (All-map _ _ db.scheduled_jobs (λ j r. ground (arith, taken-open db j u r))
          (All-Row scheduled_key db.scheduled_jobs u))

  -- A tenant before and after: its locked jobs and its tokens together stay as many, no token is
  -- owed, and nothing else in the row changes.
  abbrev pub Paid : Db J → Db J → Tenant → Type 0
  Paid db db' t =
      (t' : Tenant) × (get_row tenant_key t.id db'.tenants ≡ some t')
      × (t' ≡ record t { tokens = t'.tokens })
      × (pos 0 ≤ℤ t'.tokens)
      × (t'.tokens +ℤ pos (held db' t.id) ≡ t.tokens +ℤ pos (held db t.id))

  -- Where ids are unique and a tenant owes no tokens, handing out jobs takes exactly one of its
  -- tokens for each job of it that becomes locked, and never more than it has.
  pub lock_jobs-Paid :
      (db : Db J) (t : Tenant)
      → UniqueKeys scheduled_key db.scheduled_jobs
      → UniqueKeys tenant_key db.tenants
      → get_row tenant_key t.id db.tenants ≡ some t
      → pos 0 ≤ℤ t.tokens
      → Paid db (lock_jobs env region db) t
  unfolding lock_jobs
  lock_jobs-Paid db t uj ut h p =
      let u = count (λ j. is_taken env region db j && of_tenant t.id j) db.scheduled_jobs in
      let sums = paid t.tokens u (held db t.id) p (taken-le db t.id t uj ut h) in
      let left = if ltb_ℤ (pos 0) (pos u) then max_ℤ (pos 0) (t.tokens -ℤ pos u) else t.tokens in
      let row =
        get_row-update_where tenant_key (λ x. ltb_ℤ (pos 0) (used_tokens env region db x.id))
          (pay env region db) t.id db.tenants (λ x. refl) in
      (
        record t { tokens = left },
        row ∙ ap (Option.map _) h ∙ ap some (if_tokens t (ltb_ℤ (pos 0) (pos u)) _),
        refl,
        sums.0,
        ap (λ n. left +ℤ pos n) (held-lock_jobs db t.id uj) ∙ sums.1,
      )
