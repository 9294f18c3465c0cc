-- ===== src/Broker/States.antt =====
-- The life of a scheduled job in src/broker/job.rs, seen from its id: free, held under a nonce, or
-- done with an execution, and the updates of its row that go through these states.
use rocktick.Prelude.{
  ◌≡◌, ◌≢◌, eq_iff, refl, sym, ap, ◌∙◌, subst, String, Bool, true, ◌||◌, Option, none, some, List,
  [], ◌∷◌, All, arith, inl, inr, Bool-cases, Option-cases, is_none, is_some, str_eq, str_eq→≡,
  if◌then◌else◌,
}
use mathlib.Core.Option.{some-injective}
use rocktick.Prelude.Int.{ℤ, eqb_ℤ_iff}
use rocktick.Prelude.Tables.{get_row, update_where, UniqueKeys, key-get_row}
use rocktick.Prelude.Updates.{UniqueKeys-update_where, All-get_row, get_row-update_where}
use rocktick.Prelude.Selections.{Row}
use rocktick.Db.Jobs.{Timestamp, ScheduledJob, epoch}
use rocktick.Db.Tables.{Db, scheduled_key}
use rocktick.Scheduler.Env.{Env}
use rocktick.Broker.Record.{holds_lock}
use rocktick.Broker.HandOut.{is_taken, lock_job}
use rocktick.Broker.Fair.{taken-open}
use rocktick.Broker.Unlock.{is_expired, unlock_job}

pub data Life : Type 0 where
  absent free : Life
  held : ℤ → Life
  done : String → Life

-- An execution counts before a lock.
abbrev pub view_by : Option String → Option ℤ → Life
view_by (some e) _ = done e
view_by none (some n) = held n
view_by none none = free

abbrev pub view : ScheduledJob → Life
view j = view_by j.execution_id j.lock_nonce

abbrev view_of : Option ScheduledJob → Life
view_of none = absent
view_of (some j) = view j

abbrev pub life : String → List ScheduledJob → Life
life id t = view_of (get_row scheduled_key id t)

-- A transaction of the broker, as the jobs see it: a hand-out under a nonce, a clean-up, or the
-- report of an execution of the job that holds the nonce.
pub data Action : Type 0 where
  hand_out : ℤ → Action
  clean_up : Action
  report : String → ℤ → String → Action

-- What the broker promises of the job with an id. A report changes its own job, which must hold the
-- nonce that is named, and no other.
pub data LifeStep : Action → String → Life → Life → Type 0 where
  not_taken : (n : ℤ) (id : String) (l : Life) → LifeStep (hand_out n) id l l
  is_locked : (n : ℤ) (id : String) → LifeStep (hand_out n) id free (held n)
  not_expired : (id : String) (l : Life) → LifeStep clean_up id l l
  is_unlocked : (id : String) (n : ℤ) → LifeStep clean_up id (held n) free
  is_other :
      (job : String) (n : ℤ) (e : String) (id : String) (l : Life)
      → id ≢ job
      → LifeStep (report job n e) id l l
  is_executed :
      (job : String) (n : ℤ) (e : String) → LifeStep (report job n e) job (held n) (done e)

-- The steps of a job under a sequence of actions, the last one first.
pub data LifeSteps (id : String) (a : Life) : List Action → Life → Type 0 where
  start : LifeSteps id a [] a
  then_step :
      {b c : Life} {x : Action} {xs : List Action}
      → LifeSteps id a xs b
      → LifeStep x id b c
      → LifeSteps id a (x ∷ xs) c

-- An executed job holds no lock.
abbrev pub is_settled : ScheduledJob → Bool
is_settled j = is_none j.lock_nonce || is_none j.execution_id

abbrev pub Settled : List ScheduledJob → Type 0
Settled t = UniqueKeys scheduled_key t × All (λ j. is_settled j ≡ true) t

-- What one transaction does to the table of jobs.
abbrev pub Refines : Action → List ScheduledJob → List ScheduledJob → Type 0
Refines a t t' = Settled t' × ((id : String) → LifeStep a id (life id t) (life id t'))

module _ (a : Action) (p : ScheduledJob → Bool) (f : ScheduledJob → ScheduledJob) where
  abbrev pub changed : ScheduledJob → ScheduledJob
  changed x = if p x then f x else x

  -- A row that an update keeps well.
  abbrev pub Good : ScheduledJob → Type 0
  Good x = (is_settled (changed x) ≡ true) × LifeStep a x.id (view x) (view (changed x))

  All-changed :
      (t : List ScheduledJob) → All Good t → All (λ j. is_settled j ≡ true) (update_where p f t)
  unfolding update_where
  All-changed [] g = tt
  All-changed (x ∷ t) g = (g.0.0, All-changed t g.1)

  pub update-Refines :
      (t : List ScheduledJob)
      → ((x : ScheduledJob) → (f x).id ≡ x.id)
      → UniqueKeys scheduled_key t
      → ((id : String) → get_row scheduled_key id t ≡ none → LifeStep a id absent absent)
      → All Good t
      → Refines a t (update_where p f t)
  update-Refines t same u unknown g = (
    (UniqueKeys-update_where scheduled_key p f t same u, All-changed t g),
    λ id.
        let e = get_row-update_where scheduled_key p f id t same in
        elim (Option-cases (get_row scheduled_key id t)) [
          | inl n ↦ rw e (rw n (unknown id n))
          | inr (x, s) ↦
              let named = key-get_row scheduled_key id t x s in
              rw e (
                rw s (
                  subst (λ k. LifeStep a k (view x) (view (changed x))) named
                    (All-get_row scheduled_key Good id t x g s).1))
        ],
  )

lock_lem :
    (o : Option String) (l : Option ℤ) (n : ℤ) (id : String)
    → is_none o ≡ true
    → is_none l ≡ true
    → LifeStep (hand_out n) id (view_by o l) (view_by o (some n))
lock_lem none none n id p q = is_locked n id
lock_lem none (some m) n id p q = cc
lock_lem (some e) l n id p q = cc

unlock_lem :
    (o : Option String) (l : Option ℤ) (id : String)
    → is_none o ≡ true
    → is_some l ≡ true
    → LifeStep clean_up id (view_by o l) (view_by o none)
unlock_lem none (some m) id p q = is_unlocked id m
unlock_lem none none id p q = cc
unlock_lem (some e) l id p q = cc

finish_lem :
    (o : Option String) (l : Option ℤ) (n : ℤ) (id e : String)
    → l ≡ some n
    → (is_none l || is_none o) ≡ true
    → LifeStep (report id n e) id (view_by o l) (done e)
finish_lem none l n id e p q = rw p (is_executed id n e)
finish_lem (some d) none n id e p q = cc
finish_lem (some d) (some m) n id e p q = cc

holds_lock-some : (n : ℤ) (x : ScheduledJob) → holds_lock n x ≡ true → x.lock_nonce ≡ some n
holds_lock-some n x h = elim (Option-cases x.lock_nonce) [
  | inl e ↦ absurd (ground arith)
  | inr (m, e) ↦ ground (arith, e, eqb_ℤ_iff m n)
]

module _ {J : Type 0} (db : Db J) (x : ScheduledJob) (s : is_settled x ≡ true) where
  pub Good-lock :
      (env : Env J) (region : String)
      → UniqueKeys scheduled_key db.scheduled_jobs
      → Row scheduled_key db.scheduled_jobs x
      → Good (hand_out (epoch env.now)) (is_taken env region db) (lock_job env region) x
  Good-lock env region u r = elim (Bool-cases (is_taken env region db x)) [
    | inr e ↦ rw e (s, not_taken _ x.id (view x))
    | inl e ↦
        let was_open = taken-open env region db x u r e in
        rw e (
          ground (arith, was_open),
          lock_lem x.execution_id x.lock_nonce _ x.id (ground (arith, was_open))
              (ground (arith, was_open)),
        )
  ]

  expired_held :
      (now : Timestamp)
      → is_expired now db x ≡ true
      → (is_none x.execution_id ≡ true) × (is_some x.lock_nonce ≡ true)
  unfolding is_expired
  expired_held now e = ground arith

  pub Good-unlock : (now : Timestamp) → Good clean_up (is_expired now db) unlock_job x
  Good-unlock now = elim (Bool-cases (is_expired now db x)) [
    | inr e ↦ rw e (s, not_expired x.id (view x))
    | inl e ↦
        let (not_done, locked) = expired_held now e in
        rw e (refl, unlock_lem x.execution_id x.lock_nonce x.id not_done locked)
  ]

  pub Good-finish :
      (job : ScheduledJob) (nonce : ℤ) (id e : String)
      → Row scheduled_key db.scheduled_jobs x
      → get_row scheduled_key job.id db.scheduled_jobs ≡ some job
      → job.id ≡ id
      → holds_lock nonce job ≡ true
      → Good
          (report id nonce e)
          (λ j. str_eq j.id job.id)
          (λ j. record j { execution_id = some e; lock_nonce = none })
          x
  Good-finish job nonce id e r found named h = elim (Bool-cases (str_eq x.id job.id)) [
    | inr f ↦
        let other : x.id ≢ id = λ q. ground (arith, eq_iff x.id job.id, q, named, f) in
        rw f (s, is_other id nonce e x.id (view x) other)
    | inl f ↦
        let same = str_eq→≡ x.id job.id f in
        let me : x ≡ job =
          some-injective x job
            (sym r ∙ ap (λ k. get_row scheduled_key k db.scheduled_jobs) same ∙ found) in
        let locked = holds_lock-some nonce x (subst (λ y. holds_lock nonce y ≡ true) (sym me) h) in
        let step = finish_lem x.execution_id x.lock_nonce nonce x.id e locked s in
        rw f (
          refl,
          subst (λ k. LifeStep (report k nonce e) x.id (view x) (done e)) (same ∙ named) step,
        )
  ]
