-- ===== src/Scheduler/Jobs/CronTimes.antt =====
-- The times for which src/scheduler/jobs/cron.rs schedules the jobs of a cron job in one run.
use rocktick.Prelude.{
  if◌then◌else◌, String, ◌⊎◌, All, All-map, is_text, is_none, unwrap_or, ℕ, zero, refl, suc, ◌+◌,
  ◌≤◌, ◌≡◌, Bool, true, false, ◌&&◌, Option, none, some, List, [], ◌∷◌, arith, ltb, inl, inr,
  Bool-cases, length,
}
use rocktick.Prelude.Int.{◌-ℤ◌, ◌≤ℤ◌, ltb_ℤ, max_ℤ}
use rocktick.Db.Jobs.{Timestamp, ScheduledJob}
use rocktick.Scheduler.Env.{seconds}
use rocktick.Scheduler.Jobs.Cron.{take, pick_times, latest_scheduled}

-- All times but the last lie at most 15 minutes ahead.
abbrev pub Soon : Timestamp → List Timestamp → Type 0
Soon now [] = Unit
Soon now (t ∷ []) = Unit
Soon now (t ∷ u ∷ ts) = (ltb_ℤ (seconds 900) (t -ℤ now) ≡ false) × Soon now (u ∷ ts)

pub pick_times-length :
    (now : Timestamp) (n : ℕ) (ts : List Timestamp) → n ≤ 60 → length (pick_times now n ts) + n ≤ 61
unfolding pick_times
pick_times-length now n [] h = omega arith
pick_times-length now n (t ∷ ts) h = elim (Bool-cases (ltb 60 (suc n))) [
  | inl e ↦ ground (arith, e)
  | inr e ↦ ground (arith, e, pick_times-length now (suc n) ts)
]

Soon-cons :
    (now t : Timestamp) (ts : List Timestamp)
    → ltb_ℤ (seconds 900) (t -ℤ now) ≡ false
    → Soon now ts
    → Soon now (t ∷ ts)
Soon-cons now t [] h s = tt
Soon-cons now t (u ∷ ts) h s = (h, s)

pub pick_times-Soon :
    (now : Timestamp) (n : ℕ) (ts : List Timestamp) → Soon now (pick_times now n ts)
unfolding pick_times
pick_times-Soon now n [] = tt
pick_times-Soon now n (t ∷ ts) = elim (Bool-cases (ltb_ℤ (seconds 900) (t -ℤ now))) [
  | inl e ↦ rw e tt
  | inr e ↦ elim (Bool-cases (ltb 60 (suc n))) [
    | inl f ↦ rw (e, f) tt
    | inr f ↦
        rw (e, f) (Soon-cons now t (pick_times now (suc n) ts) e (pick_times-Soon now (suc n) ts))
  ]
]

-- The first times of a list.
abbrev pub Prefix : List Timestamp → List Timestamp → Type 0
Prefix [] us = Unit
Prefix (t ∷ ts) [] = ⊥
Prefix (t ∷ ts) (u ∷ us) = (t ≡ u) × Prefix ts us

pub pick_times-Prefix :
    (now : Timestamp) (n : ℕ) (ts : List Timestamp) → Prefix (pick_times now n ts) ts
unfolding pick_times
pick_times-Prefix now n [] = tt
pick_times-Prefix now n (t ∷ ts) = elim (Bool-cases (ltb_ℤ (seconds 900) (t -ℤ now))) [
  | inl e ↦ rw e (refl, tt)
  | inr e ↦ elim (Bool-cases (ltb 60 (suc n))) [
    | inl f ↦ rw (e, f) (refl, tt)
    | inr f ↦ rw (e, f) (refl, pick_times-Prefix now (suc n) ts)
  ]
]

pub Prefix-take : (n : ℕ) (xs ts : List Timestamp) → Prefix xs (take n ts) → Prefix xs ts
unfolding take
Prefix-take n [] ts h = tt
Prefix-take zero (x ∷ xs) ts h = elim h [ ]
Prefix-take (suc n) (x ∷ xs) [] h = elim h [ ]
Prefix-take (suc n) (x ∷ xs) (t ∷ ts) h = (h.0, Prefix-take n xs ts h.1)

-- A job of another cron job, a retry, or one not later than a time.
abbrev pub NotAfter : String → Timestamp → ScheduledJob → Type 0
NotAfter id start s =
    (is_text s.cron_job_id id && is_none s.retry_for_id ≡ false) ⊎ (s.scheduled_at ≤ℤ start)

NotAfter-le :
    (id : String) (a b : Timestamp) (s : ScheduledJob) → NotAfter id a s → a ≤ℤ b → NotAfter id b s
NotAfter-le id a b s (inl e) le = inl e
NotAfter-le id a b s (inr e) le = inr (omega arith)

abbrev pub start_of : Option Timestamp → Timestamp → Timestamp
start_of latest now = max_ℤ (unwrap_or latest now) now

-- One row more, which counts or does not.
start_of-ge :
    (counts : Bool) (latest : Option Timestamp) (at now : Timestamp)
    → let more = if counts then some (max_ℤ at (unwrap_or latest at)) else latest in
      (start_of latest now ≤ℤ start_of more now) × ((counts ≡ false) ⊎ (at ≤ℤ start_of more now))
start_of-ge false latest at now = (omega arith, inl refl)
start_of-ge true none at now = (ground arith, inr (ground arith))
start_of-ge true (some u) at now = (ground arith, inr (ground arith))

pub latest_scheduled-ge :
    (id : String) (now : Timestamp) (t : List ScheduledJob)
    → All (NotAfter id (start_of (latest_scheduled id t) now)) t
unfolding latest_scheduled
latest_scheduled-ge id now [] = tt
latest_scheduled-ge id now (s ∷ t) =
    let counts = is_text s.cron_job_id id && is_none s.retry_for_id in
    let (grows, mine) = start_of-ge counts (latest_scheduled id t) s.scheduled_at now in
    (
      mine,
      All-map (NotAfter id (start_of (latest_scheduled id t) now)) _ t
          (λ x h. NotAfter-le id _ _ x h grows) (latest_scheduled-ge id now t),
    )
