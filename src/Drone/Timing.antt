-- ===== src/Drone/Timing.antt =====
-- When a job is executed: the lead of `get_jobs` in src/broker/job.rs and the wait of `run_job` in
-- src/drone/jobs.rs.
use rocktick.Prelude.{ℕ, ◌+◌, ◌≤◌, ◌≡◌, String, true, none, some, All, arith}
use rocktick.Prelude.Int.{ℤ, pos, scale_ℤ, ◌+ℤ◌, ◌-ℤ◌, ◌≤ℤ◌}
use rocktick.Prelude.Tables.{get_row, UniqueKeys}
use rocktick.Db.Jobs.{ScheduledJob, timestamp}
use rocktick.Db.Tables.{Db, scheduled_key, request_key}
use rocktick.Drone.Execute.{millis_until}
use rocktick.Scheduler.Env.{Env}
use rocktick.Broker.HandOut.{is_open, with_request}
use rocktick.Broker.Fair.{taken-open}
use rocktick.Broker.Spec.{Keys, JobSpec, job_spec, get_jobs}
use rocktick.Broker.Sent.{get_jobs-All}

-- The end of the wait, by the drone's clock.
abbrev pub Punctual : ℤ → ℕ → JobSpec → Type 0
Punctual now random spec =
    let wait = millis_until spec now random in
    (scale_ℤ 1000 spec.scheduled_at ≤ℤ now +ℤ pos wait) × (wait ≤ 3000 + random)

open_soon :
    (region : String) (now : ℤ) (j : ScheduledJob)
    → is_open region now j ≡ true
    → j.scheduled_at ≤ℤ now +ℤ pos 3_000_000
unfolding ◌+ℤ◌ ◌-ℤ◌
open_soon region now j h = ground arith

millis_late :
    (at now : ℤ)
    → at ≤ℤ scale_ℤ 1000 now +ℤ pos 3_000_000
    → scale_ℤ 1000 (timestamp at) ≤ℤ now +ℤ pos 3000
unfolding ◌+ℤ◌ ◌-ℤ◌
millis_late at now h = ground arith

later : (at a b : ℤ) → at ≤ℤ a +ℤ pos 3_000_000 → a ≤ℤ b → at ≤ℤ b +ℤ pos 3_000_000
unfolding ◌+ℤ◌
later at a b h k = ground arith

millis_until-Punctual :
    (spec : JobSpec) (now : ℤ) (random : ℕ)
    → scale_ℤ 1000 spec.scheduled_at ≤ℤ now +ℤ pos 3000
    → Punctual now random spec
unfolding millis_until ◌+ℤ◌ ◌-ℤ◌
millis_until-Punctual spec now random h = ground arith

module _ {J : Type 0} (keys : Keys) (env : Env J) (region : String) (db : Db J) where
  -- Where the ids of the jobs are unique, and the drone starts a job no earlier than the broker's
  -- statement by its clock, the job is executed not before the second of its time, and after three
  -- seconds and the random delay at most.
  pub get_jobs-Punctual :
      (received : ℕ) (now : ℤ) (random : ℕ)
      → UniqueKeys scheduled_key db.scheduled_jobs
      → env.now ≤ℤ scale_ℤ 1000 now
      → All (Punctual now random) (get_jobs keys env region received db).1
  get_jobs-Punctual received now random u clock =
      get_jobs-All keys env region db (Punctual now random) received u (λ j (r, t).
        elim (get_row request_key j.request_id db.http_requests)
          as (λ o.
            All (λ row. Punctual now random (job_spec keys env row))
              (with_request env region db j o)) [
                | none ↦ tt
                | some request ↦ (
                  millis_until-Punctual _ now random (
                      millis_late j.scheduled_at now (
                        later j.scheduled_at env.now (scale_ℤ 1000 now)
                          (open_soon region env.now j (taken-open env region db j u r t)) clock)),
                  tt,
                )
              ])
