-- ===== src/Broker/Sent.antt =====
-- What holds of the jobs that `get_jobs` of src/broker/job.rs sends.
use rocktick.Prelude.{
  ℕ, ◌≡◌, refl, ◌∙◌, String, true, not, Option, none, some, All, All-filter, All-sort_by, arith,
  is_none,
}
use rocktick.Prelude.Int.{ltb_ℤ}
use rocktick.Prelude.Tables.{get_row, UniqueKeys}
use rocktick.Prelude.Updates.{get_row-update_where}
use rocktick.Prelude.Selections.{All-take, All-Row, Row, All-flat_map_of, All-map_of}
use rocktick.Prelude.Dict.{Dict, lookup, insert, lookup-insert}
use rocktick.Db.Jobs.{ScheduledJob, epoch}
use rocktick.Db.Tables.{Db, scheduled_key, request_key}
use rocktick.Scheduler.Env.{Env}
use rocktick.Broker.HandOut.{
  LockedJob, is_taken, lock_job, lock_jobs, handed_out, join_row, with_request,
}
use rocktick.Broker.Fair.{taken-open}
use rocktick.Broker.States.{free, held, life, view_by}
use rocktick.Broker.Spec.{Keys, JobSpec, job_spec, get_jobs, req_headers, add_signature, signature}
use rocktick.Http.{parse_headers}

open_free :
    (o : Option String) (l : Option _) → is_none o ≡ true → is_none l ≡ true → view_by o l ≡ free
open_free none none p q = refl
open_free none (some n) p q = cc
open_free (some e) l p q = cc

open_held : (o : Option String) (n : _) → is_none o ≡ true → view_by o (some n) ≡ held n
open_held none n p = refl
open_held (some e) n p = cc

module _ {J : Type 0} (keys : Keys) (env : Env J) (region : String) (db : Db J) where
  -- A job that is sent was free and is held under the nonce that is sent; its request names it.
  abbrev pub Sent : JobSpec → Type 0
  Sent spec =
      (life spec.job_id db.scheduled_jobs ≡ free)
      × (life spec.job_id (lock_jobs env region db).scheduled_jobs ≡ held spec.lock_nonce)
      × (lookup "Rocktick-Job-Id" spec.headers ≡ some spec.job_id)

  abbrev id_headers : LockedJob → Dict String
  id_headers row = insert "Rocktick-Job-Id" row.job.id (parse_headers row.request.headers)

  id_named : (row : LockedJob) → lookup "Rocktick-Job-Id" (id_headers row) ≡ some row.job.id
  id_named row =
      lookup-insert "Rocktick-Job-Id" "Rocktick-Job-Id" row.job.id
        (parse_headers row.request.headers)

  named : (row : LockedJob) → lookup "Rocktick-Job-Id" (req_headers keys env row) ≡ some row.job.id
  unfolding req_headers
  named row =
      elim (signature keys env row)
        as (λ s.
          lookup "Rocktick-Job-Id" (add_signature keys env s (id_headers row)) ≡ some row.job.id) [
            | none ↦ id_named row
            | some s ↦
                lookup-insert "Rocktick-Signature" "Rocktick-Job-Id" s (id_headers row)
                ∙ id_named row
          ]

  taken_life :
      (j : ScheduledJob)
      → UniqueKeys scheduled_key db.scheduled_jobs
      → Row scheduled_key db.scheduled_jobs j
      → is_taken env region db j ≡ true
      → (life j.id db.scheduled_jobs ≡ free)
        × (life j.id (lock_jobs env region db).scheduled_jobs ≡ held (epoch env.now))
  unfolding lock_jobs
  taken_life j u r t =
      let was_open = taken-open env region db j u r t in
      let row =
        get_row-update_where scheduled_key (is_taken env region db) (lock_job env region) j.id
          db.scheduled_jobs (λ x. refl) in
      (
        rw r (
            open_free j.execution_id j.lock_nonce (ground (arith, was_open))
              (ground (arith, was_open))),
        rw row (rw r (rw t (open_held j.execution_id _ (ground (arith, was_open))))),
      )

  join_row-Sent :
      (j : ScheduledJob)
      → UniqueKeys scheduled_key db.scheduled_jobs
      → Row scheduled_key db.scheduled_jobs j × (is_taken env region db j ≡ true)
      → All (λ row. Sent (job_spec keys env row)) (join_row env region db j)
  join_row-Sent j u (r, t) =
      elim (get_row request_key j.request_id db.http_requests)
        as (λ o. All (λ row. Sent (job_spec keys env row)) (with_request env region db j o)) [
          | none ↦ tt
          | some request ↦ (((taken_life j u r t).0, (taken_life j u r t).1, named _), tt)
        ]

  -- What every taken job's rows satisfy holds of all that is sent.
  pub get_jobs-All :
      (P : JobSpec → Type 0) (received : ℕ)
      → UniqueKeys scheduled_key db.scheduled_jobs
      → ((j : ScheduledJob)
          → Row scheduled_key db.scheduled_jobs j × (is_taken env region db j ≡ true)
          → All (λ row. P (job_spec keys env row)) (join_row env region db j))
      → All P (get_jobs keys env region received db).1
  unfolding get_jobs handed_out
  get_jobs-All P received u rows = All-take P received _ (
      All-map_of P (job_spec keys env) _ (
        All-flat_map_of (λ row. P (job_spec keys env row))
          (λ j. Row scheduled_key db.scheduled_jobs j × (is_taken env region db j ≡ true))
          (join_row env region db) _ rows
          (All-sort_by (λ a b. not (ltb_ℤ b.scheduled_at a.scheduled_at)) _ _
            (All-filter (Row scheduled_key db.scheduled_jobs) _ (is_taken env region db)
              db.scheduled_jobs (λ j r t. (r, t)) (All-Row scheduled_key db.scheduled_jobs u)))))

  -- Where the ids of the jobs are unique, every job that `get_jobs` sends was free before, is held
  -- after, under the nonce that is sent with it, and carries its id in a header.
  pub get_jobs-Sent :
      (received : ℕ)
      → UniqueKeys scheduled_key db.scheduled_jobs
      → All Sent (get_jobs keys env region received db).1
  get_jobs-Sent received u = get_jobs-All Sent received u (λ j q. join_row-Sent j u q)
