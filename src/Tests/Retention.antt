-- ===== src/Tests/Retention.antt =====
-- The wiping of an executed job past its days, and of its one-off job.
use rocktick.Prelude.{◌<◌, refl, String, true, false, none, some, [], ◌∷◌, arith, any}
use rocktick.Prelude.Int.{pos, ◌-ℤ◌}
use rocktick.Prelude.Tables.{count, get_row}
use rocktick.Db.Jobs.{HttpRequest, JobExecution, ScheduledJob}
use rocktick.Db.Tables.{Db}
use rocktick.Scheduler.Run.{scheduling_loop}
use rocktick.Scheduler.Jobs.OneOff.{job_for}
use rocktick.Scheduler.Retention.Scheduled
use rocktick.Scheduler.Retention.Scheduled.{Keyed, Wiped, to_wipe, scheduling_loop-Wiped}
use rocktick.Scheduler.Retention.OneOff
use rocktick.Scheduler.Retention.OneOff.{
  KeyedOneOffs, WipedOneOffs, candidates, scheduling_loop-WipedOneOffs,
}
use rocktick.Tests.Fixtures.{env, empty_db, tenant, one_off}

abbrev done : JobExecution
done = record {
  id = "execution_1";
  executed_at = pos 60_000_000;
  success = some true;
  request_id = "request_2";
  response_id = none;
  response_error = none;
}

abbrev done_job : ScheduledJob
done_job = record (job_for env (λ _. true) one_off (pos 50_000_000)) {
  id = "scheduled_1";
  execution_id = some "execution_1";
  tenant_id = some "tenant_1";
}

abbrev request : HttpRequest
request = record {
  id = "request_2";
  method = "GET";
  url = "http://example.com";
  headers = [];
  body = some "text";
  deleted_at = none;
}

-- Eight days later.
abbrev done_db : Db String
done_db = record empty_db {
  tenants = tenant ∷ [];
  http_requests = request ∷ [];
  one_off_jobs = one_off ∷ [];
  job_executions = done ∷ [];
  scheduled_jobs = done_job ∷ [];
}

done_db-Keyed : Keyed done_db
unfolding get_row
done_db-Keyed = (refl, tt)

done_db-to_wipe : to_wipe (pos 691_200_000_000) (λ _. false) done_db < 3
unfolding count get_row ◌-ℤ◌
done_db-to_wipe = omega arith

scheduling_loop-Wiped_example :
    Wiped
      (pos 691_200_000_000)
      (scheduling_loop (Scheduled.run_once (pos 691_200_000_000) (λ _. false)) 3 done_db)
scheduling_loop-Wiped_example =
    scheduling_loop-Wiped (pos 691_200_000_000) done_db done_db-Keyed 3 done_db-to_wipe

abbrev deleted_db : Db String
deleted_db = record done_db { scheduled_jobs = record done_job { deleted_at = some (pos 0) } ∷ [] }

deleted_db-KeyedOneOffs : KeyedOneOffs deleted_db
unfolding get_row
deleted_db-KeyedOneOffs = (refl, tt)

deleted_db-candidates : candidates (pos 691_200_000_000) deleted_db < 3
unfolding count any ◌-ℤ◌
deleted_db-candidates = omega arith

scheduling_loop-WipedOneOffs_example :
    WipedOneOffs
      (pos 691_200_000_000)
      (scheduling_loop (OneOff.run_once (pos 691_200_000_000) (λ _. false)) 3 deleted_db)
scheduling_loop-WipedOneOffs_example =
    scheduling_loop-WipedOneOffs (pos 691_200_000_000) deleted_db deleted_db-KeyedOneOffs 3
      deleted_db-candidates
