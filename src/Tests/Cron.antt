-- ===== src/Tests/Cron.antt =====
-- A cron job of every minute.
use rocktick.Prelude.{◌≡◌, refl, String, none, some, List, [], ◌∷◌, str_eq, if◌then◌else◌}
use rocktick.Prelude.Int.{ℤ, pos, ◌-ℤ◌}
use rocktick.Db.Jobs.{CronJob}
use rocktick.Db.Tables.{Db}
use rocktick.Scheduler.Jobs.Cron
use rocktick.Scheduler.Jobs.Cron.{Croner}
use rocktick.Tests.Fixtures.{env, empty_db}

abbrev croner : Croner
croner = record {
  parse = λ t.
      if str_eq t "* * * * *"
      then some (λ start. pos 1_800_000_000 ∷ pos 1_860_000_000 ∷ [])
      else none;
  error_message = λ t. "not valid";
}

abbrev cron_job : CronJob
cron_job = record {
  id = "cron_1";
  region = "eu";
  tenant_id = none;
  request_id = "request_1";
  schedule = "* * * *";
  timeout_ms = none;
  max_retries = pos 2;
  max_response_bytes = none;
  created_at = pos 0;
  start_at = pos 0;
  error = none;
  deleted_at = none;
}

abbrev cron_db : String → Db String
cron_db schedule = record empty_db { cron_jobs = record cron_job { schedule = schedule } ∷ [] }

-- The third time is not reached, since the second is more than 15 minutes ahead.
abbrev cron_times : List ℤ
cron_times = pos 120_000_000 ∷ pos 1_800_000_000 ∷ []

cron_db-next_times :
    Cron.next_times env cron_job
      (λ start. pos 120_000_000 ∷ pos 1_800_000_000 ∷ pos 1_860_000_000 ∷ [])
      (cron_db "* * * * *")
    ≡ cron_times
unfolding Cron.take Cron.pick_times ◌-ℤ◌
cron_db-next_times = refl

abbrev scheduled_db : Db String
scheduled_db = record (cron_db "* * * * *") {
  scheduled_jobs =
      Cron.job_at env (record cron_job { schedule = "* * * * *" }) (pos 1_800_000_000) 0 ∷ [];
}
