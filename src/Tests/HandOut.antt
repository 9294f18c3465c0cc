-- ===== src/Tests/HandOut.antt =====
-- Jobs that are handed out, and locks that are taken back.
use rocktick.Prelude.{◌≡◌, refl, String, Bool, true, none, some, [], ◌∷◌, All, arith}
use rocktick.Prelude.Int.{ℤ, pos}
use rocktick.Prelude.Tables.{get_row, UniqueKeys}
use rocktick.Db.Jobs.{HttpRequest, ScheduledJob}
use rocktick.Db.Tables.{Db, scheduled_key}
use rocktick.Signing.{SigningLib}
use rocktick.Scheduler.Tokens.{tenant_key}
use rocktick.Scheduler.Jobs.OneOff.{job_for}
use rocktick.Broker.HandOut.{lock_jobs}
use rocktick.Broker.Fair.{Paid, lock_jobs-Paid}
use rocktick.Broker.Unlock.{unlock, Refunded, unlock-Refunded}
use rocktick.Broker.Life.{actions, BrokerSteps, hands_out, unlocks, BrokerSteps-LifeSteps}
use rocktick.Broker.States.{Settled, LifeSteps, life}
use rocktick.Broker.Spec.{Keys, get_jobs}
use rocktick.Broker.Sent.{Sent, get_jobs-Sent}
use rocktick.Tests.Fixtures.{env, empty_db, one_off, tenant}
use rocktick.Tests.Secrets.{aead, utf8, ring}

abbrev pub always : ℤ → Bool
always t = true

abbrev pub job : ScheduledJob
job = record (job_for env always one_off (pos 50_000_000)) {
  id = "scheduled_1";
  tenant_id = some "tenant_1";
}

abbrev late_job : ScheduledJob
late_job = record job { id = "scheduled_2"; lock_nonce = some (pos 7) }

abbrev pub request : HttpRequest
request = record {
  id = "request_1";
  method = "GET";
  url = "http://example.com/";
  headers = "Accept: text/plain" ∷ [];
  body = none;
  deleted_at = none;
}

abbrev pub db : Db String
db = record empty_db {
  tenants = tenant ∷ [];
  http_requests = request ∷ [];
  scheduled_jobs = job ∷ late_job ∷ [];
}

abbrev signing : SigningLib
signing = record {
  hmac_sha256 = λ key text. key;
  url_path = λ url. some "/";
  to_lowercase = λ t. t;
  digits = λ n. "100";
  header_json = λ t p code. code;
}

abbrev pub keys : Keys
keys = record {
  aead = aead;
  utf8 = utf8;
  key_ring = ring;
  fallback_signing_secret = "fallback";
  secrets = [];
  signing = signing;
}

pub db-UniqueKeys : UniqueKeys scheduled_key db.scheduled_jobs
unfolding get_row
db-UniqueKeys = (refl, (refl, tt))

db-tenants : UniqueKeys tenant_key db.tenants
unfolding get_row
db-tenants = (refl, tt)

db-tenant : get_row tenant_key tenant.id db.tenants ≡ some tenant
unfolding get_row
db-tenant = refl

db-Settled : Settled db.scheduled_jobs
db-Settled = (db-UniqueKeys, (refl, (refl, tt)))

get_jobs-Sent_example : All (Sent keys env "eu" db) (get_jobs keys env "eu" 5 db).1
get_jobs-Sent_example = get_jobs-Sent keys env "eu" db 5 db-UniqueKeys

lock_jobs-Paid_example : Paid env "eu" db (lock_jobs env "eu" db) tenant
lock_jobs-Paid_example =
    lock_jobs-Paid env "eu" db tenant db-UniqueKeys db-tenants db-tenant (omega arith)

unlock-Refunded_example : Refunded (pos 1_000_000_000) db (unlock (pos 1_000_000_000) db) tenant
unlock-Refunded_example =
    unlock-Refunded (pos 1_000_000_000) db tenant db-tenant (omega arith) (omega arith)

-- A hand-out, and a clean-up 900 seconds later.
abbrev end : Db String
end = unlock (pos 1_000_000_000) (lock_jobs env "eu" db)

db-BrokerSteps : BrokerSteps db end
db-BrokerSteps =
    BrokerSteps.then_step (BrokerSteps.then_step BrokerSteps.start (hands_out env "eu" refl))
      (unlocks (pos 1_000_000_000) refl)

BrokerSteps-LifeSteps_example :
    Settled end.scheduled_jobs
    × ((id : String)
        → LifeSteps id
            (life id db.scheduled_jobs)
            (actions db-BrokerSteps)
            (life id end.scheduled_jobs))
BrokerSteps-LifeSteps_example = BrokerSteps-LifeSteps db-Settled db-BrokerSteps
