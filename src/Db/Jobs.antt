-- ===== src/Db/Jobs.antt =====
-- The rows of schema_pg.sql that belong to jobs. A timestamp is a number of microseconds since the
-- epoch; a nullable column is an `Option`. `bytes_used` is generated from `body` and left out.
use rocktick.Prelude.{suc, ◌+◌, ◌/◌, String, Bool, Option, List}
use rocktick.Prelude.Int.{ℤ, pos, negsuc, sub_ℕ}

abbrev pub Timestamp : Type 0
Timestamp = ℤ

-- `DateTime::timestamp`: whole seconds, rounded down.
abbrev pub timestamp : Timestamp → ℤ
timestamp (pos n) = pos (n / 1_000_000)
timestamp (negsuc n) = negsuc (n / 1_000_000)

-- `extract(epoch from …)` as an INTEGER: to the nearest second.
abbrev pub epoch : Timestamp → ℤ
epoch (pos n) = pos ((n + 500_000) / 1_000_000)
epoch (negsuc n) = sub_ℕ 0 ((suc n + 500_000) / 1_000_000)

-- An INTERVAL.
pub record Interval : Type 0 where
  pub months : ℤ
  pub days : ℤ
  pub microseconds : ℤ

pub record Tenant : Type 0 where
  pub id : String
  pub tokens : ℤ
  pub max_tokens : ℤ
  pub increment : ℤ
  pub period : Interval
  pub next_increment : Timestamp
  pub max_timeout : ℤ
  pub default_retries : ℤ
  pub max_retries : ℤ
  pub max_max_response_bytes : ℤ
  pub max_request_bytes : ℤ
  pub retain_for_days : ℤ
  pub max_delay_days : ℤ
  pub max_cron_jobs : ℤ
  pub current_signing_key : Option String
  pub next_signing_key : Option String

pub record HttpRequest : Type 0 where
  pub id : String
  pub method : String
  pub url : String
  pub headers : List String
  pub body : Option String
  pub deleted_at : Option Timestamp

pub record HttpResponse : Type 0 where
  pub id : String
  pub status : ℤ
  pub headers : List String
  pub body : String
  pub deleted_at : Option Timestamp

pub record OneOffJob : Type 0 where
  pub id : String
  pub region : String
  pub tenant_id : Option String
  pub request_id : String
  pub execute_at : ℤ
  pub timeout_ms : Option ℤ
  pub max_retries : ℤ
  pub max_response_bytes : Option ℤ
  pub created_at : Timestamp
  pub deleted_at : Option Timestamp

pub record CronJob : Type 0 where
  pub id : String
  pub region : String
  pub tenant_id : Option String
  pub request_id : String
  pub schedule : String
  pub timeout_ms : Option ℤ
  pub max_retries : ℤ
  pub max_response_bytes : Option ℤ
  pub created_at : Timestamp
  pub start_at : Timestamp
  pub error : Option String
  pub deleted_at : Option Timestamp

pub record JobExecution : Type 0 where
  pub id : String
  pub executed_at : Timestamp
  pub success : Option Bool
  pub request_id : String
  pub response_id : Option String
  pub response_error : Option String

pub record ScheduledJob : Type 0 where
  pub id : String
  pub hash : ℤ
  pub lock_nonce : Option ℤ
  pub times_locked : ℤ
  pub region : String
  pub tenant_id : Option String
  pub one_off_job_id : Option String
  pub cron_job_id : Option String
  pub workflow_id : Option String
  pub workflow_execution_id : Option String
  pub retry_for_id : Option String
  pub scheduled_at : Timestamp
  pub request_id : String
  pub execution_id : Option String
  pub timeout_ms : Option ℤ
  pub max_retries : ℤ
  pub max_response_bytes : Option ℤ
  pub deleted_at : Option Timestamp
