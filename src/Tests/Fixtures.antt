-- ===== src/Tests/Fixtures.antt =====
-- A database over texts as JSON, with one workflow, and the environment of a run.
use rocktick.Prelude.{String, true, false, Option, none, some, [], ◌∷◌, str_eq, if◌then◌else◌}
use rocktick.Prelude.Int.{ℤ, pos}
use rocktick.Db.Jobs.{Tenant, OneOffJob}
use rocktick.Db.Workflows.{Workflow, DbExecution}
use rocktick.Db.Tables.{Db}
use rocktick.Workflow.Data.{ReturnedData, WaitDefinition, ChildDefinition, Serde}
use rocktick.Scheduler.Env.{Env}

-- Asks for a wait until second 200.
abbrev pub wants_wait : ReturnedData String
wants_wait = record {
  steps = none;
  children = none;
  waits = some (("pause", WaitDefinition.v1_tuple (pos 200_000_000)) ∷ []);
  result = none;
  error = none;
}

-- Asks for a child.
abbrev pub child : ChildDefinition String
child = ChildDefinition.v1_tuple "http://child.example.com" "{}"

abbrev pub wants_child : ReturnedData String
wants_child = record wants_wait { waits = none; children = some (("child", child) ∷ []) }

abbrev pub serde : Serde String
serde = record {
  from_str = λ t. some t;
  from_value = λ t.
      if str_eq t "wait"
      then some wants_wait
      else if str_eq t "child"
      then some wants_child
      else none;
  parse_message = λ t. t;
  mismatch_message = λ t. t;
  returned_error_message = λ t. t;
  poorly_formed_message = λ t. t;
}

abbrev pub env : Env String
env = record {
  now = pos 100_000_000;
  utc_now = pos 100_000_000;
  locked = λ id. false;
  text_le = λ a b. true;
  generate = λ prefix n. prefix;
  gen_for_time = λ prefix t n. prefix;
  full_hash = λ t. 5_000_000_000;
  serde = serde;
  to_value = λ c. "context";
  to_string = λ t. t;
  limit_message = λ n. "limit";
}

abbrev pub workflow : Workflow String
workflow = record {
  id = "workflow_1";
  region = "eu";
  tenant_id = none;
  implementation_url = "http://example.com";
  input = "{}";
  context = some "{}";
  status = "pending";
  result = none;
  error = none;
  max_retries = pos 3;
}

abbrev pub execution : String → ℤ → String → Option String → DbExecution String
execution id index status result = record {
  id = id;
  region = "eu";
  workflow_id = "workflow_1";
  execution_index = index;
  tenant_id = none;
  status = status;
  is_retry = false;
  executed_at = none;
  result_json = result;
  failure_reason = none;
}

abbrev pub empty_db : Db String
empty_db = record {
  tenants = [];
  http_requests = [];
  http_responses = [];
  one_off_jobs = [];
  cron_jobs = [];
  job_executions = [];
  scheduled_jobs = [];
  workflows = [];
  workflow_executions = [];
  workflow_dependencies = [];
}

abbrev pub tenant : Tenant
tenant = record {
  id = "tenant_1";
  tokens = pos 3;
  max_tokens = pos 10;
  increment = pos 5;
  period = record { months = pos 0; days = pos 0; microseconds = pos 1_000_000 };
  next_increment = pos 50_000_000;
  max_timeout = pos 30_000;
  default_retries = pos 2;
  max_retries = pos 5;
  max_max_response_bytes = pos 1024;
  max_request_bytes = pos 1024;
  retain_for_days = pos 7;
  max_delay_days = pos 30;
  max_cron_jobs = pos 10;
  current_signing_key = none;
  next_signing_key = none;
}

abbrev pub one_off : OneOffJob
one_off = record {
  id = "one_off_1";
  region = "eu";
  tenant_id = none;
  request_id = "request_1";
  execute_at = pos 200;
  timeout_ms = none;
  max_retries = pos 2;
  max_response_bytes = none;
  created_at = pos 0;
  deleted_at = none;
}
