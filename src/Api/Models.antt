-- ===== src/Api/Models.antt =====
-- src/api/models.rs: what the API reads and writes.
use rocktick.Prelude.{ℕ, String, Bool, not, Option, none, some, List, ◌<>◌, ltb}
use Prim.Native.String
use rocktick.Prelude.Int.{ℤ}
use rocktick.Prelude.Dict.{Dict}
use rocktick.Prelude.Result.{Result, ok, err, ◌>>◌, ensure}
use rocktick.Api.Base.{ApiError, ApiLib, bad_request}

pub record HttpRequest : Type 0 where
  pub method : String
  pub url : String
  pub headers : Dict String
  pub body : Option String

pub record HttpResponse : Type 0 where
  pub status : ℤ
  pub headers : Dict String
  pub body : String

pub record Execution : Type 0 where
  pub id : String
  pub region : String
  pub scheduled_at : ℤ
  pub executed_at : Option ℤ
  pub success : Option Bool
  pub request : HttpRequest
  pub response : Option HttpResponse
  pub response_error : Option String
  pub timeout_ms : Option ℤ
  pub max_retries : ℤ
  pub max_response_bytes : Option ℤ
  pub tenant_id : Option String
  pub one_off_job_id : Option String
  pub cron_job_id : Option String
  pub retry_for : Option String

pub record OneOffJob : Type 0 where
  pub id : String
  pub region : String
  pub execute_at : ℤ
  pub request : HttpRequest
  pub executions : List Execution
  pub timeout_ms : Option ℤ
  pub max_retries : ℤ
  pub max_response_bytes : Option ℤ
  pub tenant_id : Option String
  pub deleted_at : Option ℤ

pub record CronJob : Type 0 where
  pub id : String
  pub region : String
  pub schedule : String
  pub request : HttpRequest
  pub executions : List Execution
  pub timeout_ms : Option ℤ
  pub max_retries : ℤ
  pub max_response_bytes : Option ℤ
  pub tenant_id : Option String
  pub deleted_at : Option ℤ

-- `ApiListResponse`.
pub record ListResponse (A : Type 0) : Type 0 where
  pub entries : List A
  pub count : ℕ
  pub cursor : Option String

module _ (lib : ApiLib) where
  abbrev check_url : HttpRequest → Result ApiError (Unit {0})
  check_url r = elim (lib.url_error r.url) [
    | none ↦ ok tt
    | some error ↦ err (bad_request (some (r.url <> " is not a valid url: " <> error)))
  ]

  unfoldable pub verify : HttpRequest → Result ApiError (Unit {0})
  verify r = do
    ensure (not (ltb 10 (String.len r.method))) (
        bad_request (
          some (
            r.method
            <> " is not a valid http method (max-length: 10). Do you really need a custom http method?")))
    ensure (lib.is_method r.method)
        (bad_request (some (r.method <> " is not a valid http method.")))
    check_url r
