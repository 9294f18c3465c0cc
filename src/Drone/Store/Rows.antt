-- ===== src/Drone/Store/Rows.antt =====
-- The rows of schema_sqlite.sql and the values of src/drone/store/executions.rs and
-- proto/services.proto. Times are seconds; an `i64` column is an integer.
use rocktick.Prelude.{
  ◌≡◌, String, Bool, true, ◌&&◌, ◌||◌, Option, none, some, List, str_eq, is_some, is_none,
}
use rocktick.Prelude.Int.{ℤ, pos}

-- `HashMap<String, String>`, by its entries.
abbrev pub HeaderMap : Type 0
HeaderMap = List (String × String)

-- `grpc::Response`.
pub record Response : Type 0 where
  pub status : ℤ
  pub headers : HeaderMap
  pub body : String

-- `grpc::JobExecution`.
pub record JobExecution : Type 0 where
  pub job_id : String
  pub success : Bool
  pub lock_nonce : ℤ
  pub response : Option Response
  pub response_error : Option String
  pub req_method : String
  pub req_url : String
  pub req_headers : HeaderMap
  pub req_body : Option String
  pub executed_at : ℤ

-- The table `executions`.
pub record Row : Type 0 where
  pub job_id : String
  pub success : Bool
  pub lock_nonce : ℤ
  pub response_id : Option String
  pub response_error : Option String
  pub req_method : String
  pub req_url : String
  pub req_header_map : String
  pub req_body : Option String
  pub executed_at : ℤ
  pub is_local : Bool
  pub replicated_times : ℤ
  pub sync_status : String
  pub sync_time : Option ℤ
  pub sync_nonce : Option ℤ

-- The table `execution_responses`.
pub record ResponseRow : Type 0 where
  pub id : String
  pub status : ℤ
  pub header_map : String
  pub body : String

pub record DroneStore : Type 0 where
  pub executions : List Row
  pub responses : List ResponseRow

pub data SyncStatus : Type 0 where
  local pending synced : SyncStatus

pub record ExecutionMetadata : Type 0 where
  pub is_local : Bool
  pub replicated_times : ℤ
  pub sync_status : SyncStatus
  pub sync_time : ℤ
  pub sync_nonce : ℤ

pub data StoreError : Type 0 where
  -- A PRIMARY KEY or a CHECK of the schema refuses the row.
  unique_violation check_violation : StoreError
  -- `fetch_one` finds no row.
  row_not_found : StoreError
  bad_headers invalid_sync_status invalid_sync_time : StoreError

-- serde_json on header maps, and the range of chrono's timestamps.
pub record Codec : Type 0 where
  pub to_json : HeaderMap → String
  pub from_json : String → Option HeaderMap
  -- `json_valid(t) AND json_type(t) = 'object'` of SQLite.
  pub is_object : String → Bool
  pub in_range : ℤ → Bool
  pub in_range-zero : in_range (pos 0) ≡ true

-- serde_json reads back what it wrote of a map, which is an object.
abbrev pub Encodes : Codec → HeaderMap → Type 0
Encodes c h = (c.from_json (c.to_json h) ≡ some h) × (c.is_object (c.to_json h) ≡ true)

abbrev pub EncodesResponse : Codec → Option Response → Type 0
EncodesResponse c none = Unit
EncodesResponse c (some res) = Encodes c res.headers

abbrev pub job_key : Row → String
job_key r = r.job_id

abbrev pub response_key : ResponseRow → String
response_key r = r.id

-- CHECK (sync_status IN …) and CONSTRAINT one_of_response_id_or_response_error.
abbrev pub row_checks : Codec → Row → Bool
row_checks c r =
    c.is_object r.req_header_map
    && (str_eq r.sync_status "local"
        || str_eq r.sync_status "pending"
        || str_eq r.sync_status "synced")
    && (is_some r.response_id && is_none r.response_error
        || is_none r.response_id && is_some r.response_error)
