-- ===== src/Api/Base.antt =====
-- src/api/mod.rs: errors, the context of a handler, the guard of the routes, and how a handler's
-- transaction ends. What the handlers use of other crates is a parameter.
use rocktick.Prelude.{
  ◌≡◌, String, Bool, true, false, Option, none, some, List, [], ◌∷◌, ◌<>◌, any, starts_with, str_eq,
  unwrap_or, arith, if◌then◌else◌,
}
use rocktick.Prelude.Int.{ℤ}
use rocktick.Prelude.Result.{Result, ok, err, panic}
use rocktick.Db.Jobs.{Timestamp}
use rocktick.Db.Tables.{Db}

pub data StatusCode : Type 0 where
  bad_request_code unauthorized_code forbidden_code not_found_code server_error_code : StatusCode

pub record ApiError : Type 0 where
  pub code : StatusCode
  pub message : String

abbrev pub internal_server_error : Option String → ApiError
internal_server_error message = record {
  code = server_error_code;
  message = unwrap_or message "Internal server error";
}

abbrev pub not_found : ApiError
not_found = record { code = not_found_code; message = "Not Found" }

abbrev pub bad_request : Option String → ApiError
bad_request message = record { code = bad_request_code; message = unwrap_or message "Bad request" }

abbrev pub tenant_not_allowed : ApiError
tenant_not_allowed = record { code = forbidden_code; message = "Tenant not allowed" }

abbrev pub unauthorized : ApiError
unauthorized = record { code = unauthorized_code; message = "UNAUTHORIZED" }

-- `Context`, but for the pool and the key ring.
pub record Context : Type 0 where
  pub valid_regions : List String
  pub auth_keys : Option (List String)

pub record ApiLib : Type 0 where
  -- `{}` of a number.
  pub digits : ℤ → String
  -- `http::Method::from_str` succeeds.
  pub is_method : String → Bool
  -- The error of `Url::parse`, and of `Cron::from_str`.
  pub url_error : String → Option String
  pub cron_error : String → Option String
  -- The times that chrono has.
  pub in_range : Timestamp → Bool
  -- The text of an error of the database.
  pub db_error : String

-- `[String]::join`.
unfoldable pub join : String → List String → String
join separator [] = ""
join separator (x ∷ []) = x
join separator (x ∷ y ∷ xs) = x <> separator <> join separator (y ∷ xs)

abbrev pub has : String → List String → Bool
has s = any (λ x. str_eq x s)

-- `tenant_id = $1`, where the caller names a tenant: the condition `$1 IS NULL OR …`.
abbrev pub is_visible : Option String → Option String → Bool
is_visible none owner = true
is_visible (some t) none = false
is_visible (some t) (some owner) = str_eq owner t

-- `strip_prefix("Bearer ")` of the header of that name.
pub record AuthRequest : Type 0 where
  pub path : String
  pub bearer_token : Option String

-- `none` lets the request through.
unfoldable pub auth_middleware : Context → AuthRequest → Option ApiError
auth_middleware ctx req = elim ctx.auth_keys [
  | none ↦ none
  | some expected_tokens ↦ if starts_with req.path "/docs" then none else elim req.bearer_token [
    | none ↦ some unauthorized
    | some token ↦ if has token expected_tokens then none else some unauthorized
  ]
]

module _ {J : Type 0} {A : Type 0} where
  -- A handler that commits last: what it wrote stays only if it returns.
  abbrev pub committed : Db J → Result ApiError (Db J × A) → Db J × Result ApiError A
  committed db (ok (db', a)) = (db', ok a)
  committed db (err e) = (db, err e)
  committed db panic = (db, panic)

  -- A handler whose transaction is dropped: sqlx rolls back what it wrote.
  abbrev pub rolled_back : Db J → Result ApiError (Db J × A) → Db J × Result ApiError A
  rolled_back db (ok (db', a)) = (db, ok a)
  rolled_back db (err e) = (db, err e)
  rolled_back db panic = (db, panic)

  pub committed_ok :
      (db db' : Db J) (r : Result ApiError (Db J × A)) (a : A)
      → committed db r ≡ (db', ok a)
      → r ≡ ok (db', a)
  committed_ok db db' (ok (db1, b)) a h = ground arith
  committed_ok db db' (err e) a h = absurd (ground arith)
  committed_ok db db' panic a h = absurd (ground arith)

  pub rolled_back_ok :
      (db db' : Db J) (r : Result ApiError (Db J × A)) (a : A)
      → rolled_back db r ≡ (db', ok a)
      → (db' ≡ db) × (db1 : Db J) × (r ≡ ok (db1, a))
  rolled_back_ok db db' (ok (db1, b)) a h = (ground arith, db1, ground arith)
  rolled_back_ok db db' (err e) a h = absurd (ground arith)
  rolled_back_ok db db' panic a h = absurd (ground arith)
