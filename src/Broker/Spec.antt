-- ===== src/Broker/Spec.antt =====
-- What a drone is sent for a job that is handed out: the stream of `get_jobs` in src/broker/job.rs.
use rocktick.Prelude.{ℕ, String, Option, none, some, List, map, or_else, unwrap_or}
use mathlib.Core.Option
use rocktick.Prelude.Int.{ℤ, pos}
use rocktick.Prelude.Result.{Result, ok, err, panic}
use rocktick.Prelude.Tables.{get_row}
use rocktick.Prelude.Selections.{take}
use rocktick.Prelude.Dict.{Dict, insert}
use rocktick.Db.Jobs.{Tenant, timestamp}
use rocktick.Db.Tables.{Db}
use rocktick.Http.{parse_headers}
use rocktick.Secrets.KeyRing.{KeyRing}
use rocktick.Secrets.Secret
use rocktick.Secrets.Secret.{Aead, Utf8, Secret, decrypt}
use rocktick.Scheduler.Env.{Env}
use rocktick.Signing.{SigningLib, signature_header}
use rocktick.Broker.HandOut.{LockedJob, lock_jobs, handed_out}

-- `grpc::JobSpec`.
pub record JobSpec : Type 0 where
  pub job_id : String
  pub lock_nonce : ℤ
  pub scheduled_at : ℤ
  pub method : String
  pub url : String
  pub headers : Dict String
  pub body : Option String
  pub timeout_ms : ℤ
  pub max_response_bytes : Option ℤ

-- What the broker service is given: the ciphers, its key ring and its fallback secret, and the
-- secrets of the tenants.
pub record Keys : Type 0 where
  pub aead : Aead
  pub utf8 : Utf8
  pub key_ring : KeyRing
  pub fallback_signing_secret : String
  pub secrets : List Secret
  pub signing : SigningLib

abbrev pub secret_key : Secret → String
secret_key s = s.id

-- A text that was decrypted; an error is logged, and leaves none.
abbrev pub decrypted : Result Secret.SecretError String → Option String
decrypted (ok text) = some text
decrypted (err e) = none
decrypted panic = none

module _ (keys : Keys) where
  -- LEFT JOIN secrets ON secret.id = tenant.current_signing_key.
  abbrev pub signing_key_of : Tenant → Option Secret
  signing_key_of t = elim t.current_signing_key [
    | none ↦ none
    | some id ↦ get_row secret_key id keys.secrets
  ]

  unfoldable pub signing_secret : Option Tenant → Option String
  signing_secret none = some keys.fallback_signing_secret
  signing_secret (some t) = elim (signing_key_of t) [
    | none ↦ none
    | some secret ↦ decrypted (decrypt keys.aead keys.utf8 secret keys.key_ring)
  ]

  module _ {J : Type 0} (env : Env J) where
    unfoldable pub signature : LockedJob → Option String
    signature row = elim (signing_secret row.tenant) [
      | none ↦ none
      | some signing_key ↦ signature_header keys.signing (record {
        signing_key = signing_key;
        time = timestamp env.utc_now;
        method = row.request.method;
        url = row.request.url;
        body = row.request.body;
      })
    ]

    abbrev pub add_signature : Option String → Dict String → Dict String
    add_signature none headers = headers
    add_signature (some s) headers = insert "Rocktick-Signature" s headers

    unfoldable pub req_headers : LockedJob → Dict String
    req_headers row =
        add_signature (signature row)
          (insert "Rocktick-Job-Id" row.job.id (parse_headers row.request.headers))

    abbrev pub job_spec : LockedJob → JobSpec
    job_spec row = record {
      job_id = row.job.id;
      lock_nonce = row.lock_nonce;
      scheduled_at = timestamp row.job.scheduled_at;
      method = row.request.method;
      url = row.request.url;
      headers = req_headers row;
      body = row.request.body;
      timeout_ms =
          unwrap_or
            (or_else row.job.timeout_ms (Option.map (λ (t : Tenant). t.max_timeout) row.tenant))
            (pos 60_000);
      max_response_bytes =
          or_else row.job.max_response_bytes
            (Option.map (λ (t : Tenant). t.max_max_response_bytes) row.tenant);
    }

    -- The tables after the statement, and what is sent. The stream ends early where the drone is
    -- gone or a row does not come: it takes `received` jobs.
    unfoldable pub get_jobs : String → ℕ → Db J → Db J × List JobSpec
    get_jobs region received db =
        (lock_jobs env region db, take received (map job_spec (handed_out env region db)))
