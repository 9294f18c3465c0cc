-- ===== src/Drone/Execute.antt =====
-- `run_job` of src/drone/jobs.rs: when a job is executed, how much of the body of its response is
-- kept, and the execution that is reported. The request itself, made by reqwest, is a parameter.
use rocktick.Prelude.{
  ℕ, ◌+◌, ◌-◌, ◌%◌, ◌^◌, String, Bool, false, Option, none, some, List, [], ◌∷◌, ◌++◌, length, ltb,
  ◌==◌, if◌then◌else◌,
}
use rocktick.Prelude.Int.{ℤ, pos, negsuc, pos_part, ltb_ℤ, scale_ℤ, ◌-ℤ◌}
use rocktick.Prelude.Selections.{take}
use rocktick.Prelude.Dict.{Dict, extend}
use rocktick.Drone.Store.Rows.{JobExecution}
use rocktick.Secrets.KeyRing.{Bytes}
use rocktick.Broker.Spec.{JobSpec}

-- `as usize` of an `i64`, on 64 bits.
abbrev pub as_usize : ℤ → ℕ
as_usize (pos n) = n % 2 ^ 64
as_usize (negsuc n) = 2 ^ 64 - 1 - n % 2 ^ 64

-- The pieces of a body as the stream gives them; `none` is an error of the stream.
unfoldable pub read_from : Option ℤ → Bytes → List (Option Bytes) → Bytes
read_from limit body [] = body
read_from limit body (none ∷ rest) = body
read_from none body (some chunk ∷ rest) = read_from none (body ++ chunk) rest
read_from (some limit) body (some chunk ∷ rest) =
    let all = read_from (some limit) (body ++ chunk) rest in
    let limit_left = as_usize limit - length body in
    if limit_left == 0
    then body
    else if ltb limit_left (length chunk)
    then body ++ take limit_left chunk
    else all

unfoldable pub read_body : Option ℤ → List (Option Bytes) → Bytes
unfolding read_from
read_body limit chunks = read_from limit [] chunks

-- What reqwest gives of a response: a header's value is a text or is not.
pub record HttpReply : Type 0 where
  pub status : ℕ
  pub is_success : Bool
  pub headers : List (String × Option String)
  pub chunks : List (Option Bytes)

-- A reply, or the text of an error.
pub data Attempt : Type 0 where
  replied : HttpReply → Attempt
  failed : String → Attempt

unfoldable pub text_headers : Dict String → List (String × Option String) → Dict String
text_headers d [] = d
text_headers d ((k, none) ∷ rest) = text_headers d rest
text_headers d ((k, some v) ∷ rest) = text_headers (extend d ((k, v) ∷ [])) rest

-- `String::from_utf8_lossy` is the first argument.
unfoldable pub execution : (Bytes → String) → JobSpec → Attempt → ℤ → JobExecution
execution lossy job (replied res) executed_at = record {
  job_id = job.job_id;
  success = res.is_success;
  lock_nonce = job.lock_nonce;
  response = some (record {
    status = pos res.status;
    headers = text_headers [] res.headers;
    body = lossy (read_body job.max_response_bytes res.chunks);
  });
  response_error = none;
  req_method = job.method;
  req_url = job.url;
  req_headers = job.headers;
  req_body = job.body;
  executed_at = executed_at;
}
execution lossy job (failed error) executed_at = record {
  job_id = job.job_id;
  success = false;
  lock_nonce = job.lock_nonce;
  response = none;
  response_error = some error;
  req_method = job.method;
  req_url = job.url;
  req_headers = job.headers;
  req_body = job.body;
  executed_at = executed_at;
}

-- The milliseconds that a job waits, by the drone's clock and the random number below 450.
unfoldable pub millis_until : JobSpec → ℤ → ℕ → ℕ
millis_until job now random =
    let remaining = scale_ℤ 1000 job.scheduled_at -ℤ now in
    (if ltb_ℤ (pos 5000) remaining then 5000 else pos_part remaining) + random
