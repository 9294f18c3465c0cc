-- ===== src/Drone/Store/Ops.antt =====
-- `impl DroneStore` of src/drone/store/executions.rs: each method with its SQL. The generated
-- response id and the clock are arguments.
use rocktick.Prelude.{
  String, Bool, false, not, Option, none, some, List, [], ◌∷◌, ◌++◌, str_eq, is_none, is_text, any,
  if◌then◌else◌, unwrap_or,
}
use rocktick.Prelude.Int.{ℤ, pos, ltb_ℤ, eqb_ℤ, ◌+ℤ◌, ◌-ℤ◌}
use rocktick.Prelude.Result.{Result, ok, err, ◌>>=◌, ◌>>◌, ensure, ok_or}
use rocktick.Prelude.Tables.{get_row, update_where, delete_where}
use rocktick.Drone.Store.Rows.{
  Response, JobExecution, Row, ResponseRow, DroneStore, SyncStatus, local, pending, synced,
  ExecutionMetadata, StoreError, unique_violation, check_violation, row_not_found, bad_headers,
  invalid_sync_status, invalid_sync_time, Codec, job_key, response_key, row_checks,
}

-- LEFT JOIN execution_responses ON response_id = res.id.
unfoldable pub joined : Option String → List ResponseRow → Option ResponseRow
joined none t = none
joined (some id) t = get_row response_key id t

module _ (c : Codec) where
  decode_response : Option ResponseRow → Result StoreError (Option Response)
  decode_response none = ok none
  decode_response (some res) = do
    headers ← ok_or (c.from_json res.header_map) bad_headers
    ok (some (record { status = res.status; headers = headers; body = res.body }))

  decode_status : String → Result StoreError SyncStatus
  decode_status s =
      if str_eq s "local"
      then ok local
      else if str_eq s "pending"
      then ok pending
      else if str_eq s "synced"
      then ok synced
      else err invalid_sync_status

  -- A missing time reads as the epoch.
  decode_time : Option ℤ → Result StoreError ℤ
  decode_time t =
      let seconds = unwrap_or t (pos 0) in
      if c.in_range seconds then ok seconds else err invalid_sync_time

  unfoldable pub intermediate_to_execution :
      Row → Option ResponseRow → Result StoreError (JobExecution × ExecutionMetadata)
  unfolding decode_response decode_status decode_time
  intermediate_to_execution r res = do
    req_headers ← ok_or (c.from_json r.req_header_map) bad_headers
    response ← decode_response res
    sync_status ← decode_status r.sync_status
    sync_time ← decode_time r.sync_time
    ok (
      record {
        job_id = r.job_id;
        success = r.success;
        lock_nonce = r.lock_nonce;
        response = response;
        response_error = r.response_error;
        req_method = r.req_method;
        req_url = r.req_url;
        req_headers = req_headers;
        req_body = r.req_body;
        executed_at = r.executed_at;
      },
      record {
        is_local = r.is_local;
        replicated_times = r.replicated_times;
        sync_status = sync_status;
        sync_time = sync_time;
        sync_nonce = unwrap_or r.sync_nonce (pos 0);
      },
    )

  unfoldable pub get_execution :
      String → DroneStore → Result StoreError (JobExecution × ExecutionMetadata)
  get_execution id s = do
    r ← ok_or (get_row job_key id s.executions) row_not_found
    intermediate_to_execution r (joined r.response_id s.responses)

  -- INSERT INTO execution_responses, with the id that the row of the execution then refers to.
  insert_response :
      Option Response
      → String
      → List ResponseRow
      → Result StoreError (Option String × List ResponseRow)
  insert_response none id t = ok (none, t)
  insert_response (some res) id t = do
    ensure (is_none (get_row response_key id t)) unique_violation
    let row : ResponseRow = record {
      id = id;
      status = res.status;
      header_map = c.to_json res.headers;
      body = res.body;
    }
    ensure (c.is_object (c.to_json res.headers)) check_violation
    ok (some id, t ++ row ∷ [])

  unfoldable pub new_row : JobExecution → Bool → Option String → Row
  new_row exec is_local response_id = record {
    job_id = exec.job_id;
    success = exec.success;
    lock_nonce = exec.lock_nonce;
    response_id = response_id;
    response_error = exec.response_error;
    req_method = exec.req_method;
    req_url = exec.req_url;
    req_header_map = c.to_json exec.req_headers;
    req_body = exec.req_body;
    executed_at = exec.executed_at;
    is_local = is_local;
    replicated_times = pos 0;
    sync_status = "local";
    sync_time = none;
    sync_nonce = none;
  }

  -- An error ends the transaction, and the store stays as it was.
  unfoldable pub insert_execution :
      JobExecution → Bool → String → DroneStore → Result StoreError DroneStore
  unfolding insert_response new_row
  insert_execution exec is_local id s = do
    (response_id, responses) ← insert_response exec.response id s.responses
    ensure (is_none (get_row job_key exec.job_id s.executions)) unique_violation
    ensure (row_checks c (new_row exec is_local response_id)) check_violation
    ok (record {
      executions = s.executions ++ new_row exec is_local response_id ∷ [];
      responses = responses;
    })

unfoldable pub record_replication : String → DroneStore → DroneStore
record_replication id s = record s {
  executions =
      update_where (λ r. str_eq r.job_id id)
        (λ r. record r { replicated_times = r.replicated_times +ℤ pos 1 }) s.executions;
}

-- SET sync_status = …, sync_time = NULL, sync_nonce = NULL.
abbrev pub settle_as : String → Row → Row
settle_as status r = record r { sync_status = status; sync_time = none; sync_nonce = none }

-- SQL comparisons with NULL are not true.
abbrev pub is_nonce : Option ℤ → ℤ → Bool
is_nonce none n = false
is_nonce (some m) n = eqb_ℤ m n

abbrev pub is_before : Option ℤ → ℤ → Bool
is_before none t = false
is_before (some u) t = ltb_ℤ u t

unfoldable pub cleanup_executions_post_sync : ℤ → DroneStore → DroneStore
cleanup_executions_post_sync nonce s = record s {
  executions = update_where (λ r. is_nonce r.sync_nonce nonce) (settle_as "local") s.executions;
}

abbrev pub hour : ℤ
hour = pos 3600

abbrev pub is_stuck : ℤ → Row → Bool
is_stuck now r = is_before r.sync_time (now -ℤ hour)

abbrev pub is_synced : Row → Bool
is_synced r = str_eq r.sync_status "synced"

unfoldable pub refers_to : String → List Row → Bool
refers_to id t = any (λ r. is_text r.response_id id) t

-- The three statements, in their order.
unfoldable pub cleanup_executions : ℤ → DroneStore → DroneStore
unfolding refers_to
cleanup_executions now s =
    let reset = update_where (is_stuck now) (settle_as "local") s.executions in
    let kept = delete_where is_synced reset in
    record {
      executions = kept;
      responses = delete_where (λ res. not (refers_to res.id kept)) s.responses;
    }

abbrev pub is_waiting : Row → Bool
is_waiting r = str_eq r.sync_status "local"

-- ORDER BY executed_at ASC LIMIT 1, over the rows that wait.
older : Option Row → Row → Row
older none x = x
older (some y) x = if ltb_ℤ y.executed_at x.executed_at then y else x

unfoldable pub oldest_waiting : List Row → Option Row
unfolding older
oldest_waiting [] = none
oldest_waiting (x ∷ xs) =
    let rest = oldest_waiting xs in if is_waiting x then some (older rest x) else rest

abbrev pub claim : ℤ → ℤ → Row → Row
claim nonce now r = record r {
  sync_status = "pending";
  sync_nonce = some nonce;
  sync_time = some now;
}

unfoldable pub claim_row : String → ℤ → ℤ → DroneStore → DroneStore
claim_row id nonce now s = record s {
  executions = update_where (λ r. str_eq r.job_id id) (claim nonce now) s.executions;
}

-- The claim is committed before the row is decoded, so it stands also where that fails.
unfoldable pub get_job_to_sync :
    Codec → ℤ → ℤ → DroneStore → DroneStore × Result StoreError (Option JobExecution)
unfolding claim_row
get_job_to_sync c nonce now s = elim (oldest_waiting s.executions) [
  | none ↦ (s, ok none)
  | some r ↦
      let s' = claim_row r.job_id nonce now s in
      (s', (do (exec, _) ← get_execution c r.job_id s'; ok (some exec)))
]

unfoldable pub mark_successfully_synced : String → DroneStore → DroneStore
mark_successfully_synced id s = record s {
  executions = update_where (λ r. str_eq r.job_id id) (settle_as "synced") s.executions;
}
