-- ===== src/Tests/Store.antt =====
-- The drone's store on two results, one of which waits for the broker.
use rocktick.Prelude.{
  ◌≡◌, refl, String, true, false, none, some, [], ◌∷◌, inl, inr, str_eq, if◌then◌else◌,
}
use rocktick.Prelude.Int.{ℤ, pos}
use rocktick.Prelude.Result.{ok}
use rocktick.Prelude.Tables.{get_row}
use rocktick.Drone.Store.Rows.{JobExecution, Row, ResponseRow, DroneStore, Codec, job_key}
use rocktick.Drone.Store.Ops.{
  get_execution, insert_execution, cleanup_executions, cleanup_executions_post_sync,
  get_job_to_sync, intermediate_to_execution, joined,
}
use rocktick.Drone.Store.Lifecycle.{inserts, claims, cleans, syncs, StoreOk, run, run-StoreOk}
use rocktick.Drone.Store.Decode.{fresh_metadata, get-insert}
use rocktick.Drone.Store.Cleanup.{get-cleanup}
use rocktick.Drone.Store.Claim.{give_back-get_job}

-- Knows two header maps.
abbrev codec : Codec
codec = record {
  to_json = λ h. elim h [ [] ↦ "{}" | x ∷ xs ↦ "{\"accept\":\"*\"}" ];
  from_json = λ t. if str_eq t "{}" then some [] else some (("accept", "*") ∷ []);
  is_object = λ t. true;
  in_range = λ t. true;
  in_range-zero = refl;
}

abbrev row : String → ℤ → String → Row
row id executed_at status = record {
  job_id = id;
  success = false;
  lock_nonce = pos 7;
  response_id = none;
  response_error = some "timeout";
  req_method = "GET";
  req_url = "http://example.com";
  req_header_map = "{}";
  req_body = none;
  executed_at = executed_at;
  is_local = true;
  replicated_times = pos 0;
  sync_status = status;
  sync_time = none;
  sync_nonce = none;
}

abbrev waiting : Row
waiting = row "job_1" (pos 100) "local"

abbrev sent : Row
sent = row "job_2" (pos 90) "synced"

abbrev store : DroneStore
store = record { executions = sent ∷ waiting ∷ []; responses = [] }

abbrev execution_of : Row → JobExecution
execution_of r = record {
  job_id = r.job_id;
  success = r.success;
  lock_nonce = r.lock_nonce;
  response = none;
  response_error = r.response_error;
  req_method = r.req_method;
  req_url = r.req_url;
  req_headers = [];
  req_body = r.req_body;
  executed_at = r.executed_at;
}

-- A new execution, with a response and a header.
abbrev answered : JobExecution
answered = record {
  job_id = "job_3";
  success = true;
  lock_nonce = pos 8;
  response = some (record { status = pos 200; headers = []; body = "ok" });
  response_error = none;
  req_method = "POST";
  req_url = "http://example.com/hook";
  req_headers = ("accept", "*") ∷ [];
  req_body = some "{}";
  executed_at = pos 120;
}

store-StoreOk : StoreOk store
unfolding get_row
store-StoreOk = record {
  rows = (inl (inr refl, refl, refl), (inl (inl refl, refl, refl), tt));
  unique = (refl, (refl, tt));
}

waiting-get_row : get_row job_key "job_1" store.executions ≡ some waiting
unfolding get_row
waiting-get_row = refl

waiting-get_execution :
    get_execution codec "job_1" store ≡ ok (execution_of waiting, fresh_metadata true)
unfolding get_execution get_row intermediate_to_execution joined
waiting-get_execution = refl

give_back-get_job_example :
    cleanup_executions_post_sync (pos 5) (get_job_to_sync codec (pos 5) (pos 200) store).0 ≡ store
give_back-get_job_example =
    give_back-get_job codec (pos 5) (pos 200) store store-StoreOk (refl, (refl, tt))

run-StoreOk_example : StoreOk (
    run codec store (
      inserts answered true "response_1"
      ∷ claims (pos 5) (pos 200)
      ∷ syncs "job_1"
      ∷ cleans (pos 300)
      ∷ []))
run-StoreOk_example = run-StoreOk codec store _ store-StoreOk

get-cleanup_example :
    get_execution codec "job_1" (cleanup_executions (pos 9000) store)
    ≡ ok (execution_of waiting, fresh_metadata true)
get-cleanup_example =
    get-cleanup codec (pos 9000) store "job_1" waiting (execution_of waiting) (fresh_metadata true)
      waiting-get_row refl waiting-get_execution

answered_fresh : get_row job_key "job_3" store.executions ≡ none
unfolding get_row
answered_fresh = refl

response_fresh : get_row (λ (r : ResponseRow). r.id) "response_1" [] ≡ none
unfolding get_row
response_fresh = refl

get-insert_example :
    (s' : DroneStore) × (insert_execution codec answered true "response_1" store ≡ ok s')
    × (get_execution codec "job_3" s' ≡ ok (answered, fresh_metadata true))
get-insert_example =
    get-insert codec answered true "response_1" store answered_fresh response_fresh refl
      (refl, refl) (refl, refl)
