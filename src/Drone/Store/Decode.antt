-- ===== src/Drone/Store/Decode.antt =====
-- What src/drone/store/executions.rs stores it reads back.
use rocktick.Prelude.{
  ◌≡◌, ◌≢◌, subst, String, Bool, true, ◌&&◌, ◌||◌, Option, none, some, List, [], ◌∷◌, ◌++◌, arith,
  str_eq_refl, is_some, is_none, inl, inr, Option-cases,
}
use rocktick.Prelude.Int.{pos}
use rocktick.Prelude.Result.{ok}
use rocktick.Prelude.Tables.{get_row, get_row-append}
use rocktick.Drone.Store.Rows.{
  Response, JobExecution, Row, ResponseRow, DroneStore, local, ExecutionMetadata, Codec, job_key,
  response_key, Encodes, EncodesResponse,
}
use rocktick.Drone.Store.Ops.{
  get_execution, insert_execution, new_row, intermediate_to_execution, joined,
}

-- The metadata of a row that was just written.
abbrev pub fresh_metadata : Bool → ExecutionMetadata
fresh_metadata is_local = record {
  is_local = is_local;
  replicated_times = pos 0;
  sync_status = local;
  sync_time = pos 0;
  sync_nonce = pos 0;
}

-- Either a response or an error.
abbrev pub HasOutcome : JobExecution → Type 0
HasOutcome e =
    (is_some e.response && is_none e.response_error
      || is_none e.response && is_some e.response_error)
    ≡ true

module _ (c : Codec) (exec : JobExecution) (is_local : Bool) (id : String) (s : DroneStore) where
  abbrev response_row : Response → ResponseRow
  response_row res = record {
    id = id;
    status = res.status;
    header_map = c.to_json res.headers;
    body = res.body;
  }

  abbrev with_row : Option String → List ResponseRow → DroneStore
  with_row response_id t = record {
    executions = s.executions ++ new_row c exec is_local response_id ∷ [];
    responses = t;
  }

  -- An execution with an outcome, of a job that is not stored yet, is stored under a fresh response
  -- id, and is then read back as it was, with the metadata of a new row; given that serde_json reads
  -- back its headers.
  pub get-insert :
      get_row job_key exec.job_id s.executions ≡ none
      → get_row response_key id s.responses ≡ none
      → HasOutcome exec
      → Encodes c exec.req_headers
      → EncodesResponse c exec.response
      → (s' : DroneStore) × (insert_execution c exec is_local id s ≡ ok s')
        × (get_execution c exec.job_id s' ≡ ok (exec, fresh_metadata is_local))
  unfolding get_execution insert_execution intermediate_to_execution joined
  get-insert fresh fresh_id outcome encodes encodes_response =
      let found = λ (i : Option String).
        get_row-append job_key exec.job_id s.executions (new_row c exec is_local i) fresh in
      let same = str_eq_refl exec.job_id in
      elim (Option-cases exec.response) [
        | inl e ↦ (
          with_row none s.responses,
          ground (arith, encodes.1),
          ground (arith, found none, encodes.0, same, c.in_range-zero),
        )
        | inr (res, e) ↦
            let body : Encodes c res.headers = subst (EncodesResponse c) e encodes_response in
            (
              with_row (some id) (s.responses ++ response_row res ∷ []),
              ground (arith, encodes.1, body.1),
              ground (
                arith,
                found (some id),
                encodes.0,
                same,
                c.in_range-zero,
                get_row-append response_key id s.responses (response_row res) fresh_id,
                str_eq_refl id,
                body.0,
              ),
            )
      ]

  -- A second execution of the same job is refused, whatever it holds.
  pub insert_duplicate :
      (old : Row)
      → get_row job_key exec.job_id s.executions ≡ some old
      → (s' : DroneStore) → insert_execution c exec is_local id s ≢ ok s'
  unfolding insert_execution
  insert_duplicate old h s' = ground arith
