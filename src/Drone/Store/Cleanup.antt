-- ===== src/Drone/Store/Cleanup.antt =====
-- `cleanup_executions` of src/drone/store/executions.rs: which results survive it, and which go.
use rocktick.Prelude.{
  ◌≡◌, refl, sym, ap, ◌∙◌, String, true, false, not, Option, none, some, List, arith, inl, inr,
  Option-cases, str_eq, str_eq_refl, is_text, if◌then◌else◌, Bool-cases,
}
use rocktick.Prelude.Int.{ℤ, pos, ◌-ℤ◌}
use rocktick.Prelude.Result.{ok, err}
use rocktick.Prelude.Tables.{get_row, update_where, key-get_row}
use rocktick.Prelude.Updates.{
  get_row-update_where, UniqueKeys-update_where, get_row-delete_none, get_row-delete_spared,
  get_row-delete_hit, any-get_row, All-get_row,
}
use rocktick.Drone.Store.Rows.{
  JobExecution, Row, ResponseRow, DroneStore, local, ExecutionMetadata, Codec, job_key,
  response_key, row_not_found,
}
use rocktick.Drone.Store.Ops.{
  get_execution, intermediate_to_execution, joined, settle_as, cleanup_executions, refers_to,
  is_stuck, is_synced, is_before, hour,
}
use rocktick.Drone.Store.Lifecycle.{StoreOk, RowOk}

-- The row after the first statement.
abbrev reset_row : ℤ → Row → Row
reset_row now r = if is_stuck now r then settle_as "local" r else r

abbrev reset_rows : ℤ → DroneStore → List Row
reset_rows now s = update_where (is_stuck now) (settle_as "local") s.executions

get_row-reset :
    (now : ℤ) (s : DroneStore) (id : String) (r : Row)
    → get_row job_key id s.executions ≡ some r
    → get_row job_key id (reset_rows now s) ≡ some (reset_row now r)
get_row-reset now s id r h =
    rw (
      get_row-update_where job_key (is_stuck now) (settle_as "local") id s.executions (λ _. refl),
      h,
    )

not_synced-reset : (now : ℤ) (r : Row) → is_synced r ≡ false → is_synced (reset_row now r) ≡ false
not_synced-reset now r alive =
    elim (is_stuck now r) as (λ b. is_synced (if b then settle_as "local" r else r) ≡ false) [
      | true ↦ refl
      | false ↦ alive
    ]

get_row-cleanup :
    (now : ℤ) (s : DroneStore) (id : String) (r : Row)
    → get_row job_key id s.executions ≡ some r
    → is_synced r ≡ false
    → get_row job_key id (cleanup_executions now s).executions ≡ some (reset_row now r)
unfolding cleanup_executions
get_row-cleanup now s id r h alive =
    get_row-delete_spared job_key is_synced id (reset_rows now s) (reset_row now r)
      (get_row-reset now s id r h) (not_synced-reset now r alive)

-- The response of a row that stays is found as before.
joined-cleanup :
    (now : ℤ) (s : DroneStore) (id : String) (r : Row) (i : Option String)
    → get_row job_key id (cleanup_executions now s).executions ≡ some r
    → r.response_id ≡ i
    → joined i (cleanup_executions now s).responses ≡ joined i s.responses
unfolding joined cleanup_executions refers_to
joined-cleanup now s id r none h e = refl
joined-cleanup now s id r (some rid) h e =
    elim (Option-cases (get_row response_key rid s.responses)) [
      | inl q ↦ get_row-delete_none response_key _ rid s.responses q ∙ sym q
      | inr (x, q) ↦
          let named = key-get_row response_key rid s.responses x q in
          let used : is_text r.response_id x.id ≡ true = rw (e, named) (str_eq_refl rid) in
          let kept = any-get_row job_key (λ y. is_text y.response_id x.id) id _ r h used in
          get_row-delete_spared response_key _ rid s.responses x q (ap not kept) ∙ sym q
    ]

-- What a reader gets of a row that the cleanup put back.
abbrev put_back : ExecutionMetadata → ExecutionMetadata
put_back m = record m { sync_status = local; sync_time = pos 0; sync_nonce = pos 0 }

-- Decoding reads the sync columns into the metadata only.
decode-reset :
    (c : Codec) (now : ℤ) (r : Row) (res : Option ResponseRow) (exec : JobExecution)
    (m : ExecutionMetadata)
    → intermediate_to_execution c r res ≡ ok (exec, m)
    → intermediate_to_execution c (reset_row now r) res
      ≡ ok (exec, if is_stuck now r then put_back m else m)
unfolding intermediate_to_execution
decode-reset c now r res exec m h = elim (Bool-cases (is_stuck now r)) [
  | inl e ↦ rw e (ground (arith, c.in_range-zero))
  | inr e ↦ rw e h
]

get_execution-row :
    (c : Codec) (id : String) (s : DroneStore) (r : Row)
    → get_row job_key id s.executions ≡ some r
    → get_execution c id s ≡ intermediate_to_execution c r (joined r.response_id s.responses)
unfolding get_execution
get_execution-row c id s r h = rw h

response_id-reset :
    (now : ℤ) (r : Row) (t : List ResponseRow)
    → joined (reset_row now r).response_id t ≡ joined r.response_id t
response_id-reset now r t =
    elim (is_stuck now r)
      as (λ b.
        joined (if b then settle_as "local" r else r).response_id t ≡ joined r.response_id t) [
          | true ↦ refl
          | false ↦ refl
        ]

-- A synced row carries no time, so the first statement passes it over.
reset_row-synced : (now : ℤ) (r : Row) → RowOk r → is_synced r ≡ true → reset_row now r ≡ r
reset_row-synced now r (inl (_, settled, _)) h =
    ap (λ b. if is_before b (now -ℤ hour) then settle_as "local" r else r) settled
reset_row-synced now r (inr (claimed, _, _)) h =
    let clash : str_eq "pending" "synced" ≡ true = rw claimed at h in cc

module _ (c : Codec) (now : ℤ) (s : DroneStore) (id : String) (r : Row) where
  -- A result that can be read and is not synced is read after a cleanup as the same result. Its
  -- metadata is the same as well, unless its claim is more than an hour old: then it is local
  -- again, with no time and no nonce.
  pub get-cleanup :
      (exec : JobExecution) (m : ExecutionMetadata)
      → get_row job_key id s.executions ≡ some r
      → is_synced r ≡ false
      → get_execution c id s ≡ ok (exec, m)
      → get_execution c id (cleanup_executions now s)
        ≡ ok (exec, if is_stuck now r then put_back m else m)
  get-cleanup exec m here alive h =
      let after = get_row-cleanup now s id r here alive in
      let response =
        joined-cleanup now s id (reset_row now r) _ after refl
        ∙ response_id-reset now r s.responses in
      get_execution-row c id (cleanup_executions now s) (reset_row now r) after
      ∙ ap (intermediate_to_execution c (reset_row now r)) response
      ∙ decode-reset c now r _ exec m (sym (get_execution-row c id s r here) ∙ h)

  -- In a sound store a synced result is gone after a cleanup.
  pub get-cleanup_synced :
      StoreOk s
      → get_row job_key id s.executions ≡ some r
      → is_synced r ≡ true
      → get_execution c id (cleanup_executions now s) ≡ err row_not_found
  unfolding get_execution cleanup_executions
  get-cleanup_synced v here done =
      let sound = All-get_row job_key RowOk id s.executions r v.rows here in
      rw (
        get_row-delete_hit job_key is_synced id (reset_rows now s) r
          (UniqueKeys-update_where job_key _ _ s.executions (λ _. refl) v.unique)
          (get_row-reset now s id r here ∙ ap some (reset_row-synced now r sound done)) done)
