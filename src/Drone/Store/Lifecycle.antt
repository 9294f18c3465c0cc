-- ===== src/Drone/Store/Lifecycle.antt =====
-- The sync life cycle of the rows of src/drone/store/executions.rs: local, pending, synced.
use rocktick.Prelude.{
  ◌≡◌, ◌⊎◌, inl, inr, refl, String, Bool, true, Option, none, some, List, [], ◌∷◌, ◌++◌, arith,
  is_some, All, Option-cases, eq_iff,
}
use rocktick.Prelude.Int.{ℤ}
use rocktick.Prelude.Result.{ok, Result-cases, returns, raises, panics}
use rocktick.Prelude.Tables.{get_row, update_where, delete_where, UniqueKeys, get_row-append}
use rocktick.Prelude.Updates.{
  All-update_where, All-delete_where, UniqueKeys-update_where, UniqueKeys-delete_where,
}
use rocktick.Drone.Store.Rows.{JobExecution, Row, ResponseRow, DroneStore, Codec, job_key}
use rocktick.Drone.Store.Ops.{
  insert_execution, new_row, record_replication, settle_as, cleanup_executions_post_sync,
  cleanup_executions, is_stuck, is_synced, claim, oldest_waiting, get_job_to_sync,
  mark_successfully_synced,
}

-- A row carries a time and a nonce exactly while it is pending.
abbrev pub Settled : Row → Type 0
Settled r =
    ((r.sync_status ≡ "local") ⊎ (r.sync_status ≡ "synced"))
    × (r.sync_time ≡ none)
    × (r.sync_nonce ≡ none)

abbrev pub Claimed : Row → Type 0
Claimed r =
    (r.sync_status ≡ "pending") × (is_some r.sync_time ≡ true) × (is_some r.sync_nonce ≡ true)

abbrev pub RowOk : Row → Type 0
RowOk r = Settled r ⊎ Claimed r

pub record StoreOk (s : DroneStore) : Type 0 where
  pub rows : All RowOk s.executions
  pub unique : UniqueKeys job_key s.executions

-- Every operation of the store.
pub data Call : Type 0 where
  inserts : JobExecution → Bool → String → Call
  replicates syncs : String → Call
  gives_back cleans : ℤ → Call
  claims : ℤ → ℤ → Call

-- A call that fails leaves the store as it was.
abbrev pub after_insert : Codec → JobExecution → Bool → String → DroneStore → DroneStore
after_insert c exec is_local id s = elim (insert_execution c exec is_local id s) [
  | ok s' ↦ s'
  | _ ↦ s
]

pub step : Codec → DroneStore → Call → DroneStore
step c s (inserts exec is_local id) = after_insert c exec is_local id s
step c s (replicates id) = record_replication id s
step c s (syncs id) = mark_successfully_synced id s
step c s (gives_back nonce) = cleanup_executions_post_sync nonce s
step c s (cleans now) = cleanup_executions now s
step c s (claims nonce now) = (get_job_to_sync c nonce now s).0

pub run : Codec → DroneStore → List Call → DroneStore
run c s [] = s
run c s (x ∷ xs) = run c (step c s x) xs

RowOk-append : (t : List Row) (x : Row) → All RowOk t → RowOk x → All RowOk (t ++ x ∷ [])
RowOk-append [] x a h = (h, tt)
RowOk-append (y ∷ t) x a h = (a.0, RowOk-append t x a.1 h)

UniqueKeys-append :
    (t : List Row) (x : Row)
    → UniqueKeys job_key t
    → get_row job_key x.job_id t ≡ none
    → UniqueKeys job_key (t ++ x ∷ [])
unfolding get_row
UniqueKeys-append [] x u h = (refl, tt)
UniqueKeys-append (y ∷ t) x u h = (
  ground (
    arith,
    get_row-append job_key y.job_id t x u.0,
    eq_iff x.job_id y.job_id,
    eq_iff y.job_id x.job_id,
  ),
  UniqueKeys-append t x u.1 (ground arith),
)

-- What a successful insert appends.
insert_rows :
    (c : Codec) (exec : JobExecution) (is_local : Bool) (id : String) (s s' : DroneStore)
    → insert_execution c exec is_local id s ≡ ok s'
    → (i : Option String) × (s'.executions ≡ s.executions ++ new_row c exec is_local i ∷ [])
      × (get_row job_key exec.job_id s.executions ≡ none)
unfolding insert_execution
insert_rows c exec is_local id s s' h = elim (Option-cases exec.response) [
  | inl e ↦ (none, ground arith, ground arith)
  | inr (res, e) ↦ (some id, ground arith, ground arith)
]

insert-StoreOk :
    (c : Codec) (exec : JobExecution) (is_local : Bool) (id : String) (s : DroneStore)
    → StoreOk s
    → StoreOk (after_insert c exec is_local id s)
insert-StoreOk c exec is_local id s v =
    elim (Result-cases (insert_execution c exec is_local id s)) [
      | returns s' q ↦
          let (i, e, absent) = insert_rows c exec is_local id s s' q in
          rw (q, after_insert)
            (record {
              rows = rw e (
                  RowOk-append s.executions (new_row c exec is_local i) v.rows
                    (unfold new_row in inl (inl refl, refl, refl)));
              unique = rw e (
                  UniqueKeys-append s.executions (new_row c exec is_local i) v.unique
                    (unfold new_row in absent));
            })
      | raises x q ↦ rw (q, after_insert) v
      | panics q ↦ rw (q, after_insert) v
    ]

-- An update that leaves the ids alone and makes sound rows keeps the store sound.
update-StoreOk :
    (p : Row → Bool) (f : Row → Row) (s : DroneStore) (responses : List ResponseRow)
    → ((r : Row) → RowOk r → p r ≡ true → RowOk (f r))
    → ((r : Row) → (f r).job_id ≡ r.job_id)
    → StoreOk s
    → StoreOk (record { executions = update_where p f s.executions; responses = responses })
update-StoreOk p f s responses sound same v = record {
  rows = All-update_where RowOk p f s.executions sound v.rows;
  unique = UniqueKeys-update_where job_key p f s.executions same v.unique;
}

delete-StoreOk :
    (p : Row → Bool) (s : DroneStore) (responses : List ResponseRow)
    → StoreOk s
    → StoreOk (record { executions = delete_where p s.executions; responses = responses })
delete-StoreOk p s responses v = record {
  rows = All-delete_where RowOk p s.executions v.rows;
  unique = UniqueKeys-delete_where job_key p s.executions v.unique;
}

claims-StoreOk :
    (c : Codec) (nonce now : ℤ) (s : DroneStore)
    → StoreOk s
    → StoreOk (get_job_to_sync c nonce now s).0
unfolding get_job_to_sync
claims-StoreOk c nonce now s v = elim (Option-cases (oldest_waiting s.executions)) [
  | inl e ↦ rw (e, get_job_to_sync) v
  | inr (r, e) ↦
      rw (e, get_job_to_sync)
        (update-StoreOk _ (claim nonce now) s s.responses (λ _ _ _. inr (refl, refl, refl))
          (λ _. refl) v)
]

-- Every operation keeps the rows sound and the ids unique.
pub step-StoreOk : (c : Codec) (s : DroneStore) (x : Call) → StoreOk s → StoreOk (step c s x)
unfolding step record_replication mark_successfully_synced cleanup_executions_post_sync
    cleanup_executions
step-StoreOk c s (inserts exec is_local id) v = insert-StoreOk c exec is_local id s v
step-StoreOk c s (replicates id) v = update-StoreOk _ _ s s.responses (λ _ ok _. ok) (λ _. refl) v
step-StoreOk c s (syncs id) v =
    update-StoreOk _ (settle_as "synced") s s.responses (λ _ _ _. inl (inr refl, refl, refl))
      (λ _. refl) v
step-StoreOk c s (gives_back nonce) v =
    update-StoreOk _ (settle_as "local") s s.responses (λ _ _ _. inl (inl refl, refl, refl))
      (λ _. refl) v
step-StoreOk c s (cleans now) v =
    let reset =
      update-StoreOk (is_stuck now) (settle_as "local") s s.responses
        (λ _ _ _. inl (inl refl, refl, refl)) (λ _. refl) v in
    delete-StoreOk is_synced _ _ reset
step-StoreOk c s (claims nonce now) v = claims-StoreOk c nonce now s v

-- Whatever operations run on a sound store, it stays sound: no job has two rows, and a row carries
-- a time and a nonce exactly while it is pending.
pub run-StoreOk : (c : Codec) (s : DroneStore) (xs : List Call) → StoreOk s → StoreOk (run c s xs)
unfolding run
run-StoreOk c s [] v = v
run-StoreOk c s (x ∷ xs) v = run-StoreOk c (step c s x) xs (step-StoreOk c s x v)
