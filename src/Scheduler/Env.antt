-- ===== src/Scheduler/Env.antt =====
-- What a run of a scheduler reads besides the tables: the clocks, the ids of src/id.rs, the row locks
-- of other transactions, the database's collation, and JSON. All are parameters.
use rocktick.Prelude.{ℕ, ◌-◌, ◌^◌, ◌%◌, ◌*◌, String, Bool, ltb, if◌then◌else◌}
use rocktick.Prelude.Int.{ℤ, pos, negsuc}
use rocktick.Db.Jobs.{Timestamp}
use rocktick.Workflow.Data.{Serde}
use rocktick.Workflow.Context.{WorkflowContext}

pub record Env (J : Type 0) : Type 0 where
  -- `now()`, the start of the transaction, and `Utc::now()`.
  pub now : Timestamp
  pub utc_now : Timestamp
  -- Rows of this id are held by another transaction: SKIP LOCKED passes them over.
  pub locked : String → Bool
  -- ORDER BY on a text column.
  pub text_le : String → String → Bool
  -- `id::generate(prefix)` at its n-th call in the run, and `id::gen_for_time`.
  pub generate : String → ℕ → String
  pub gen_for_time : String → Timestamp → ℕ → String
  -- `DefaultHasher` on a text.
  pub full_hash : String → ℕ
  pub serde : Serde J
  pub to_value : WorkflowContext J → J
  pub to_string : J → String
  -- The message about a retry limit.
  pub limit_message : ℤ → String

-- `(full_hash & 0xFFFFFFFF) as u32 as i32`.
unfoldable pub hash_i32 : ℕ → ℤ
hash_i32 full =
    let bits = full % 2 ^ 32 in if ltb bits (2 ^ 31) then pos bits else negsuc (2 ^ 32 - 1 - bits)

abbrev pub seconds : ℕ → ℤ
seconds n = pos (n * 1_000_000)
