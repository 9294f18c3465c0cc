-- ===== src/Db/Workflows.antt =====
-- The rows of schema_pg.sql that belong to workflows; `J` is the type of JSON values. The execution
-- row is `DbExecution` of src/util/workflow.rs.
use rocktick.Prelude.{String, Bool, Option}
use rocktick.Prelude.Int.{ℤ}
use rocktick.Db.Jobs.{Timestamp}

pub record Workflow (J : Type 0) : Type 0 where
  pub id : String
  pub region : String
  pub tenant_id : Option String
  pub implementation_url : String
  pub input : J
  -- NOT NULL; an INSERT that leaves the column out has nothing for it.
  pub context : Option J
  pub status : String
  pub result : Option J
  pub error : Option String
  pub max_retries : ℤ

pub record DbExecution (J : Type 0) : Type 0 where
  pub id : String
  pub region : String
  pub workflow_id : String
  pub execution_index : ℤ
  pub tenant_id : Option String
  pub status : String
  pub is_retry : Bool
  pub executed_at : Option Timestamp
  pub result_json : Option J
  pub failure_reason : Option String

pub record Dependency : Type 0 where
  pub id : String
  pub workflow_execution_id : String
  pub child_workflow_name : Option String
  pub child_workflow_id : Option String
  pub wait_name : Option String
  pub wait_until : Option Timestamp
