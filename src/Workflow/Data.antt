-- ===== src/Workflow/Data.antt =====
-- What a workflow's implementation returns (`ReturnedData` of src/util/workflow.rs), and the JSON
-- library, which is a parameter. A `Url` is taken by its text.
use rocktick.Prelude.{String, Option, [], unwrap_or}
use rocktick.Prelude.Int.{ℤ, pos}
use rocktick.Prelude.Dict.{Dict}
use rocktick.Db.Jobs.{Timestamp}

pub data WaitDefinition : Type 0 where
  v1_struct v1_tuple : Timestamp → WaitDefinition

unfoldable pub wait_until : WaitDefinition → Timestamp
wait_until (v1_struct t) = t
wait_until (v1_tuple t) = t

pub data ChildDefinition (J : Type 0) : Type 0 where
  v1_struct : String → J → Option ℤ → ChildDefinition J
  v1_tuple : String → J → ChildDefinition J

pub record ReturnedData (J : Type 0) : Type 0 where
  pub steps : Option (Dict J)
  pub children : Option (Dict (ChildDefinition J))
  pub waits : Option (Dict WaitDefinition)
  pub result : Option J
  pub error : Option String

module _ {J : Type 0} where
  unfoldable pub url : ChildDefinition J → String
  url (ChildDefinition.v1_struct u input retries) = u
  url (ChildDefinition.v1_tuple u input) = u

  unfoldable pub input : ChildDefinition J → J
  input (ChildDefinition.v1_struct u i retries) = i
  input (ChildDefinition.v1_tuple u i) = i

  unfoldable pub max_retries : ChildDefinition J → ℤ
  max_retries (ChildDefinition.v1_struct u i retries) = unwrap_or retries (pos 9)
  max_retries (ChildDefinition.v1_tuple u i) = pos 9

  abbrev pub new_steps : ReturnedData J → Dict J
  new_steps r = unwrap_or r.steps []

  abbrev pub new_children : ReturnedData J → Dict (ChildDefinition J)
  new_children r = unwrap_or r.children []

  abbrev pub new_waits : ReturnedData J → Dict WaitDefinition
  new_waits r = unwrap_or r.waits []

-- serde_json: the parsers, and the texts of the messages about their errors.
pub record Serde (J : Type 0) : Type 0 where
  pub from_str : String → Option J
  pub from_value : J → Option (ReturnedData J)
  pub parse_message : String → String
  pub mismatch_message : J → String
  pub returned_error_message : String → String
  pub poorly_formed_message : J → String
