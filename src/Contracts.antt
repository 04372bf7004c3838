-- ===== src/Contracts.antt =====
-- src/contracts.rs: regression contracts, the changes that they are matched with, and evaluations.
pub mod Token
pub mod Argv
pub mod Checked
pub mod RequiredTest
pub mod Validate
pub mod Match
pub mod Evaluation
mod Tests
use previously_on.Prelude.{ℕ, String, Option, List, Bool}

pub data ContractStatusV1 : Type 0 where
  active superseded : ContractStatusV1

pub data PathSelectorKindV1 : Type 0 where
  exact prefix : PathSelectorKindV1

pub record ImpactPathSelectorV1 : Type 0 where
  pub kind : PathSelectorKindV1
  pub value : String

pub record ImpactSelectorGroupV1 : Type 0 where
  pub path : ImpactPathSelectorV1
  pub symbols : List String

pub record RequiredTestV1 : Type 0 where
  pub id : String
  pub name : String
  pub program : String
  pub args : List String
  pub working_directory : String
  pub timeout_seconds : ℕ

pub record ContractOriginV1 : Type 0 where
  pub fixed_at_commit : String
  pub recorded_at : ℕ
  pub evidence_sha256 : String

pub record RegressionContractV1 : Type 0 where
  pub schema_version : ℕ
  pub id : String
  pub title : String
  pub invariant : String
  pub status : ContractStatusV1
  pub superseded_by : Option String
  pub impact_selectors : List ImpactSelectorGroupV1
  pub required_tests : List RequiredTestV1
  pub origin : ContractOriginV1

pub data ContractReadinessV1 : Type 0 where
  ready contract_blocked : ContractReadinessV1

pub data RequiredTestStateV1 : Type 0 where
  passed failed missing stale : RequiredTestStateV1

pub record RelevantContractV1 : Type 0 where
  pub id : String
  pub title : String
  pub invariant : String
  pub match_reasons : List String

pub record RequiredTestEvaluationV1 : Type 0 where
  pub contract_id : String
  pub test_id : String
  pub name : String
  pub program : String
  pub args : List String
  pub working_directory : String
  pub timeout_seconds : ℕ
  pub state : RequiredTestStateV1
  pub detail : Option String

pub record ContractEvaluationV1 : Type 0 where
  pub schema_version : ℕ
  pub id : String
  pub repository_id : String
  pub task_id : Option String
  pub readiness : ContractReadinessV1
  pub evaluated_at : ℕ
  pub relevant_contracts : List RelevantContractV1
  pub required_tests : List RequiredTestEvaluationV1
  pub warnings : List String
  pub content_fingerprint : String
  pub continuation_issued : Bool
  pub base : Option String
  pub head : Option String
  pub merge_base : Option String

pub data ChangedHunkV1 : Type 0 where
  available : String → ChangedHunkV1
  unavailable : String → ChangedHunkV1

pub record ContractChangedFileV1 : Type 0 where
  pub path : String
  pub previous_path : Option String
  pub changed_hunk : ChangedHunkV1

pub record ContractMatchV1 : Type 0 where
  pub relevant_contracts : List RegressionContractV1
  pub summaries : List RelevantContractV1
  pub matched_paths : List String
  pub warnings : List String
