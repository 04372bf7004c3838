-- ===== src/Domain/Tasks.antt =====
-- src/domain.rs: tasks, the operations that regroup their sessions, and stable ids.
use previously_on.Prelude.{ℕ, Bool, String, Option, List, [], ◌∷◌, concat, take_chars}

pub data TaskLifecycle : Type 0 where
  active completed abandoned : TaskLifecycle

pub record TaskV1 : Type 0 where
  pub schema_version : ℕ
  pub id : String
  pub repository_id : String
  pub title : String
  pub goal : Option String
  pub lifecycle : TaskLifecycle
  pub branch : Option String
  pub created_at : ℕ
  pub updated_at : ℕ

pub data TaskGroupingActionV1 : Type 0 where
  move merge split undo : TaskGroupingActionV1

pub record SessionMoveV1 : Type 0 where
  pub session_id : String
  pub from_task_id : String
  pub to_task_id : String

pub record TaskLifecycleSnapshotV1 : Type 0 where
  pub task_id : String
  pub before : Option TaskLifecycle
  pub after : Option TaskLifecycle

pub record FactGroupingImpactV1 : Type 0 where
  pub fact_id : String
  pub from_task_id : String
  pub to_task_id : Option String
  pub mixed_provenance : Bool
  pub session_ids : List String

pub record TaskGroupingOperationV1 : Type 0 where
  pub schema_version : ℕ
  pub operation_id : String
  pub repository_id : String
  pub action : TaskGroupingActionV1
  pub session_moves : List SessionMoveV1
  pub task_lifecycle : List TaskLifecycleSnapshotV1
  pub fact_impacts : List FactGroupingImpactV1
  pub created_task : Option TaskV1
  pub inverse_of : Option String
  pub request_fingerprint : String
  pub occurred_at : ℕ

-- What the hash reads: each part, and a zero byte after it.
abbrev hashed_parts : List String → String
hashed_parts [] = ""
hashed_parts (part ∷ parts) = concat (part ∷ "\0" ∷ hashed_parts parts ∷ [])

unfoldable pub deterministic_id : (String → String) → String → List String → String
deterministic_id sha256_hex prefix parts =
    concat (prefix ∷ "-" ∷ take_chars 24 (sha256_hex (hashed_parts parts)) ∷ [])
