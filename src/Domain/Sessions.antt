-- ===== src/Domain/Sessions.antt =====
-- src/domain.rs: sessions.
use previously_on.Prelude.{ℕ, String, Option}
use previously_on.Domain.Coverage.{CoverageV1}

pub data SessionLifecycle : Type 0 where
  active completed interrupted : SessionLifecycle

pub data ContinuationStateV1 : Type 0 where
  normal eligible suggested : ContinuationStateV1

pub record ContextUsageV1 : Type 0 where
  pub total_tokens : ℕ
  pub model_context_window : ℕ
  pub observed_at : Option ℕ

pub record SessionV1 : Type 0 where
  pub schema_version : ℕ
  pub id : String
  pub repository_id : String
  pub task_id : Option String
  pub lifecycle : SessionLifecycle
  pub started_at : ℕ
  pub ended_at : Option ℕ
  pub branch : Option String
  pub head : Option String
  pub source_thread_id : Option String
  pub last_activity_at : Option ℕ
  pub turn_count : ℕ
  pub compaction_count : ℕ
  pub context_usage : Option ContextUsageV1
  pub continuation_state : ContinuationStateV1
  pub coverage : CoverageV1
