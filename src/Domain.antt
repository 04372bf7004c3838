-- ===== src/Domain.antt =====
-- src/domain.rs: the enumerations and the records that the components exchange. Times are nanoseconds
-- since the Unix epoch. Equality of a plain enumeration is the test of its constructor.
pub mod Coverage
pub mod Temporal
pub mod Tasks
pub mod Sessions
use previously_on.Prelude.{
  ℕ, String, Bool, true, false, ◌&&◌, not, Option, none, some, List, is_empty, nat_eq, list_eq,
  ◌==◌, string_partial_eq, nat_partial_eq, option_partial_eq,
}

abbrev pub schema_version_v1 : ℕ
schema_version_v1 = 1

abbrev pub max_evidence_excerpt_chars : ℕ
max_evidence_excerpt_chars = 500

abbrev pub max_context_temporal_items : ℕ
max_context_temporal_items = 8

pub data ChangeAttribution : Type 0 where
  modified_by observed_changed_in : ChangeAttribution

-- `attribution as u8`: the position in the declaration.
abbrev pub attribution_as_u8 : ChangeAttribution → ℕ
attribution_as_u8 modified_by = 0
attribution_as_u8 observed_changed_in = 1

pub data ChangeStatus : Type 0 where
  added modified deleted renamed copied type_changed unmerged unknown : ChangeStatus

-- `status as u8`.
abbrev pub status_as_u8 : ChangeStatus → ℕ
status_as_u8 added = 0
status_as_u8 modified = 1
status_as_u8 deleted = 2
status_as_u8 renamed = 3
status_as_u8 copied = 4
status_as_u8 type_changed = 5
status_as_u8 unmerged = 6
status_as_u8 unknown = 7

pub data TestStatus : Type 0 where
  passed failed skipped unknown : TestStatus

pub data Freshness : Type 0 where
  fresh stale broken : Freshness

pub data TemporalStatusV1 : Type 0 where
  unchanged changed diverged broken degraded : TemporalStatusV1

pub data FactLifecycle : Type 0 where
  candidate confirmed pinned invalid superseded : FactLifecycle

pub data FactKind : Type 0 where
  decision constraint open_item progress goal note : FactKind

pub data EvidenceIntegrity : Type 0 where
  verified missing mismatch : EvidenceIntegrity

pub data FactOriginV1 : Type 0 where
  captured manual ai_assisted : FactOriginV1

pub record FileChangeV1 : Type 0 where
  pub schema_version : ℕ
  pub repository_id : String
  pub session_id : String
  pub task_id : Option String
  pub path : String
  pub previous_path : Option String
  pub status : ChangeStatus
  pub additions : Option ℕ
  pub deletions : Option ℕ
  pub attribution : ChangeAttribution
  pub before_head : Option String
  pub after_head : Option String

-- The derived `PartialEq`.
unfoldable pub file_change_eq : FileChangeV1 → FileChangeV1 → Bool
file_change_eq a b =
    a.schema_version == b.schema_version
    && a.repository_id == b.repository_id
    && a.session_id == b.session_id
    && a.task_id == b.task_id
    && a.path == b.path
    && a.previous_path == b.previous_path
    && nat_eq (status_as_u8 a.status) (status_as_u8 b.status)
    && a.additions == b.additions
    && a.deletions == b.deletions
    && nat_eq (attribution_as_u8 a.attribution) (attribution_as_u8 b.attribution)
    && a.before_head == b.before_head
    && a.after_head == b.after_head

pub record TestResultV1 : Type 0 where
  pub schema_version : ℕ
  pub id : String
  pub repository_id : String
  pub session_id : String
  pub task_id : Option String
  pub name : String
  pub command : String
  pub status : TestStatus
  pub summary : Option String
  pub occurred_at : ℕ

pub record FactV1 : Type 0 where
  pub schema_version : ℕ
  pub id : String
  pub repository_id : String
  pub task_id : String
  pub kind : FactKind
  pub lifecycle : FactLifecycle
  pub freshness : Freshness
  pub origin : FactOriginV1
  pub content : String
  pub evidence_ids : List String
  pub superseded_by : Option String
  pub created_at : ℕ
  pub updated_at : ℕ

abbrev pub is_confirmed_or_pinned : FactLifecycle → Bool
is_confirmed_or_pinned confirmed = true
is_confirmed_or_pinned pinned = true
is_confirmed_or_pinned _ = false

abbrev pub is_fresh : Freshness → Bool
is_fresh fresh = true
is_fresh _ = false

abbrev pub is_none {ℓ} : {A : Type ℓ} → Option A → Bool
is_none none = true
is_none (some a) = false

unfoldable pub is_pack_eligible : FactV1 → Bool
is_pack_eligible fact =
    is_confirmed_or_pinned fact.lifecycle
    && is_fresh fact.freshness
    && is_none fact.superseded_by
    && not (is_empty fact.evidence_ids)

pub record EvidenceV1 : Type 0 where
  pub schema_version : ℕ
  pub id : String
  pub repository_id : String
  pub task_id : String
  pub session_id : String
  pub fact_id : Option String
  pub source_id : String
  pub turn_index : Option ℕ
  pub item_index : Option ℕ
  pub excerpt : String
  pub excerpt_sha256 : String
  pub integrity : EvidenceIntegrity
  pub created_at : ℕ

pub record ContextFactV1 : Type 0 where
  pub id : String
  pub kind : FactKind
  pub lifecycle : FactLifecycle
  pub freshness : Freshness
  pub content : String
  pub evidence : List EvidenceV1
  pub selection_reason : String
