-- ===== src/ContextPack/Select.antt =====
-- src/context_pack.rs: which facts, files and tests go into a pack, and in which order.
pub mod Facts
pub mod Ranked
use previously_on.Prelude.{
  ℕ, String, Option, none, some, List, [], ◌∷◌, map, filter_map, Bool, true, false, not, ◌&&◌, ◌==◌,
  string_partial_eq, option_partial_eq, Ordering, compare, then_cmp, option_cmp, text_cmp, take,
  filter, all, sort_by, dedup_by, sort_dedup, BTreeMap, map_get, map_insert, if◌then◌else◌,
}
use previously_on.Redaction.{Patterns, redact_text, redact_excerpt}
use previously_on.Domain.{
  FactV1, FactKind, FactLifecycle, EvidenceV1, EvidenceIntegrity, FileChangeV1, TestResultV1,
  ContextFactV1, ChangeStatus, ChangeAttribution, TestStatus, is_pack_eligible, decision,
  constraint, open_item, progress, goal, note, candidate, confirmed, pinned, invalid, superseded,
  verified, modified_by, observed_changed_in, added, modified, deleted, renamed, copied,
  type_changed, unmerged,
}
use previously_on.Domain.Coverage.{CoverageV1}
use previously_on.ContextPack.{max_files, max_tests}

unfoldable pub lifecycle_rank : FactLifecycle → ℕ
lifecycle_rank pinned = 0
lifecycle_rank confirmed = 1
lifecycle_rank candidate = 2
lifecycle_rank invalid = 3
lifecycle_rank superseded = 4

unfoldable pub fact_kind_rank : FactKind → ℕ
fact_kind_rank decision = 0
fact_kind_rank constraint = 1
fact_kind_rank goal = 2
fact_kind_rank progress = 3
fact_kind_rank note = 4
fact_kind_rank open_item = 5

unfoldable pub attribution_rank : ChangeAttribution → ℕ
attribution_rank modified_by = 0
attribution_rank observed_changed_in = 1

unfoldable pub status_rank : ChangeStatus → ℕ
status_rank added = 0
status_rank modified = 1
status_rank renamed = 2
status_rank copied = 3
status_rank deleted = 4
status_rank type_changed = 5
status_rank unmerged = 6
status_rank ChangeStatus.unknown = 7

unfoldable pub test_status_rank : TestStatus → ℕ
test_status_rank TestStatus.failed = 0
test_status_rank TestStatus.passed = 1
test_status_rank TestStatus.skipped = 2
test_status_rank TestStatus.unknown = 3

-- `Reverse(updated_at)`: the later one comes first.
unfoldable pub fact_order : FactV1 → FactV1 → Ordering
fact_order a b = then_cmp (compare (lifecycle_rank a.lifecycle) (lifecycle_rank b.lifecycle)) (
    then_cmp (compare (fact_kind_rank a.kind) (fact_kind_rank b.kind))
      (then_cmp (compare b.updated_at a.updated_at) (text_cmp a.id b.id)))

unfoldable pub file_order : FileChangeV1 → FileChangeV1 → Ordering
file_order a b =
    then_cmp (compare (attribution_rank a.attribution) (attribution_rank b.attribution)) (
      then_cmp (text_cmp a.path b.path) (
        then_cmp (option_cmp text_cmp a.previous_path b.previous_path)
          (compare (status_rank a.status) (status_rank b.status))))

unfoldable pub test_order : TestResultV1 → TestResultV1 → Ordering
test_order a b = then_cmp (compare (test_status_rank a.status) (test_status_rank b.status)) (
    then_cmp (compare b.occurred_at a.occurred_at)
      (then_cmp (text_cmp a.name b.name) (text_cmp a.id b.id)))

abbrev pub is_verified : EvidenceIntegrity → Bool
is_verified verified = true
is_verified _ = false

abbrev pub is_open_item : FactKind → Bool
is_open_item open_item = true
is_open_item _ = false

-- `map(…).unwrap_or(true)`: an absent id agrees with every id.
abbrev pub agrees : Option String → String → Bool
agrees none id = true
agrees (some other) id = other == id

-- `collect` into a map: of two pieces with one id the later one stays.
unfoldable pub index_evidence :
    Patterns → List EvidenceV1 → BTreeMap String EvidenceV1 → BTreeMap String EvidenceV1
index_evidence p [] index = index
index_evidence p (item ∷ items) index =
    index_evidence p items
      (map_insert text_cmp item.id (record item { excerpt = redact_excerpt p item.excerpt }) index)

module _ (sha256_hex : String → String) where
  -- What a fact asks of a piece of its evidence.
  unfoldable pub supports : FactV1 → EvidenceV1 → Bool
  supports fact item =
      is_verified item.integrity
      && item.excerpt_sha256 == sha256_hex item.excerpt
      && item.repository_id == fact.repository_id
      && item.task_id == fact.task_id
      && agrees item.fact_id fact.id

  unfoldable pub has_support : FactV1 → BTreeMap String EvidenceV1 → String → Bool
  unfolding supports
  has_support fact index evidence_id = elim (map_get text_cmp evidence_id index) [
    | none ↦ false
    | some item ↦ supports fact item
  ]

  -- The test of `facts.retain`.
  unfoldable pub retains_fact : String → String → BTreeMap String EvidenceV1 → FactV1 → Bool
  unfolding has_support
  retains_fact repository_id task_id index fact =
      fact.repository_id == repository_id
      && fact.task_id == task_id
      && is_pack_eligible fact
      && all (has_support fact index) fact.evidence_ids

  unfoldable pub rank_facts :
      String → String → BTreeMap String EvidenceV1 → List FactV1 → List FactV1
  unfolding retains_fact
  rank_facts repository_id task_id index facts =
      sort_by fact_order (filter (retains_fact repository_id task_id index) facts)

unfoldable pub evidence_order : EvidenceV1 → EvidenceV1 → Ordering
evidence_order a b = then_cmp (text_cmp a.source_id b.source_id) (
    then_cmp (option_cmp compare a.turn_index b.turn_index)
      (then_cmp (option_cmp compare a.item_index b.item_index) (text_cmp a.id b.id)))

abbrev pub selection_reason : FactLifecycle → String
selection_reason pinned = "user_pinned_with_verified_evidence"
selection_reason _ = "user_confirmed_with_verified_evidence"

unfoldable pub context_fact : Patterns → BTreeMap String EvidenceV1 → FactV1 → ContextFactV1
context_fact p index fact = record {
  id = fact.id;
  kind = fact.kind;
  lifecycle = fact.lifecycle;
  freshness = fact.freshness;
  content = redact_text p fact.content;
  evidence =
      sort_by evidence_order (filter_map (λ id. map_get text_cmp id index) fact.evidence_ids);
  selection_reason = selection_reason fact.lifecycle;
}

-- The facts of a kind of list (open items, or all others): the first `limit` in rank.
unfoldable pub select_facts :
    Patterns → Bool → ℕ → BTreeMap String EvidenceV1 → List FactV1 → List ContextFactV1
select_facts p unresolved limit index ranked = map (context_fact p index) (
    take limit (
      filter (λ fact. if unresolved then is_open_item fact.kind else not (is_open_item fact.kind))
        ranked))

unfoldable pub select_files : String → String → List FileChangeV1 → List FileChangeV1
select_files repository_id task_id files = take max_files (
    dedup_by (λ a b. a.path == b.path && a.previous_path == b.previous_path)
      (sort_by file_order (
        filter (λ file. file.repository_id == repository_id && agrees file.task_id task_id) files)))

unfoldable pub select_tests : String → String → List TestResultV1 → List TestResultV1
select_tests repository_id task_id tests = take max_tests (
    dedup_by (λ a b. a.id == b.id)
      (sort_by test_order (
        filter (λ test. test.repository_id == repository_id && agrees test.task_id task_id) tests)))

unfoldable pub normalize_coverage : Patterns → CoverageV1 → CoverageV1
normalize_coverage p coverage = record coverage {
  captured = sort_dedup coverage.captured;
  missing = sort_dedup coverage.missing;
  warnings = sort_dedup (map (redact_excerpt p) coverage.warnings);
}
