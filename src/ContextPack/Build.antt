-- ===== src/ContextPack/Build.antt =====
-- src/context_pack.rs: `ContextPackBuilder::build`, from what the store holds to a pack that fits.
pub mod Bounds
use previously_on.Prelude.{
  ℕ, String, Option, none, some, List, [], ◌∷◌, ◌++◌, map, Bool, true, false, min, max, nat_eq,
  trim, text_is_empty, map_values, if◌then◌else◌, BTreeMap,
}
use previously_on.Redaction.{Patterns, redact_excerpt}
use previously_on.Domain.{
  FactV1, EvidenceV1, FileChangeV1, TestResultV1, ContextFactV1, schema_version_v1,
}
use previously_on.Domain.Coverage.{CoverageV1}
use previously_on.Domain.Temporal.{
  TemporalRevalidationV1, CurrentValidationV1, bounded_for_context_pack, minimized_against,
}
use previously_on.ContextPack.{
  ContextPackV1, ContextPackBuilder, Codec, Result, ok, err, zero_budget, max_token_budget,
  max_facts, max_unresolved_items, new, with_token_budget,
}
use previously_on.ContextPack.Select.{
  index_evidence, rank_facts, select_facts, select_files, select_tests, normalize_coverage,
}
use previously_on.ContextPack.Budget.{fit_budget}

abbrev option_map {ℓ κ} : {A : Type ℓ} {B : Type κ} → (A → B) → Option A → Option B
option_map f none = none
option_map f (some a) = some (f a)

redact_change : Patterns → FileChangeV1 → FileChangeV1
redact_change p change = record change {
  path = redact_excerpt p change.path;
  previous_path = option_map (redact_excerpt p) change.previous_path;
}

redact_temporal : Patterns → TemporalRevalidationV1 → TemporalRevalidationV1
unfolding redact_change
redact_temporal p value = record value {
  checked_paths = map (redact_excerpt p) value.checked_paths;
  related_changes = map (redact_change p) value.related_changes;
  warnings = map (redact_excerpt p) value.warnings;
}

redact_current :
    Patterns → Option TemporalRevalidationV1 → CurrentValidationV1 → CurrentValidationV1
redact_current p temporal value = minimized_against temporal (record value {
  verified_paths = map (redact_excerpt p) value.verified_paths;
  warnings = map (redact_excerpt p) value.warnings;
})

-- `max()` of the times, or the epoch.
latest : List ℕ → ℕ
latest [] = 0
latest (t ∷ ts) = max t (latest ts)

-- The goal of the pack: none if nothing is left of it.
present_goal : Patterns → Option String → Option String
present_goal p none = none
present_goal p (some goal) =
    let shown = redact_excerpt p (trim goal) in if text_is_empty shown then none else some shown

module _ (p : Patterns) (sha256_hex : String → String) where
  -- The pack before its items are counted.
  unfoldable pub assemble :
      ContextPackBuilder
      → Option String
      → List FactV1
      → List EvidenceV1
      → List FileChangeV1
      → List TestResultV1
      → CoverageV1
      → ContextPackV1
  unfolding redact_temporal redact_current latest present_goal
  assemble b goal facts evidence files tests coverage =
      let temporal = option_map (redact_temporal p) b.temporal_revalidation in
      let index = index_evidence p evidence [] in
      let ranked = rank_facts sha256_hex b.repository_id b.task_id index facts in
      let shown_tests = select_tests b.repository_id b.task_id tests in
      record {
        schema_version = schema_version_v1;
        repository_id = b.repository_id;
        task_id = b.task_id;
        generated_at = elim b.generated_at [
          | some time ↦ time
          | none ↦ latest (
              map (λ (fact : FactV1). fact.updated_at) ranked
              ++ (map (λ (test : TestResultV1). test.occurred_at) shown_tests
                  ++ map (λ (item : EvidenceV1). item.created_at) (map_values index)))
        ];
        token_budget = min b.token_budget max_token_budget;
        token_count = 0;
        goal = present_goal p goal;
        facts = select_facts p false max_facts index ranked;
        unresolved_items = select_facts p true max_unresolved_items index ranked;
        files = select_files b.repository_id b.task_id files;
        tests = shown_tests;
        temporal_revalidation = option_map bounded_for_context_pack temporal;
        current_validation = option_map (redact_current p temporal) b.current_validation;
        coverage = normalize_coverage p coverage;
      }

  unfoldable pub build :
      Codec
      → ContextPackBuilder
      → Option String
      → List FactV1
      → List EvidenceV1
      → List FileChangeV1
      → List TestResultV1
      → CoverageV1
      → Result ContextPackV1
  build c b goal facts evidence files tests coverage =
      let budget = min b.token_budget max_token_budget in
      if nat_eq budget 0
      then err zero_budget
      else fit_budget c budget (assemble b goal facts evidence files tests coverage)

  unfoldable pub build_context_pack :
      Codec
      → String
      → String
      → Option String
      → List FactV1
      → List EvidenceV1
      → List FileChangeV1
      → List TestResultV1
      → CoverageV1
      → Option ℕ
      → Result ContextPackV1
  unfolding new with_token_budget
  build_context_pack c repository_id task_id goal facts evidence files tests coverage token_budget =
      let builder = new repository_id task_id in
      build c (elim token_budget [ none ↦ builder | some limit ↦ with_token_budget builder limit ])
        goal facts evidence files tests coverage
