-- ===== src/Domain/Temporal.antt =====
-- src/domain.rs: what the revalidation of a task found, cut down for a context pack.
pub mod Bounded
mod Tests
use previously_on.Prelude.{
  ℕ, ◌-◌, String, Option, none, some, List, [], ◌∷◌, ◌++◌, not, ◌==◌, string_partial_eq,
  option_partial_eq, Ordering, compare, then_cmp, option_cmp, text_cmp, length, take, filter,
  contains, sort_by, dedup_by, sort_dedup, decimal, concat, ltb, if◌then◌else◌,
}
use previously_on.Domain.{
  TemporalStatusV1, FileChangeV1, file_change_eq, status_as_u8, attribution_as_u8,
  max_context_temporal_items,
}

pub record TemporalRevalidationV1 : Type 0 where
  pub schema_version : ℕ
  pub status : TemporalStatusV1
  pub baseline_head : Option String
  pub current_head : Option String
  pub merge_base : Option String
  pub related_changes : List FileChangeV1
  pub checked_paths : List String
  pub warnings : List String

-- The order of related changes: the fields of the compared tuples, in turn.
abbrev pub change_order : FileChangeV1 → FileChangeV1 → Ordering
change_order a b = then_cmp (text_cmp a.path b.path) (
    then_cmp (option_cmp text_cmp a.previous_path b.previous_path) (
      then_cmp (compare (status_as_u8 a.status) (status_as_u8 b.status)) (
        then_cmp (compare (attribution_as_u8 a.attribution) (attribution_as_u8 b.attribution)) (
          then_cmp (text_cmp a.repository_id b.repository_id) (
            then_cmp (text_cmp a.session_id b.session_id) (
              then_cmp (option_cmp text_cmp a.task_id b.task_id) (
                then_cmp (option_cmp compare a.additions b.additions) (
                  then_cmp (option_cmp compare a.deletions b.deletions) (
                    then_cmp (option_cmp text_cmp a.before_head b.before_head)
                      (option_cmp text_cmp a.after_head b.after_head))))))))))

-- A warning of how many items were left out, if any were.
omitted_warning : String → ℕ → List String
omitted_warning name omitted =
    if ltb 0 omitted
    then concat (name ∷ decimal omitted ∷ "; limit=" ∷ decimal max_context_temporal_items ∷ []) ∷ []
    else []

unfoldable pub bounded_for_context_pack : TemporalRevalidationV1 → TemporalRevalidationV1
unfolding omitted_warning
bounded_for_context_pack value =
    let paths = sort_dedup value.checked_paths in
    let changes =
      dedup_by (λ a b. file_change_eq a b) (sort_by change_order value.related_changes) in
    record value {
      checked_paths = take max_context_temporal_items paths;
      related_changes = take max_context_temporal_items changes;
      warnings = sort_dedup (
          sort_dedup value.warnings
          ++ (omitted_warning "checked_paths_omitted_count="
                (length paths - max_context_temporal_items)
              ++ omitted_warning "related_changes_omitted_count="
                  (length changes - max_context_temporal_items)));
    }

pub record CurrentValidationV1 : Type 0 where
  pub schema_version : ℕ
  pub status : TemporalStatusV1
  pub current_head : Option String
  pub verified_paths : List String
  pub warnings : List String

-- The fields that the temporal revalidation holds too are taken out.
without_shared : Option TemporalRevalidationV1 → CurrentValidationV1 → CurrentValidationV1
without_shared none value = value
without_shared (some temporal) value = record value {
  current_head = if value.current_head == temporal.current_head then none else value.current_head;
  verified_paths = filter (λ path. not (contains temporal.checked_paths path)) value.verified_paths;
  warnings = filter (λ warning. not (contains temporal.warnings warning)) value.warnings;
}

unfoldable pub minimized_against :
    Option TemporalRevalidationV1 → CurrentValidationV1 → CurrentValidationV1
unfolding without_shared omitted_warning
minimized_against temporal value =
    let own = without_shared temporal value in
    let paths = sort_dedup own.verified_paths in
    record own {
      verified_paths = take max_context_temporal_items paths;
      warnings = sort_dedup (
          sort_dedup own.warnings
          ++ omitted_warning "verified_paths_omitted_count="
              (length paths - max_context_temporal_items));
    }
