-- ===== src/Domain/Temporal/Tests.antt =====
-- src/domain.rs: one path that was checked already, and one that was not.
use previously_on.Prelude.{
  none, some, [], ◌∷◌, ◌≡◌, ◌≤◌, false, length, All, IsSorted, text_cmp, string_partial_eq,
  contains,
}
use previously_on.Domain.{TemporalStatusV1, max_context_temporal_items}
use previously_on.Domain.Temporal.{
  TemporalRevalidationV1, CurrentValidationV1, change_order, bounded_for_context_pack,
  minimized_against,
}
use previously_on.Domain.Temporal.Bounded.{bounded_for_context_pack_lem, minimized_against_lem}

abbrev temporal : TemporalRevalidationV1
temporal = record {
  schema_version = 1;
  status = TemporalStatusV1.unchanged;
  baseline_head = some "abc";
  current_head = some "abc";
  merge_base = none;
  related_changes = [];
  checked_paths = "b.rs" ∷ "a.rs" ∷ "b.rs" ∷ [];
  warnings = [];
}

abbrev current : CurrentValidationV1
current = record {
  schema_version = 1;
  status = TemporalStatusV1.unchanged;
  current_head = some "abc";
  verified_paths = "c.rs" ∷ "a.rs" ∷ [];
  warnings = [];
}

bounded_for_context_pack_lem_example :
    let shown = bounded_for_context_pack temporal in
    (length shown.checked_paths ≤ max_context_temporal_items)
    × (length shown.related_changes ≤ max_context_temporal_items)
    × IsSorted text_cmp shown.checked_paths
    × IsSorted change_order shown.related_changes
    × IsSorted text_cmp shown.warnings
bounded_for_context_pack_lem_example = bounded_for_context_pack_lem temporal

minimized_against_lem_example :
    let shown = minimized_against (some temporal) current in
    (length shown.verified_paths ≤ max_context_temporal_items)
    × IsSorted text_cmp shown.verified_paths
    × All (λ path. contains temporal.checked_paths path ≡ false) shown.verified_paths
minimized_against_lem_example = minimized_against_lem temporal current
