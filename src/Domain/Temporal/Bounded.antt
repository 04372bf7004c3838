-- ===== src/Domain/Temporal/Bounded.antt =====
-- src/domain.rs: lengths and order in what a context pack shows of a revalidation.
use previously_on.Prelude.{
  ℕ, zero, suc, String, some, List, [], ◌∷◌, ◌≡◌, ◌≤◌, arith, length, take, length-take-le, All,
  All-take, All-map, All-filter_self, ◌≢◌, IsSorted, IsOrder, Ordering, by_key-IsOrder,
  then_cmp-IsOrder, compare-IsOrder, text_cmp, text_cmp-IsOrder, option_cmp-IsOrder, sort_by,
  sort_by-IsSorted, dedup_by-IsSorted, sort_dedup, All-dedup_by, All-sort_by, string_partial_eq,
  contains, not, true, false,
}
use previously_on.Domain.{FileChangeV1, max_context_temporal_items, status_as_u8, attribution_as_u8}
use previously_on.Domain.Temporal.{
  TemporalRevalidationV1, CurrentValidationV1, change_order, bounded_for_context_pack,
  minimized_against,
}

IsSorted-take {ℓ} :
    {A : Type ℓ} (cmp : A → A → Ordering) (n : ℕ) (xs : List A)
    → IsSorted cmp xs
    → IsSorted cmp (take n xs)
IsSorted-take cmp zero xs h = tt
IsSorted-take cmp (suc n) [] h = tt
IsSorted-take {A = A} cmp (suc n) (x ∷ xs) h =
    (All-take (λ y. cmp x y ≢ Ordering.gt) n xs h.0, IsSorted-take cmp n xs h.1)

sort_dedup-IsSorted : (xs : List String) → IsSorted text_cmp (sort_dedup xs)
unfolding sort_dedup
sort_dedup-IsSorted xs =
    dedup_by-IsSorted text_cmp _ (sort_by text_cmp xs) (sort_by-IsSorted text_cmp-IsOrder xs)

change_order-IsOrder : IsOrder change_order
change_order-IsOrder =
    then_cmp-IsOrder (by_key-IsOrder (λ (c : FileChangeV1). c.path) text_cmp-IsOrder) (
      then_cmp-IsOrder
        (by_key-IsOrder (λ (c : FileChangeV1). c.previous_path)
          (option_cmp-IsOrder text_cmp-IsOrder))
        (then_cmp-IsOrder
          (by_key-IsOrder (λ (c : FileChangeV1). status_as_u8 c.status) compare-IsOrder)
          (then_cmp-IsOrder
            (by_key-IsOrder (λ (c : FileChangeV1). attribution_as_u8 c.attribution) compare-IsOrder)
            (then_cmp-IsOrder
              (by_key-IsOrder (λ (c : FileChangeV1). c.repository_id) text_cmp-IsOrder)
              (then_cmp-IsOrder
                (by_key-IsOrder (λ (c : FileChangeV1). c.session_id) text_cmp-IsOrder)
                (then_cmp-IsOrder
                  (by_key-IsOrder (λ (c : FileChangeV1). c.task_id)
                    (option_cmp-IsOrder text_cmp-IsOrder))
                  (then_cmp-IsOrder
                    (by_key-IsOrder (λ (c : FileChangeV1). c.additions)
                      (option_cmp-IsOrder compare-IsOrder))
                    (then_cmp-IsOrder
                      (by_key-IsOrder (λ (c : FileChangeV1). c.deletions)
                        (option_cmp-IsOrder compare-IsOrder))
                      (then_cmp-IsOrder
                        (by_key-IsOrder (λ (c : FileChangeV1). c.before_head)
                          (option_cmp-IsOrder text_cmp-IsOrder))
                        (by_key-IsOrder (λ (c : FileChangeV1). c.after_head)
                          (option_cmp-IsOrder text_cmp-IsOrder)))))))))))

-- A revalidation in a context pack has at most 8 checked paths and 8 related changes, both in
-- order, and its warnings are in order.
pub bounded_for_context_pack_lem :
    (value : TemporalRevalidationV1)
    → let shown = bounded_for_context_pack value in
      (length shown.checked_paths ≤ max_context_temporal_items)
      × (length shown.related_changes ≤ max_context_temporal_items)
      × IsSorted text_cmp shown.checked_paths
      × IsSorted change_order shown.related_changes
      × IsSorted text_cmp shown.warnings
unfolding bounded_for_context_pack
bounded_for_context_pack_lem value = (
  length-take-le max_context_temporal_items _,
  length-take-le max_context_temporal_items _,
  IsSorted-take text_cmp max_context_temporal_items _ (sort_dedup-IsSorted value.checked_paths),
  IsSorted-take change_order max_context_temporal_items _ (
      dedup_by-IsSorted change_order _ (sort_by change_order value.related_changes)
        (sort_by-IsSorted change_order-IsOrder value.related_changes)),
  sort_dedup-IsSorted _,
)

sort_dedup-All : (P : String → Type 0) (xs : List String) → All P xs → All P (sort_dedup xs)
unfolding sort_dedup
sort_dedup-All P xs h = All-dedup_by P _ (sort_by text_cmp xs) (All-sort_by P text_cmp xs h)

-- A current validation that stands beside a revalidation in a pack has at most 8 verified paths, in
-- order, and none of them is among the paths that the revalidation checked.
pub minimized_against_lem :
    (temporal : TemporalRevalidationV1) (value : CurrentValidationV1)
    → let shown = minimized_against (some temporal) value in
      (length shown.verified_paths ≤ max_context_temporal_items)
      × IsSorted text_cmp shown.verified_paths
      × All (λ path. contains temporal.checked_paths path ≡ false) shown.verified_paths
unfolding minimized_against
minimized_against_lem temporal value = (
  length-take-le max_context_temporal_items _,
  IsSorted-take text_cmp max_context_temporal_items _ (sort_dedup-IsSorted _),
  All-take _ max_context_temporal_items _ (
      sort_dedup-All _ _ (
        All-map (λ path e. absent path e) _
          (All-filter_self (λ path. not (contains temporal.checked_paths path))
            value.verified_paths))),
)
  where
    absent :
        (path : String)
        → not (contains temporal.checked_paths path) ≡ true
        → contains temporal.checked_paths path ≡ false
    absent path e = ground arith
