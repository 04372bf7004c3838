-- ===== src/Domain/Coverage/Tests.antt =====
-- src/domain.rs: a complete capture and a degraded one, in both orders.
use mathlib.Core.List.{Permᴰ}
use previously_on.Prelude.{sort_dedup, [], ◌∷◌, ◌≡◌, refl}
use previously_on.Domain.Coverage.{CoverageV1, degraded, default_coverage, merge}
use previously_on.Domain.Coverage.Merge.{merge-Perm}

abbrev hooks : CoverageV1
hooks = record default_coverage { captured = "tools" ∷ "prompts" ∷ [] }

abbrev git : CoverageV1
git = record default_coverage { status = degraded; captured = "diff" ∷ "tools" ∷ [] }

merge_test : (merge (hooks ∷ git ∷ [])).captured ≡ "diff" ∷ "prompts" ∷ "tools" ∷ []
unfolding merge sort_dedup
merge_test = refl

merge-Perm_example : merge (hooks ∷ git ∷ []) ≡ merge (git ∷ hooks ∷ [])
merge-Perm_example = merge-Perm (Permᴰ.swap refl refl)
