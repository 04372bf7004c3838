-- ===== src/Domain/Coverage.antt =====
-- src/domain.rs: how complete a capture is, and the merge of several captures.
pub mod Merge
mod Tests
use previously_on.Prelude.{ℕ, String, List, [], ◌∷◌, ◌++◌, sort_dedup}
use previously_on.Domain.{schema_version_v1}

pub data CoverageStatus : Type 0 where
  complete degraded unsupported : CoverageStatus

unfoldable pub worst : CoverageStatus → CoverageStatus → CoverageStatus
worst unsupported _ = unsupported
worst complete unsupported = unsupported
worst degraded unsupported = unsupported
worst degraded complete = degraded
worst degraded degraded = degraded
worst complete degraded = degraded
worst complete complete = complete

pub record CoverageV1 : Type 0 where
  pub schema_version : ℕ
  pub status : CoverageStatus
  pub captured : List String
  pub missing : List String
  pub warnings : List String

abbrev pub default_coverage : CoverageV1
default_coverage = record {
  schema_version = schema_version_v1;
  status = complete;
  captured = [];
  missing = [];
  warnings = [];
}

-- What the loop of `merge` has gathered; the sets are put in order at its end.
pub record Gathered : Type 0 where
  pub status : CoverageStatus
  pub captured : List String
  pub missing : List String
  pub warnings : List String

unfoldable pub merge_from : Gathered → List CoverageV1 → Gathered
merge_from acc [] = acc
merge_from acc (item ∷ items) =
    merge_from
      (record {
        status = worst acc.status item.status;
        captured = acc.captured ++ item.captured;
        missing = acc.missing ++ item.missing;
        warnings = acc.warnings ++ item.warnings;
      })
      items

unfoldable pub merge : List CoverageV1 → CoverageV1
unfolding merge_from
merge items =
    let all =
      merge_from (record { status = complete; captured = []; missing = []; warnings = [] }) items in
    record {
      schema_version = schema_version_v1;
      status = all.status;
      captured = sort_dedup all.captured;
      missing = sort_dedup all.missing;
      warnings = sort_dedup all.warnings;
    }
