-- ===== src/Continuation/Tests.antt =====
-- src/continuation.rs: a contract whose test was run for the content that is handed over.
use previously_on.Prelude.{String, none, some, List, [], ◌∷◌, ◌≡◌, refl, false, All, concat}
use previously_on.Contracts.{
  RegressionContractV1, ContractMatchV1, ContractEvaluationV1, RequiredTestEvaluationV1, active,
  passed, ready,
}
use previously_on.Contracts.Evaluation.{evaluation_from_match, readiness_for_tests}
use previously_on.Continuation.Evidence.{
  evaluate_matched, apply_prior_test_evidence, apply_to_test, same_fingerprint, same_required_test,
}
use previously_on.Continuation.Evidence.Soundness.{HasPassed, evaluate_matched-ready}

abbrev contract : RegressionContractV1
contract = record {
  schema_version = 1;
  id = "c1";
  title = "guard";
  invariant = "the guard stays";
  status = active;
  superseded_by = none;
  impact_selectors = [];
  required_tests =
      record {
        id = "t";
        name = "unit";
        program = "cargo";
        args = "test" ∷ [];
        working_directory = ".";
        timeout_seconds = 60;
      }
      ∷ [];
  origin = record { fixed_at_commit = "abc"; recorded_at = 1; evidence_sha256 = "00" };
}

abbrev matches : ContractMatchV1
matches = record {
  relevant_contracts = contract ∷ [];
  summaries = [];
  matched_paths = [];
  warnings = [];
}

abbrev digest : String → String
digest s = concat ("digest of " ∷ s ∷ [])

abbrev first_run : ContractEvaluationV1
first_run = evaluation_from_match digest 7 "repo" (some "task") matches "content" false

abbrev required : RequiredTestEvaluationV1
required = record {
  contract_id = "c1";
  test_id = "t";
  name = "unit";
  program = "cargo";
  args = "test" ∷ [];
  working_directory = ".";
  timeout_seconds = 60;
  state = passed;
  detail = none;
}

abbrev prior : List ContractEvaluationV1
prior = record first_run { required_tests = required ∷ [] } ∷ []

abbrev handed_over : ContractEvaluationV1
handed_over = evaluate_matched digest 9 "repo" "task" matches "content" prior

handed_over-ready : handed_over.readiness ≡ ready
unfolding evaluate_matched apply_prior_test_evidence apply_to_test same_fingerprint
    same_required_test evaluation_from_match readiness_for_tests
handed_over-ready = refl

evaluate_matched-ready_example :
    All
      (λ c. All (HasPassed "repo" (some "task") "content" prior c) c.required_tests)
      matches.relevant_contracts
evaluate_matched-ready_example =
    evaluate_matched-ready digest 9 "repo" "task" matches "content" prior handed_over-ready
