-- ===== src/Continuation/Evidence.antt =====
-- src/continuation.rs: what earlier evaluations say of the tests that are required now.
pub mod Soundness
use previously_on.Prelude.{
  ℕ, String, Option, none, some, List, [], ◌∷◌, map, Bool, true, false, not, ◌&&◌, ◌||◌, ◌==◌,
  string_partial_eq, option_partial_eq, list_eq, any, find, if◌then◌else◌,
}
use previously_on.Contracts.{
  RequiredTestEvaluationV1, RequiredTestStateV1, passed, failed, missing, stale, ContractMatchV1,
  ContractEvaluationV1,
}
use previously_on.Contracts.Evaluation.{is_passed, readiness_for_tests, evaluation_from_match}

unfoldable pub same_required_test : RequiredTestEvaluationV1 → RequiredTestEvaluationV1 → Bool
same_required_test left right =
    left.contract_id == right.contract_id
    && left.test_id == right.test_id
    && left.program == right.program
    && list_eq left.args right.args
    && left.working_directory == right.working_directory

-- `matches!(test.state, Passed | Failed)`.
abbrev pub is_decided : RequiredTestStateV1 → Bool
is_decided passed = true
is_decided failed = true
is_decided _ = false

-- The evaluation is of the same repository and task, and of the same content.
unfoldable pub is_current : ContractEvaluationV1 → ContractEvaluationV1 → Bool
is_current evaluation previous =
    previous.repository_id == evaluation.repository_id
    && previous.task_id == evaluation.task_id
    && previous.content_fingerprint == evaluation.content_fingerprint

abbrev pub decided_test : Option RequiredTestEvaluationV1 → Option RequiredTestEvaluationV1
decided_test none = none
decided_test (some test) = if is_decided test.state then some test else none

-- The `find_map`: the first current evaluation that has decided the test.
unfoldable pub same_fingerprint :
    ContractEvaluationV1
    → List ContractEvaluationV1
    → RequiredTestEvaluationV1
    → Option RequiredTestEvaluationV1
unfolding is_current
same_fingerprint evaluation [] required = none
same_fingerprint evaluation (previous ∷ prior) required =
    let found =
      decided_test (find (λ test. same_required_test test required) previous.required_tests) in
    let rest = same_fingerprint evaluation prior required in
    if is_current evaluation previous
    then (elim found [ none ↦ rest | some test ↦ some test ])
    else rest

-- The test has passed for the same repository and task, whatever the content.
unfoldable pub passed_before :
    ContractEvaluationV1 → RequiredTestEvaluationV1 → ContractEvaluationV1 → Bool
passed_before evaluation required previous =
    previous.repository_id == evaluation.repository_id
    && previous.task_id == evaluation.task_id
    && any (λ test. same_required_test test required && is_passed test.state)
        previous.required_tests

abbrev pub stale_detail : String
stale_detail = "the relevant content fingerprint changed after the last successful run"

-- One round of the loop over required tests.
unfoldable pub apply_to_test :
    ContractEvaluationV1
    → List ContractEvaluationV1
    → RequiredTestEvaluationV1
    → RequiredTestEvaluationV1
unfolding passed_before
apply_to_test evaluation prior required = elim (same_fingerprint evaluation prior required) [
  | some test ↦ record required { state = test.state; detail = test.detail }
  | none ↦
      if any (passed_before evaluation required) prior
      then record required { state = stale; detail = some stale_detail }
      else required
]

unfoldable pub apply_prior_test_evidence :
    ContractEvaluationV1 → List ContractEvaluationV1 → ContractEvaluationV1
apply_prior_test_evidence evaluation prior = record evaluation {
  required_tests = map (apply_to_test evaluation prior) evaluation.required_tests;
}

-- The end of `evaluate_contract_handoff`, once the contracts are matched.
unfoldable pub evaluate_matched :
    (String → String)
    → ℕ
    → String
    → String
    → ContractMatchV1
    → String
    → List ContractEvaluationV1
    → ContractEvaluationV1
evaluate_matched sha256_hex now repository_id task_id matches fingerprint prior =
    let evaluation =
      apply_prior_test_evidence
        (evaluation_from_match sha256_hex now repository_id (some task_id) matches fingerprint
          false)
        prior in
    record evaluation { readiness = readiness_for_tests evaluation.required_tests }
