-- ===== src/ContextPack/Build/Bounds.antt =====
-- src/context_pack.rs: the results of `build`, and its errors.
use previously_on.Prelude.{
  ℕ, suc, sym, ap, subst, ◌≤◌, ◌<◌, ◌≡◌, ◌≢◌, String, Option, List, [], true, false, arith, length,
  min, All, length-map, length-take-le, length-take-le,
}
use previously_on.Redaction.{Patterns}
use previously_on.Domain.{FactV1, EvidenceV1, FileChangeV1, TestResultV1}
use previously_on.Domain.Coverage.{CoverageV1}
use previously_on.ContextPack.{
  ContextPackV1, ContextPackBuilder, Codec, Result, ok, err, metadata_exceeds_budget, out_of_fuel,
  max_token_budget, max_facts, max_unresolved_items, max_files, max_tests,
}
use previously_on.ContextPack.Select.{index_evidence, select_facts, select_files, select_tests}
use previously_on.ContextPack.Select.Facts.{IsEntry, select_facts-IsEntry}
use previously_on.ContextPack.Budget.{fit, fit_budget, items}
use previously_on.ContextPack.Budget.Trimmed.{IsFront, IsTrimmed, IsFront-length-le, All-IsFront}
use previously_on.ContextPack.Budget.Loop.{IsCounted, fit_ok, fit_err, fit-ne-out_of_fuel}
use previously_on.ContextPack.Build.{assemble, build}

fit_in : {A : Type 0} (xs ys : List A) (n : ℕ) → IsFront xs ys → length ys ≤ n → length xs ≤ n
fit_in xs ys n h k = omega (arith, IsFront-length-le xs ys h)

module _ (p : Patterns) (sha256_hex : String → String) (c : Codec) (b : ContextPackBuilder)
    (goal : Option String) (facts : List FactV1) (evidence : List EvidenceV1)
    (files : List FileChangeV1) (tests : List TestResultV1) (coverage : CoverageV1) where
  abbrev built : Result ContextPackV1
  built = build p sha256_hex c b goal facts evidence files tests coverage

  abbrev assembled : ContextPackV1
  assembled = assemble p sha256_hex b goal facts evidence files tests coverage

  abbrev limit : ℕ
  limit = min b.token_budget max_token_budget

  -- A pack that is built comes out of the loop.
  fit-build :
      (pack : ContextPackV1)
      → built ≡ ok pack
      → (limit ≢ 0) × (fit c limit (suc (items assembled)) assembled ≡ ok pack)
  unfolding build fit_budget
  fit-build pack h = ground arith

  -- A pack that is built stores a token count of at most its budget, and its budget is the
  -- builder's budget or the maximum, the less of them, and not zero. The stored count is the token
  -- count of the pack with some number in place of the stored count.
  pub build_within_budget :
      (pack : ContextPackV1)
      → built ≡ ok pack
      → (pack.token_count ≤ pack.token_budget)
        × (pack.token_budget ≡ limit)
        × (limit ≢ 0)
        × IsCounted c pack
  unfolding assemble
  build_within_budget pack h =
      let (positive, fitted) = fit-build pack h in
      let (within, trimmed, counted) =
        fit_ok c limit (suc (items assembled)) assembled pack fitted in
      let same : pack.token_budget ≡ limit =
        ap (λ (q : ContextPackV1). q.token_budget) trimmed.others in
      (subst (λ n. pack.token_count ≤ n) (sym same) within, same, positive, counted)

  -- The pack that is built is the assembled one with items taken off the ends of its lists: tests
  -- first, files only if no test is left, unresolved items only if no file is left either, and
  -- facts last. Nothing else changes but the token count.
  pub build-IsTrimmed : (pack : ContextPackV1) → built ≡ ok pack → IsTrimmed assembled pack
  build-IsTrimmed pack h =
      (fit_ok c limit (suc (items assembled)) assembled pack (fit-build pack h).1).1

  -- A pack that is built holds at most 5 facts, 5 unresolved items, 8 files and 3 tests.
  pub build_sizes :
      (pack : ContextPackV1)
      → built ≡ ok pack
      → (length pack.facts ≤ max_facts)
        × (length pack.unresolved_items ≤ max_unresolved_items)
        × (length pack.files ≤ max_files)
        × (length pack.tests ≤ max_tests)
  unfolding assemble select_facts select_files select_tests
  build_sizes pack h =
      let trimmed = build-IsTrimmed pack h in
      (
        fit_in _ _ _ trimmed.facts_front (rw length-map (length-take-le max_facts _)),
        fit_in _ _ _ trimmed.unresolved_front
            (rw length-map (length-take-le max_unresolved_items _)),
        fit_in _ _ _ trimmed.files_front (length-take-le max_files _),
        fit_in _ _ _ trimmed.tests_front (length-take-le max_tests _),
      )

  -- Every fact of a pack that is built is made of one of the given facts that is no open item, and
  -- every unresolved item of one of them that is. That fact is of the builder's repository and task,
  -- confirmed or pinned, fresh and not superseded, and it has evidence, each piece of which is in the
  -- index, verified, with the hash of its excerpt, and of the fact's repository and task, and names
  -- this fact if it names one.
  pub build_facts :
      (pack : ContextPackV1)
      → built ≡ ok pack
      → All
          (IsEntry sha256_hex b.repository_id b.task_id
            (index_evidence p evidence [])
            p
            false
            facts)
          pack.facts
        × All
            (IsEntry sha256_hex b.repository_id b.task_id
              (index_evidence p evidence [])
              p
              true
              facts)
            pack.unresolved_items
  unfolding assemble
  build_facts pack h =
      let trimmed = build-IsTrimmed pack h in
      let index = index_evidence p evidence [] in
      (
        All-IsFront (IsEntry sha256_hex b.repository_id b.task_id index p false facts) pack.facts
            assembled.facts trimmed.facts_front
            (select_facts-IsEntry sha256_hex b.repository_id b.task_id index p false max_facts
              facts),
        All-IsFront (IsEntry sha256_hex b.repository_id b.task_id index p true facts)
            pack.unresolved_items assembled.unresolved_items trimmed.unresolved_front
            (select_facts-IsEntry sha256_hex b.repository_id b.task_id index p true
              max_unresolved_items facts),
      )

  -- The builder always answers: its loop never runs out of the rounds that it is given.
  pub build-ne-out_of_fuel : built ≢ err out_of_fuel
  unfolding build fit_budget
  build-ne-out_of_fuel h =
      fit-ne-out_of_fuel c limit (suc (items assembled)) assembled (omega arith) (ground arith)

  -- The builder complains of its metadata only if the pack with no item left, and nothing else
  -- changed but the token count, has a token count over the budget.
  pub build_over_budget :
      (count budget : ℕ)
      → built ≡ err (metadata_exceeds_budget count budget)
      → (limit < count)
        × (budget ≡ limit)
        × ((q : ContextPackV1) × IsTrimmed assembled q
            × (items q ≡ 0)
            × (q.token_count ≡ count)
            × IsCounted c q)
  unfolding build fit_budget
  build_over_budget count budget h =
      fit_err c limit (suc (items assembled)) count budget assembled (ground arith)
