-- ===== src/Contracts/Validate/Loaded.antt =====
-- src/contracts.rs: contracts that pass `validate_contract`, alone and loaded together.
use previously_on.Prelude.{
  ℕ, suc, String, Option, none, some, List, [], ◌∷◌, ◌++◌, map, flat_map, true, false, not, ◌||◌,
  ◌≡◌, ◌≢◌, refl, arith, is_empty, contains, concat, All, All-map, All-of_map, text_eq_iff, ◌==◌,
  string_partial_eq,
}
use previously_on.Redaction.{Patterns}
use previously_on.Contracts.{
  RegressionContractV1, ContractStatusV1, active, superseded, ImpactSelectorGroupV1, RequiredTestV1,
}
use previously_on.Contracts.Checked.{Checked, ok, in_turn, in_turn-ok, bail_if-ok}
use previously_on.Contracts.RequiredTest.{validate_required_test}
use previously_on.Contracts.RequiredTest.Accepted.{IsAccepted, validate_required_test-IsAccepted}
use previously_on.Contracts.Validate.{
  validation_value, is_repository_path, group_checks, required_test_checks, id_checks,
  contract_checks, validate_contract, LoadedContract, unique_checks, file_check, replacement_check,
  validate_loaded_contracts,
}

abbrev IsOk : Checked → Type 0
IsOk check = check ≡ ok

All-append_right {ℓ} : {A : Type ℓ} (P : A → Type 0) (xs ys : List A) → All P (xs ++ ys) → All P ys
All-append_right P [] ys h = h
All-append_right P (x ∷ xs) ys h = All-append_right P xs ys h.1

not_contained :
    (seen : List String) (x id : String)
    → contains (x ∷ seen) id ≡ false
    → (id ≢ x) × (contains seen id ≡ false)
not_contained seen x id h = (ground (arith, text_eq_iff x id), ground arith)

-- No two elements have the same name.
abbrev pub Distinct {ℓ} : {A : Type ℓ} → (A → String) → List A → Type 0
Distinct name [] = Unit
Distinct name (x ∷ xs) = All (λ y. name y ≢ name x) xs × Distinct name xs

-- A contract that was replaced names its replacement by a text that is not its own id and that the
-- parser of UUIDs accepts; an active one names none.
abbrev pub IsReplaced :
    (String → Option String) → String → ContractStatusV1 → Option String → Type 0
IsReplaced parse_uuid id active replacement = replacement ≡ none
IsReplaced parse_uuid id superseded none = ⊥
IsReplaced parse_uuid id superseded (some replacement) =
    (replacement ≢ id) × (parse_uuid replacement ≢ none)

module _ (p : Patterns) (contract : RegressionContractV1) where
  selectors_accepted :
      (groups : List ImpactSelectorGroupV1) (i : ℕ)
      → All IsOk (group_checks p contract i groups)
      → All (λ group. is_repository_path (validation_value group.path) ≡ true) groups
  selectors_accepted [] i h = tt
  selectors_accepted (group ∷ groups) i (secret, (path, rest)) =
      let value = validation_value group.path in
      let accepted : (is_empty value || not (is_repository_path value)) ≡ false =
        bail_if-ok _ _ path in
      (
        ground arith,
        selectors_accepted groups (suc i) (All-append_right IsOk (flat_map _ group.symbols) _ rest),
      )

  tests_accepted :
      (seen : List String) (tests : List RequiredTestV1)
      → All IsOk (required_test_checks p contract seen tests)
      → All (λ test. (validate_required_test p test ≡ ok) × IsAccepted p test) tests
        × All (λ test. contains seen test.id ≡ false) tests
        × Distinct (λ (test : RequiredTestV1). test.id) tests
  tests_accepted seen [] h = (tt, tt, tt)
  tests_accepted seen (test ∷ tests) (valid, (new, rest)) =
      let (accepted, fresh, distinct) = tests_accepted (test.id ∷ seen) tests rest in
      let apart =
        All-map (λ (other : RequiredTestV1) e. not_contained seen test.id other.id e) tests fresh in
      (
        ((valid, validate_required_test-IsAccepted p test valid), accepted),
        (bail_if-ok _ _ new, All-map (λ other e. e.1) tests apart),
        (All-map (λ other e. e.0) tests apart, distinct),
      )

module _ (p : Patterns) (parse_uuid : String → Option String) where
  id_checks-canonical :
      (id : String) (parsed : Option String)
      → All IsOk (id_checks p parse_uuid id parsed)
      → parsed ≡ some id
  id_checks-canonical id none h = absurd (ground arith)
  id_checks-canonical id (some canonical) h = canonical-eq (bail_if-ok _ _ h.0)
    where
      canonical-eq : not (canonical == id) ≡ false → some canonical ≡ some id
      canonical-eq e = ground (arith, text_eq_iff canonical id)

  pub record IsValid (contract : RegressionContractV1) : Type 0 where
    pub canonical_id : parse_uuid contract.id ≡ some contract.id
    pub selects : is_empty contract.impact_selectors ≡ false
    pub selectors :
        All
          (λ group. is_repository_path (validation_value group.path) ≡ true)
          contract.impact_selectors
    pub requires : is_empty contract.required_tests ≡ false
    pub tests :
        All
          (λ test. (validate_required_test p test ≡ ok) × IsAccepted p test)
          contract.required_tests
    pub distinct_tests : Distinct (λ (test : RequiredTestV1). test.id) contract.required_tests

  -- What a contract has that passes its validation.
  pub validate_contract-IsValid :
      (contract : RegressionContractV1)
      → validate_contract p parse_uuid contract ≡ ok
      → IsValid contract
  unfolding validate_contract
  validate_contract-IsValid contract h =
      let (
        schema,
        (
          id,
          (
            title,
            (
              invariant,
              (
                clean_title,
                (clean_invariant, (groups, (selectors, (some_tests, (tests, digests))))),
              ),
            ),
          ),
        ),
      ) =
        in_turn-ok (contract_checks p parse_uuid contract) h in
      let (accepted, fresh, distinct) =
        tests_accepted p contract [] contract.required_tests
          (in_turn-ok (required_test_checks p contract [] contract.required_tests) tests) in
      record {
        canonical_id =
            id_checks-canonical contract.id (parse_uuid contract.id)
              (in_turn-ok (id_checks p parse_uuid contract.id (parse_uuid contract.id)) id);
        selects = bail_if-ok _ _ groups;
        selectors =
            selectors_accepted p contract contract.impact_selectors 0
              (in_turn-ok (group_checks p contract 0 contract.impact_selectors) selectors);
        requires = bail_if-ok _ _ some_tests;
        tests = accepted;
        distinct_tests = distinct;
      }

  loaded-Distinct :
      (seen : List String) (items : List LoadedContract)
      → All IsOk (unique_checks p parse_uuid seen items)
      → All (λ (item : LoadedContract). IsValid item.contract) items
        × All (λ (item : LoadedContract). contains seen item.contract.id ≡ false) items
        × Distinct (λ (item : LoadedContract). item.contract.id) items
  loaded-Distinct seen [] h = (tt, tt, tt)
  loaded-Distinct seen (item ∷ items) (valid, (new, rest)) =
      let (all_valid, fresh, distinct) = loaded-Distinct (item.contract.id ∷ seen) items rest in
      let apart =
        All-map
          (λ (other : LoadedContract) e. not_contained seen item.contract.id other.contract.id e)
          items fresh in
      (
        (validate_contract-IsValid item.contract valid, all_valid),
        (bail_if-ok _ _ new, All-map (λ other e. e.1) items apart),
        (All-map (λ other e. e.0) items apart, distinct),
      )

  file_check-named :
      (item : LoadedContract)
      → file_check p parse_uuid item ≡ ok
      → item.file_name ≡ concat (item.contract.id ∷ ".json" ∷ [])
  file_check-named item h = named (bail_if-ok _ _ h)
    where
      named :
          not (item.file_name == concat (item.contract.id ∷ ".json" ∷ [])) ≡ false
          → item.file_name ≡ concat (item.contract.id ∷ ".json" ∷ [])
      named e =
          ground (arith, text_eq_iff item.file_name (concat (item.contract.id ∷ ".json" ∷ [])))

  replacement_check-IsReplaced :
      (id : String) (status : ContractStatusV1) (replacement : Option String)
      → replacement_check p parse_uuid id status replacement ≡ ok
      → IsReplaced parse_uuid id status replacement
  replacement_check-IsReplaced id active none h = refl
  replacement_check-IsReplaced id active (some r) h = absurd (ground arith)
  replacement_check-IsReplaced id superseded none h = absurd (ground arith)
  replacement_check-IsReplaced id superseded (some r) h =
      let (other, (known, done)) = in_turn-ok (_ ∷ _ ∷ []) h in
      (differs (bail_if-ok _ _ other), λ nothing. ground arith)
    where
      differs : (r == id) ≡ false → r ≢ id
      differs e = ground (arith, text_eq_iff r id)

  -- Contracts that are loaded without an error have distinct ids and stand in files named for their
  -- ids. Each has the id that the parser of UUIDs gives back for it, some selector groups, with paths
  -- that are accepted as paths of the repository as they are spelled (a prefix without the slashes at
  -- its end), and some required tests, with distinct ids, each of which passes its own validation. A
  -- superseded contract names a replacement, by a text that differs from its own id and that the
  -- parser of UUIDs accepts; an active contract names none.
  pub validate_loaded_contracts_lem :
      (loaded : List LoadedContract)
      → validate_loaded_contracts p parse_uuid loaded ≡ ok
      → All (λ (item : LoadedContract). IsValid item.contract) loaded
        × Distinct (λ (item : LoadedContract). item.contract.id) loaded
        × All
            (λ (item : LoadedContract). item.file_name ≡ concat (item.contract.id ∷ ".json" ∷ []))
            loaded
        × All
            (λ (item : LoadedContract).
              IsReplaced parse_uuid item.contract.id item.contract.status
                item.contract.superseded_by)
            loaded
  unfolding validate_loaded_contracts
  validate_loaded_contracts_lem loaded h =
      let replacement : LoadedContract → Checked = λ item.
        replacement_check p parse_uuid item.contract.id item.contract.status
          item.contract.superseded_by in
      let (unique, (files, (replaced, done))) =
        in_turn-ok
          (in_turn (unique_checks p parse_uuid [] loaded)
            ∷ in_turn (map (file_check p parse_uuid) loaded)
            ∷ in_turn (map replacement loaded)
            ∷ [])
          h in
      let (valid, fresh, distinct) =
        loaded-Distinct [] loaded (in_turn-ok (unique_checks p parse_uuid [] loaded) unique) in
      (
        valid,
        distinct,
        All-map file_check-named loaded (
            All-of_map IsOk (file_check p parse_uuid) loaded
              (in_turn-ok (map (file_check p parse_uuid) loaded) files)),
        All-map (λ item e. replacement_check-IsReplaced _ _ _ e) loaded
            (All-of_map IsOk replacement loaded (in_turn-ok (map replacement loaded) replaced)),
      )
