-- ===== src/Continuation/Rollover/Keys.antt =====
-- src/continuation.rs: the ids of a handoff's other events are no ids of the records of its operation.
use previously_on.Prelude.{
  ◌≡◌, ◌≢◌, ℕ, zero, suc, sym, ap, ◌∙◌, ◌++◌, arith, String, List, [], ◌∷◌, codes, codes-append,
  string_partial_eq, option_partial_eq, nat_partial_eq,
}
use previously_on.Domain.Tasks.{deterministic_id}
use previously_on.Continuation.Rollover.{Outside, operation_event_id}

-- The letter at a place of a text.
abbrev letter : ℕ → List ℕ → ℕ
letter n [] = 0
letter zero (c ∷ cs) = c
letter (suc n) (c ∷ cs) = letter n cs

-- An id begins with its prefix.
codes-deterministic_id :
    (sha256_hex : String → String) (prefix : String) (parts : List String)
    → (rest : List ℕ) × (codes (deterministic_id sha256_hex prefix parts) ≡ codes prefix ++ rest)
unfolding deterministic_id
codes-deterministic_id sha256_hex prefix parts = (_, codes-append prefix _)

module _ (o : Outside) (operation_id : String) where
  pub evaluation_key :
      (parts : List String) (status : String)
      → deterministic_id o.sha256_hex "automatic-rollover-contract-evaluation" parts
        ≢ operation_event_id o operation_id status
  unfolding operation_event_id
  evaluation_key parts status e =
      let own =
        codes-deterministic_id o.sha256_hex "automatic-rollover-contract-evaluation" parts in
      let other =
        codes-deterministic_id o.sha256_hex "automatic-rollover-event"
          (operation_id ∷ status ∷ []) in
      let clash : b'c' ≡ b'e' = ap (letter 19) (sym own.1 ∙ ap codes e ∙ other.1) in
      omega (arith, clash)

  pub link_key :
      (parts : List String) (status : String)
      → deterministic_id o.sha256_hex "automatic-rollover-session-link" parts
        ≢ operation_event_id o operation_id status
  unfolding operation_event_id
  link_key parts status e =
      let own = codes-deterministic_id o.sha256_hex "automatic-rollover-session-link" parts in
      let other =
        codes-deterministic_id o.sha256_hex "automatic-rollover-event"
          (operation_id ∷ status ∷ []) in
      let clash : b's' ≡ b'e' = ap (letter 19) (sym own.1 ∙ ap codes e ∙ other.1) in
      omega (arith, clash)
