-- ===== src/ContextPack/Budget/Loop.antt =====
-- src/context_pack.rs: the loop of `build`, with the token count of each of its rounds.
use previously_on.Prelude.{
  ℕ, zero, suc, ◌≤◌, ◌<◌, ◌≡◌, ◌≢◌, refl, sym, subst, ◌⊎◌, inl, inr, some, none, length-pop, arith,
  Option-cases, Bool-cases, Bool, true, false, leb, nat_eq,
}
use previously_on.ContextPack.{
  ContextPackV1, Codec, Result, ok, err, PackError, metadata_exceeds_budget, out_of_fuel,
}
use previously_on.ContextPack.Budget.{
  count_pack_tokens, stabilize_rounds, stabilize_token_count, drop_one, items, fit,
}
use previously_on.ContextPack.Budget.Trimmed.{
  IsTrimmed, IsTrimmed-of_recount, IsTrimmed-recount, IsTrimmed-drop_one,
}

-- A result by cases, with its equation.
Result-cases {ℓ} :
    {A : Type ℓ} (r : Result A) → ((a : A) × (r ≡ ok a)) ⊎ ((e : PackError) × (r ≡ err e))
Result-cases (ok a) = inl (a, refl)
Result-cases (err e) = inr (e, refl)

-- The errors that the loop itself makes.
abbrev is_loop_error : PackError → Bool
is_loop_error (metadata_exceeds_budget count limit) = true
is_loop_error out_of_fuel = true
is_loop_error _ = false

module _ (c : Codec) where
  count_pack_tokens-err :
      (p : ContextPackV1) (e : PackError) → count_pack_tokens c p ≡ err e → is_loop_error e ≡ false
  unfolding count_pack_tokens
  count_pack_tokens-err p e h = ground arith

  -- Counting changes nothing but the stored count, and that is the count of a pack that differs
  -- in it at most.
  abbrev IsRecount : ContextPackV1 → ContextPackV1 → Type 0
  IsRecount p q =
      (q ≡ record p { token_count = q.token_count })
      × ((k : ℕ) × (count_pack_tokens c (record p { token_count = k }) ≡ ok q.token_count))

  stabilize_rounds-IsRecount :
      (n : ℕ) (p q : ContextPackV1) → stabilize_rounds c n p ≡ ok q → IsRecount p q
  unfolding stabilize_rounds
  stabilize_rounds-IsRecount zero p q h = elim (Result-cases (count_pack_tokens c p)) [
    | inl (k, e) ↦ (ground arith, (p.token_count, ground arith))
    | inr (x, e) ↦ absurd (ground arith)
  ]
  stabilize_rounds-IsRecount (suc n) p q h = elim (Result-cases (count_pack_tokens c p)) [
    | inl (k, e) ↦ elim (Bool-cases (nat_eq k p.token_count)) [
      | inl same ↦ (ground arith, (p.token_count, ground arith))
      | inr other ↦ stabilize_rounds-IsRecount n (record p { token_count = k }) q (ground arith)
    ]
    | inr (x, e) ↦ absurd (ground arith)
  ]

  stabilize_rounds-err :
      (n : ℕ) (p : ContextPackV1) (e : PackError)
      → stabilize_rounds c n p ≡ err e
      → is_loop_error e ≡ false
  unfolding stabilize_rounds
  stabilize_rounds-err zero p e h = ground (arith, count_pack_tokens-err p e)
  stabilize_rounds-err (suc n) p e h = elim (Result-cases (count_pack_tokens c p)) [
    | inl (k, counted) ↦ ground (arith, stabilize_rounds-err n (record p { token_count = k }) e)
    | inr (x, failed) ↦ ground (arith, count_pack_tokens-err p x)
  ]

  items-drop_one : (p q : ContextPackV1) → drop_one p ≡ some q → items p ≡ suc (items q)
  unfolding drop_one
  items-drop_one p q h = ground (
    arith,
    length-pop p.tests,
    length-pop p.files,
    length-pop p.unresolved_items,
    length-pop p.facts,
  )

  items-drop_one-none : (p : ContextPackV1) → drop_one p ≡ none → items p ≡ 0
  unfolding drop_one
  items-drop_one-none p h = ground arith

  stabilize-IsRecount : (p q : ContextPackV1) → stabilize_token_count c p ≡ ok q → IsRecount p q
  unfolding stabilize_token_count
  stabilize-IsRecount p q h = stabilize_rounds-IsRecount 4 p q h

  stabilize-err :
      (p : ContextPackV1) (e : PackError)
      → stabilize_token_count c p ≡ err e
      → is_loop_error e ≡ false
  unfolding stabilize_token_count
  stabilize-err p e h = stabilize_rounds-err 4 p e h

  -- The count of the pack is that of the pack with some count stored in it.
  unfoldable pub IsCounted : ContextPackV1 → Type 0
  IsCounted q = (k : ℕ) × (count_pack_tokens c (record q { token_count = k }) ≡ ok q.token_count)

  IsCounted-recount : (p q : ContextPackV1) → IsRecount p q → IsCounted q
  unfolding IsCounted
  IsCounted-recount p q (same, (k, counted)) = (
    k,
    subst
        (λ (s : ContextPackV1).
          count_pack_tokens c (record s { token_count = k }) ≡ ok q.token_count)
        (sym same) counted,
  )

  items-recount : (p q : ContextPackV1) → IsRecount p q → items p ≡ items q
  items-recount p q h = ground arith

  -- The pack is within the budget, and is what was asked for but for what the drops took.
  pub fit_ok :
      (budget fuel : ℕ) (p q : ContextPackV1)
      → fit c budget fuel p ≡ ok q
      → (q.token_count ≤ budget) × IsTrimmed p q × IsCounted q
  unfolding fit
  fit_ok budget zero p q h = absurd (ground arith)
  fit_ok budget (suc fuel) p q h = elim (Result-cases (stabilize_token_count c p)) [
    | inl (r, e) ↦
        let same = stabilize-IsRecount p r e in
        elim (Bool-cases (leb r.token_count budget)) [
          | inl fits ↦
              let done : r ≡ q = ground arith in
              rw (← done) (ground arith, IsTrimmed-recount p r same.0, IsCounted-recount p r same)
          | inr over ↦ elim (Option-cases (drop_one r)) [
            | inl nothing ↦ absurd (ground arith)
            | inr (s, one) ↦
                let rest = fit_ok budget fuel s q (ground arith) in
                (
                  rest.0,
                  IsTrimmed-of_recount p q r same.0 (IsTrimmed-drop_one r q s one rest.1),
                  rest.2,
                )
          ]
        ]
    | inr (x, e) ↦ absurd (ground arith)
  ]

  -- The loop gives up only on a pack with no item left, whose count is over the budget.
  pub fit_err :
      (budget fuel count limit : ℕ) (p : ContextPackV1)
      → fit c budget fuel p ≡ err (metadata_exceeds_budget count limit)
      → (budget < count)
        × (limit ≡ budget)
        × ((q : ContextPackV1) × IsTrimmed p q
            × (items q ≡ 0)
            × (q.token_count ≡ count)
            × IsCounted q)
  unfolding fit
  fit_err budget zero count limit p h = absurd (ground arith)
  fit_err budget (suc fuel) count limit p h = elim (Result-cases (stabilize_token_count c p)) [
    | inl (r, e) ↦
        let same = stabilize-IsRecount p r e in
        elim (Option-cases (drop_one r)) [
          | inl nothing ↦ (
            ground arith,
            ground arith,
            (
              r,
              IsTrimmed-recount p r same.0,
              items-drop_one-none r nothing,
              ground arith,
              IsCounted-recount p r same,
            ),
          )
          | inr (s, one) ↦
              let rest = fit_err budget fuel count limit s (ground arith) in
              let (q, trimmed, empty, count_q, counted) = rest.2 in
              (
                rest.0,
                rest.1,
                (
                  q,
                  IsTrimmed-of_recount p q r same.0 (IsTrimmed-drop_one r q s one trimmed),
                  empty,
                  count_q,
                  counted,
                ),
              )
        ]
    | inr (x, e) ↦ absurd (ground (arith, stabilize-err p x))
  ]

  pub fit-ne-out_of_fuel :
      (budget fuel : ℕ) (p : ContextPackV1) → items p < fuel → fit c budget fuel p ≢ err out_of_fuel
  unfolding fit
  fit-ne-out_of_fuel budget zero p small h = elim small [ ]
  fit-ne-out_of_fuel budget (suc fuel) p small h = elim (Result-cases (stabilize_token_count c p)) [
    | inl (r, e) ↦ elim (Option-cases (drop_one r)) [
      | inl nothing ↦ ground arith
      | inr (s, one) ↦ ground (
        arith,
        items-recount p r (stabilize-IsRecount p r e),
        items-drop_one r s one,
        fit-ne-out_of_fuel budget fuel s,
      )
    ]
    | inr (x, e) ↦ ground (arith, stabilize-err p x)
  ]
