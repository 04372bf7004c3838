-- ===== src/ContextPack/Budget.antt =====
-- src/context_pack.rs: the token count of a pack, and the loop that drops items until it fits.
pub mod Trimmed
pub mod Loop
use Prim.Native.Nat.{◌%◌, ◌^◌}
use previously_on.Prelude.{
  ℕ, zero, suc, ◌+◌, String, Option, none, some, List, [], ◌∷◌, Bool, length, pop, leb, nat_eq,
  if◌then◌else◌,
}
use previously_on.Domain.{ContextFactV1, FileChangeV1, TestResultV1}
use previously_on.ContextPack.{
  ContextPackV1, Codec, Result, ok, err, ◌>>=◌, PackError, serialize_context_pack,
  serialize_envelope, initialize_tokenizer, metadata_exceeds_budget, out_of_fuel,
}

unfoldable pub serialize_pack : Codec → ContextPackV1 → Result String
serialize_pack c pack = elim (c.pack_json pack) [
  | none ↦ err serialize_context_pack
  | some json ↦ ok json
]

unfoldable pub serialize_mcp_envelope : Codec → ContextPackV1 → Result String
unfolding serialize_pack
serialize_mcp_envelope c pack = do
  pack_json ← serialize_pack c pack
  elim (c.envelope_json pack_json) [ none ↦ err serialize_envelope | some json ↦ ok json ]

-- `len() as u32`.
unfoldable pub count_tokens : Codec → String → Result ℕ
count_tokens c text = elim c.o200k_base [
  | none ↦ err initialize_tokenizer
  | some encode ↦ ok (encode text % 2 ^ 32)
]

unfoldable pub count_pack_tokens : Codec → ContextPackV1 → Result ℕ
unfolding serialize_mcp_envelope count_tokens
count_pack_tokens c pack = do envelope ← serialize_mcp_envelope c pack; count_tokens c envelope

-- The `for` loop with its rounds left; the count is stored in the pack that is counted.
unfoldable pub stabilize_rounds : Codec → ℕ → ContextPackV1 → Result ContextPackV1
stabilize_rounds c zero pack = do
  count ← count_pack_tokens c pack
  ok (record pack { token_count = count })
stabilize_rounds c (suc rounds) pack = do
  count ← count_pack_tokens c pack
  let next = stabilize_rounds c rounds (record pack { token_count = count })
  if nat_eq count pack.token_count then ok pack else next

unfoldable pub stabilize_token_count : Codec → ContextPackV1 → Result ContextPackV1
unfolding stabilize_rounds
stabilize_token_count c pack = stabilize_rounds c 4 pack

-- The chain of `pop`s: one item goes, of the first list that has one.
drop_first :
    ContextPackV1
    → List TestResultV1
    → List FileChangeV1
    → List ContextFactV1
    → List ContextFactV1
    → Option ContextPackV1
drop_first pack (t ∷ ts) files unresolved facts = some (record pack { tests = pop (t ∷ ts) })
drop_first pack [] (f ∷ fs) unresolved facts = some (record pack { files = pop (f ∷ fs) })
drop_first pack [] [] (u ∷ us) facts = some (record pack { unresolved_items = pop (u ∷ us) })
drop_first pack [] [] [] (f ∷ fs) = some (record pack { facts = pop (f ∷ fs) })
drop_first pack [] [] [] [] = none

unfoldable pub drop_one : ContextPackV1 → Option ContextPackV1
unfolding drop_first
drop_one pack = drop_first pack pack.tests pack.files pack.unresolved_items pack.facts

-- How many items the loop can drop.
abbrev pub items : ContextPackV1 → ℕ
items pack =
    length pack.tests + length pack.files + length pack.unresolved_items + length pack.facts

-- The `loop` of `build`, on fuel.
unfoldable pub fit : Codec → ℕ → ℕ → ContextPackV1 → Result ContextPackV1
fit c budget zero pack = err out_of_fuel
fit c budget (suc fuel) pack = do
  counted ← stabilize_token_count c pack
  if leb counted.token_count budget then ok counted else elim (drop_one counted) [
    | none ↦ err (metadata_exceeds_budget counted.token_count budget)
    | some smaller ↦ fit c budget fuel smaller
  ]

-- The fuel is one round more than there are items.
unfoldable pub fit_budget : Codec → ℕ → ContextPackV1 → Result ContextPackV1
unfolding fit
fit_budget c budget pack = fit c budget (suc (items pack)) pack
