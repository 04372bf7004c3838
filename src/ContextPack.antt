-- ===== src/ContextPack.antt =====
-- src/context_pack.rs: the data of a context pack, the errors of its builder, and the libraries
-- that it calls.
pub mod Select
pub mod Budget
pub mod Build
mod Tests
use previously_on.Prelude.{ℕ, String, Option, none, some, List, Bool, true, false, min}
use previously_on.Domain.{ContextFactV1, FileChangeV1, TestResultV1}
use previously_on.Domain.Coverage.{CoverageV1}
use previously_on.Domain.Temporal.{TemporalRevalidationV1, CurrentValidationV1}

abbrev pub default_token_budget : ℕ
default_token_budget = 1200

abbrev pub max_token_budget : ℕ
max_token_budget = 2000

abbrev pub max_facts : ℕ
max_facts = 5

abbrev pub max_unresolved_items : ℕ
max_unresolved_items = 5

abbrev pub max_files : ℕ
max_files = 8

abbrev pub max_tests : ℕ
max_tests = 3

pub record ContextPackV1 : Type 0 where
  pub schema_version : ℕ
  pub repository_id : String
  pub task_id : String
  pub generated_at : ℕ
  pub token_budget : ℕ
  pub token_count : ℕ
  pub goal : Option String
  pub facts : List ContextFactV1
  pub unresolved_items : List ContextFactV1
  pub files : List FileChangeV1
  pub tests : List TestResultV1
  pub temporal_revalidation : Option TemporalRevalidationV1
  pub current_validation : Option CurrentValidationV1
  pub coverage : CoverageV1

-- `out_of_fuel` is the model's own: it marks a loop that its fuel would cut short.
pub data PackError : Type 0 where
  zero_budget : PackError
  serialize_context_pack : PackError
  serialize_envelope : PackError
  initialize_tokenizer : PackError
  metadata_exceeds_budget : ℕ → ℕ → PackError
  out_of_fuel : PackError

pub data Result {ℓ} (A : Type ℓ) : Type ℓ where
  ok : A → Result A
  err : PackError → Result A

infixl 5 ◌>>=◌
abbrev pub ◌>>=◌ {ℓ κ} : {A : Type ℓ} {B : Type κ} → Result A → (A → Result B) → Result B
ok a >>= f = f a
err e >>= f = err e

-- What `serde_json` and `tiktoken_rs` compute; `none` is their failure.
pub record Codec : Type 0 where
  pub pack_json : ContextPackV1 → Option String
  pub envelope_json : String → Option String
  pub o200k_base : Option (String → ℕ)

pub record ContextPackBuilder : Type 0 where
  pub repository_id : String
  pub task_id : String
  pub token_budget : ℕ
  pub generated_at : Option ℕ
  pub temporal_revalidation : Option TemporalRevalidationV1
  pub current_validation : Option CurrentValidationV1

unfoldable pub new : String → String → ContextPackBuilder
new repository_id task_id = record {
  repository_id = repository_id;
  task_id = task_id;
  token_budget = default_token_budget;
  generated_at = none;
  temporal_revalidation = none;
  current_validation = none;
}

unfoldable pub with_token_budget : ContextPackBuilder → ℕ → ContextPackBuilder
with_token_budget b token_budget = record b { token_budget = min token_budget max_token_budget }
