-- ===== src/ContextPack/Tests.antt =====
-- src/context_pack.rs: two facts, a file and two tests of one task, in a small budget.
use previously_on.Prelude.{
  ℕ, ◌≤◌, ◌<◌, ◌≡◌, ◌≢◌, refl, min, String, none, some, List, [], ◌∷◌, true, false, length, All,
  concat, map, char_count, filter, sort_by, map_get, map_insert, dedup_by,
}
use mathlib.Core.List.{Perm}
use previously_on.Redaction.{Patterns, redact_text, redact_excerpt, cap_chars}
use previously_on.Domain.{
  FactV1, EvidenceV1, FileChangeV1, TestResultV1, TestStatus, confirmed, pinned, fresh, verified,
  decision, open_item, captured, modified, modified_by, is_pack_eligible,
}
use previously_on.Domain.Coverage.{default_coverage}
use previously_on.ContextPack.{
  ContextPackV1, ContextPackBuilder, Codec, Result, ok, err, metadata_exceeds_budget, out_of_fuel,
  max_token_budget, max_facts, max_unresolved_items, max_files, max_tests,
}
use previously_on.ContextPack.Select.{
  index_evidence, retains_fact, rank_facts, fact_order, select_facts, select_files, select_tests,
  context_fact, normalize_coverage, lifecycle_rank, test_order, test_status_rank,
}
use previously_on.ContextPack.Select.Facts.{IsEntry, rank_facts_lem}
use previously_on.ContextPack.Select.Ranked.{IsRanked}
use previously_on.ContextPack.Budget.{
  fit_budget, items, stabilize_token_count, count_pack_tokens, drop_one,
}
use previously_on.ContextPack.Budget.Trimmed.{IsTrimmed}
use previously_on.ContextPack.Budget.Loop.{IsCounted}
use previously_on.ContextPack.Build.{assemble, build}
use previously_on.ContextPack.Build.Bounds.{
  build_within_budget, build-IsTrimmed, build_sizes, build_facts, build-ne-out_of_fuel,
  build_over_budget,
}

-- No text of the example holds a secret.
abbrev patterns : Patterns
patterns = record {
  private_key = λ s. s;
  authorization = λ s. s;
  assignment = λ s. s;
  cli_secret_flag = λ s. s;
  url_credentials = λ s. s;
  well_known_token = λ s. s;
  sensitive_path = λ s. s;
}

abbrev digest : String → String
digest s = concat ("digest of " ∷ s ∷ [])

-- A pack is written as its facts, files and tests, and each character is a token.
abbrev codec : Codec
codec = record {
  pack_json = λ pack. some (
      concat (
        concat (map (λ f. f.content) pack.facts)
        ∷ concat (map (λ f. f.content) pack.unresolved_items)
        ∷ concat (map (λ f. f.path) pack.files)
        ∷ concat (map (λ t. t.name) pack.tests)
        ∷ []));
  envelope_json = λ json. some (concat ("[" ∷ json ∷ "]" ∷ []));
  o200k_base = some char_count;
}

abbrev proof_of_fact : EvidenceV1
proof_of_fact = record {
  schema_version = 1;
  id = "e1";
  repository_id = "repo";
  task_id = "task";
  session_id = "session";
  fact_id = none;
  source_id = "thread";
  turn_index = some 0;
  item_index = some 1;
  excerpt = "seen";
  excerpt_sha256 = "digest of seen";
  integrity = verified;
  created_at = 5;
}

abbrev chosen : FactV1
chosen = record {
  schema_version = 1;
  id = "f1";
  repository_id = "repo";
  task_id = "task";
  kind = decision;
  lifecycle = confirmed;
  freshness = fresh;
  origin = captured;
  content = "use paths";
  evidence_ids = "e1" ∷ [];
  superseded_by = none;
  created_at = 3;
  updated_at = 4;
}

abbrev pending : FactV1
pending = record chosen { id = "f2"; kind = open_item; lifecycle = pinned; content = "add tests" }

abbrev file : FileChangeV1
file = record {
  schema_version = 1;
  repository_id = "repo";
  session_id = "session";
  task_id = some "task";
  path = "src/a.rs";
  previous_path = none;
  status = modified;
  additions = some 2;
  deletions = none;
  attribution = modified_by;
  before_head = none;
  after_head = none;
}

abbrev run : TestResultV1
run = record {
  schema_version = 1;
  id = "t1";
  repository_id = "repo";
  session_id = "session";
  task_id = some "task";
  name = "unit";
  command = "cargo test";
  status = TestStatus.passed;
  summary = none;
  occurred_at = 6;
}

abbrev facts : List FactV1
facts = chosen ∷ pending ∷ []

abbrev tests : List TestResultV1
tests = run ∷ record run { id = "t2"; name = "smoke" } ∷ []

abbrev builder : ℕ → ContextPackBuilder
builder token_budget = record {
  repository_id = "repo";
  task_id = "task";
  token_budget = token_budget;
  generated_at = none;
  temporal_revalidation = none;
  current_validation = none;
}

abbrev assembled : ℕ → ContextPackV1
assembled n =
    assemble patterns digest (builder n) (some "goal") facts (proof_of_fact ∷ []) (file ∷ []) tests
      default_coverage

abbrev built : ℕ → Result ContextPackV1
built n =
    build patterns digest codec (builder n) (some "goal") facts (proof_of_fact ∷ []) (file ∷ [])
      tests default_coverage

-- Both tests are left out; the rest is 28 tokens long.
abbrev packed : ContextPackV1
packed = record (assembled 30) { token_count = 28; tests = [] }

built-packed : built 30 ≡ ok packed
unfolding build assemble fit_budget stabilize_token_count count_pack_tokens drop_one select_facts
    select_files select_tests rank_facts index_evidence context_fact normalize_coverage redact_text
    redact_excerpt char_count sort_by is_pack_eligible map_get map_insert cap_chars fact_order
    lifecycle_rank dedup_by test_order test_status_rank
built-packed = refl

-- Not even the brackets of the empty pack fit into one token.
built_too_large : built 1 ≡ err (metadata_exceeds_budget 2 1)
unfolding build assemble fit_budget stabilize_token_count count_pack_tokens drop_one select_facts
    select_files select_tests rank_facts index_evidence context_fact normalize_coverage redact_text
    redact_excerpt char_count sort_by is_pack_eligible map_get map_insert cap_chars fact_order
    lifecycle_rank dedup_by test_order test_status_rank
built_too_large = refl

build_within_budget_example :
    (packed.token_count ≤ packed.token_budget)
    × (packed.token_budget ≡ min 30 max_token_budget)
    × (min 30 max_token_budget ≢ 0)
    × IsCounted codec packed
build_within_budget_example =
    build_within_budget patterns digest codec (builder 30) (some "goal") facts (proof_of_fact ∷ [])
      (file ∷ []) tests default_coverage packed built-packed

build-IsTrimmed_example : IsTrimmed (assembled 30) packed
build-IsTrimmed_example =
    build-IsTrimmed patterns digest codec (builder 30) (some "goal") facts (proof_of_fact ∷ [])
      (file ∷ []) tests default_coverage packed built-packed

build_sizes_example :
    (length packed.facts ≤ max_facts)
    × (length packed.unresolved_items ≤ max_unresolved_items)
    × (length packed.files ≤ max_files)
    × (length packed.tests ≤ max_tests)
build_sizes_example =
    build_sizes patterns digest codec (builder 30) (some "goal") facts (proof_of_fact ∷ [])
      (file ∷ []) tests default_coverage packed built-packed

abbrev index : List (String × EvidenceV1)
index = index_evidence patterns (proof_of_fact ∷ []) []

build_facts_example :
    All (IsEntry digest "repo" "task" index patterns false facts) packed.facts
    × All (IsEntry digest "repo" "task" index patterns true facts) packed.unresolved_items
build_facts_example =
    build_facts patterns digest codec (builder 30) (some "goal") facts (proof_of_fact ∷ [])
      (file ∷ []) tests default_coverage packed built-packed

build-ne-out_of_fuel_example : built 30 ≢ err out_of_fuel
build-ne-out_of_fuel_example =
    build-ne-out_of_fuel patterns digest codec (builder 30) (some "goal") facts (proof_of_fact ∷ [])
      (file ∷ []) tests default_coverage

build_over_budget_example :
    (min 1 max_token_budget < 2)
    × (1 ≡ min 1 max_token_budget)
    × ((q : ContextPackV1) × IsTrimmed (assembled 1) q
        × (items q ≡ 0)
        × (q.token_count ≡ 2)
        × IsCounted codec q)
build_over_budget_example =
    build_over_budget patterns digest codec (builder 1) (some "goal") facts (proof_of_fact ∷ [])
      (file ∷ []) tests default_coverage 2 1 built_too_large

rank_facts_lem_example :
    Perm
      (rank_facts digest "repo" "task" index facts)
      (filter (retains_fact digest "repo" "task" index) facts)
    × IsRanked (rank_facts digest "repo" "task" index facts)
rank_facts_lem_example = rank_facts_lem digest "repo" "task" index facts
