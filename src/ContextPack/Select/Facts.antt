-- ===== src/ContextPack/Select/Facts.antt =====
-- src/context_pack.rs: the facts of a pack, their evidence and their rank.
use previously_on.Prelude.{
  ℕ, String, none, some, List, [], Bool, true, false, ◌≡◌, ◌≢◌, ◌⊎◌, refl, arith, all, filter, All,
  All-filter_self, All-map, All-filter, All-take, All-map_of, All-sort_by, sort_by-IsSorted,
  perm-sort_by, IsOrder, by_key-IsOrder, reverse-IsOrder, then_cmp-IsOrder, compare-IsOrder,
  text_cmp-IsOrder, BTreeMap, map_get, text_cmp, text_eq_iff, option_eq_iff, Any, All-self, sort_by,
  string_partial_eq, not, if◌then◌else◌, ◌∷◌, Option-cases, inl, inr, take, All-both,
}
use mathlib.Core.List.{Perm}
use previously_on.Redaction.{Patterns}
use previously_on.ContextPack.Select.Ranked.{IsRanked, IsSorted-IsRanked}
use previously_on.Domain.{
  FactV1, EvidenceV1, ContextFactV1, confirmed, pinned, fresh, verified, is_pack_eligible,
}
use previously_on.ContextPack.Select.{
  fact_order, lifecycle_rank, fact_kind_rank, supports, has_support, retains_fact, rank_facts,
  context_fact, select_facts, is_open_item,
}

fact_order-IsOrder : IsOrder fact_order
unfolding fact_order
fact_order-IsOrder =
    then_cmp-IsOrder (by_key-IsOrder (λ (f : FactV1). lifecycle_rank f.lifecycle) compare-IsOrder) (
      then_cmp-IsOrder (by_key-IsOrder (λ (f : FactV1). fact_kind_rank f.kind) compare-IsOrder) (
        then_cmp-IsOrder
          (by_key-IsOrder (λ (f : FactV1). f.updated_at) (reverse-IsOrder compare-IsOrder))
          (by_key-IsOrder (λ (f : FactV1). f.id) text_cmp-IsOrder)))

-- The filter of `select_facts`.
abbrev of_kind : Bool → FactV1 → Bool
of_kind unresolved fact =
    if unresolved then is_open_item fact.kind else not (is_open_item fact.kind)

of_kind-eq :
    (unresolved : Bool) (fact : FactV1)
    → of_kind unresolved fact ≡ true
    → is_open_item fact.kind ≡ unresolved
of_kind-eq true fact h = h
of_kind-eq false fact h = ground arith

module _ (sha256_hex : String → String) where
  -- A piece of evidence is verified, has the hash of its excerpt, and belongs to the fact.
  pub record Backs (fact : FactV1) (item : EvidenceV1) : Type 0 where
    pub is_verified : item.integrity ≡ verified
    pub hash : item.excerpt_sha256 ≡ sha256_hex item.excerpt
    pub same_repository : item.repository_id ≡ fact.repository_id
    pub same_task : item.task_id ≡ fact.task_id
    pub same_fact : (item.fact_id ≡ none) ⊎ (item.fact_id ≡ some fact.id)

  abbrev pub HasBacking : BTreeMap String EvidenceV1 → FactV1 → String → Type 0
  HasBacking index fact id =
      (item : EvidenceV1) × (map_get text_cmp id index ≡ some item) × Backs fact item

  pub record IsEligible (repository_id task_id : String) (index : BTreeMap String EvidenceV1)
      (fact : FactV1) : Type 0 where
    pub same_repository : fact.repository_id ≡ repository_id
    pub same_task : fact.task_id ≡ task_id
    pub approved : (fact.lifecycle ≡ confirmed) ⊎ (fact.lifecycle ≡ pinned)
    pub is_fresh : fact.freshness ≡ fresh
    pub current : fact.superseded_by ≡ none
    pub has_evidence : fact.evidence_ids ≢ []
    pub backed : All (HasBacking index fact) fact.evidence_ids

  supports-Backs :
      (fact : FactV1) (item : EvidenceV1) → supports sha256_hex fact item ≡ true → Backs fact item
  unfolding supports
  supports-Backs fact item h = ground (
    arith,
    text_eq_iff item.excerpt_sha256 (sha256_hex item.excerpt),
    text_eq_iff item.repository_id fact.repository_id,
    text_eq_iff item.task_id fact.task_id,
    option_eq_iff item.fact_id (some fact.id),
    (λ (x : String). text_eq_iff x fact.id),
  )

  has_support-HasBacking :
      (fact : FactV1) (index : BTreeMap String EvidenceV1) (id : String)
      → has_support sha256_hex fact index id ≡ true
      → HasBacking index fact id
  unfolding has_support
  has_support-HasBacking fact index id h = elim (Option-cases (map_get text_cmp id index)) [
    | inl nothing ↦ absurd (ground arith)
    | inr (item, found) ↦ (item, found, supports-Backs fact item (ground arith))
  ]

  all-has_support :
      (fact : FactV1) (index : BTreeMap String EvidenceV1) (ids : List String)
      → all (has_support sha256_hex fact index) ids ≡ true
      → All (HasBacking index fact) ids
  all-has_support fact index [] h = tt
  all-has_support fact index (id ∷ ids) h = (
    has_support-HasBacking fact index id (ground arith),
    all-has_support fact index ids (ground arith),
  )

  module _ (repository_id task_id : String) (index : BTreeMap String EvidenceV1) where
    retains_fact-IsEligible :
        (fact : FactV1)
        → retains_fact sha256_hex repository_id task_id index fact ≡ true
        → IsEligible repository_id task_id index fact
    unfolding retains_fact is_pack_eligible
    retains_fact-IsEligible fact h = record {
      same_repository = ground (arith, text_eq_iff fact.repository_id repository_id);
      same_task = ground (arith, text_eq_iff fact.task_id task_id);
      approved = ground arith;
      is_fresh = ground arith;
      current = ground arith;
      has_evidence = ground arith;
      backed = all-has_support fact index fact.evidence_ids (ground arith);
    }

    -- One of the given facts, and eligible.
    abbrev IsChosen : List FactV1 → FactV1 → Type 0
    IsChosen facts fact =
        Any (λ given. given ≡ fact) facts × IsEligible repository_id task_id index fact

    rank_facts-IsChosen :
        (facts : List FactV1)
        → All (IsChosen facts) (rank_facts sha256_hex repository_id task_id index facts)
    unfolding rank_facts
    rank_facts-IsChosen facts =
        let retains = retains_fact sha256_hex repository_id task_id index in
        let retained = filter retains facts in
        All-sort_by (IsChosen facts) fact_order retained (
          All-both (λ fact. Any (λ given. given ≡ fact) facts)
            (IsEligible repository_id task_id index) retained
            (All-filter (λ fact. Any (λ given. given ≡ fact) facts) retains facts (All-self facts))
            (All-map retains_fact-IsEligible retained (All-filter_self retains facts)))

    -- The ranked facts are the retained ones, each once for each time that it was given. No confirmed
    -- one comes before a pinned one. Among those of one lifecycle, decisions come first, and then
    -- constraints, goals, progress, notes and open items; of one kind the latest comes first, and
    -- those of one time follow the order of their ids.
    pub rank_facts_lem :
        (facts : List FactV1)
        → Perm
            (rank_facts sha256_hex repository_id task_id index facts)
            (filter (retains_fact sha256_hex repository_id task_id index) facts)
          × IsRanked (rank_facts sha256_hex repository_id task_id index facts)
    unfolding rank_facts
    rank_facts_lem facts =
        let retained = filter (retains_fact sha256_hex repository_id task_id index) facts in
        (
          perm-sort_by fact_order retained,
          IsSorted-IsRanked (sort_by fact_order retained)
              (sort_by-IsSorted fact_order-IsOrder retained),
        )

    -- An entry of the pack is made of one of the given facts, which is eligible, and an open item if
    -- and only if `unresolved`.
    abbrev pub IsEntry : Patterns → Bool → List FactV1 → ContextFactV1 → Type 0
    IsEntry p unresolved facts entry =
        (fact : FactV1) × (entry ≡ context_fact p index fact)
        × Any (λ given. given ≡ fact) facts
        × IsEligible repository_id task_id index fact
        × (is_open_item fact.kind ≡ unresolved)

    pub select_facts-IsEntry :
        (p : Patterns) (unresolved : Bool) (limit : ℕ) (facts : List FactV1)
        → All (IsEntry p unresolved facts) (
            select_facts p unresolved limit index
              (rank_facts sha256_hex repository_id task_id index facts))
    unfolding select_facts
    select_facts-IsEntry p unresolved limit facts =
        let ranked = rank_facts sha256_hex repository_id task_id index facts in
        let kept = filter (of_kind unresolved) ranked in
        All-map_of (IsEntry p unresolved facts) (context_fact p index) (take limit kept) (
          All-take (λ fact. IsEntry p unresolved facts (context_fact p index fact)) limit kept
            (All-map (λ fact h. (fact, refl, h.0.0, h.0.1, of_kind-eq unresolved fact h.1)) kept
              (All-both (IsChosen facts) (λ fact. of_kind unresolved fact ≡ true) kept
                (All-filter (IsChosen facts) (of_kind unresolved) ranked
                  (rank_facts-IsChosen facts))
                (All-filter_self (of_kind unresolved) ranked))))
