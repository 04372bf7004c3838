-- ===== src/ContextPack/Select/Ranked.antt =====
-- src/context_pack.rs: the order of the facts of a pack, kind by kind.
use Prim.Native.Nat.{Ordering, compare}
use Prim.Native.Nat.Ordering.{lt, eq, gt}
use previously_on.Prelude.{
  ℕ, List, [], ◌∷◌, ◌≡◌, ◌≢◌, ◌≤◌, refl, sym, ap, subst, arith, All, All-map, IsSorted, text_cmp,
  then_cmp,
}
use previously_on.Domain.{
  FactV1, FactKind, FactLifecycle, decision, constraint, open_item, progress, goal, note, confirmed,
  pinned,
}
use previously_on.ContextPack.Select.{fact_order, lifecycle_rank, fact_kind_rank}

-- The kinds in the order in which a pack shows them.
abbrev pub place_of : FactKind → ℕ
place_of decision = 0
place_of constraint = 1
place_of goal = 2
place_of progress = 3
place_of note = 4
place_of open_item = 5

-- The first fact may stand before the second.
pub record MayPrecede (a b : FactV1) : Type 0 where
  pub pinned_first : a.lifecycle ≡ confirmed → b.lifecycle ≢ pinned
  pub kind_order : a.lifecycle ≡ b.lifecycle → place_of a.kind ≤ place_of b.kind
  pub latest_first : a.lifecycle ≡ b.lifecycle → a.kind ≡ b.kind → b.updated_at ≤ a.updated_at
  pub id_order :
      a.lifecycle ≡ b.lifecycle
      → a.kind ≡ b.kind
      → a.updated_at ≡ b.updated_at
      → text_cmp a.id b.id ≢ gt

-- Every fact may stand before all that follow it.
abbrev pub IsRanked : List FactV1 → Type 0
IsRanked [] = Unit
IsRanked (fact ∷ facts) = All (MayPrecede fact) facts × IsRanked facts

then_cmp-first : (o next : Ordering) → then_cmp o next ≢ gt → o ≢ gt
then_cmp-first gt next h e = h refl
then_cmp-first lt next h e = absurd (ground arith)
then_cmp-first eq next h e = absurd (ground arith)

compare-le : (m n : ℕ) → compare m n ≢ gt → m ≤ n
compare-le m n h = ground arith

compare-same : (m n : ℕ) → m ≡ n → compare m n ≡ eq
compare-same m n h = ground arith

then_cmp-next : (o next : Ordering) → o ≡ eq → then_cmp o next ≢ gt → next ≢ gt
then_cmp-next o next e h = subst (λ r. then_cmp r next ≢ gt) e h

fact_kind_rank-place_of : (k : FactKind) → fact_kind_rank k ≡ place_of k
unfolding fact_kind_rank
fact_kind_rank-place_of decision = refl
fact_kind_rank-place_of constraint = refl
fact_kind_rank-place_of goal = refl
fact_kind_rank-place_of progress = refl
fact_kind_rank-place_of note = refl
fact_kind_rank-place_of open_item = refl

pinned_before_confirmed :
    (a b : FactLifecycle) → lifecycle_rank a ≤ lifecycle_rank b → a ≡ confirmed → b ≢ pinned
unfolding lifecycle_rank
pinned_before_confirmed a b h c e = omega (arith, h, ap lifecycle_rank c, ap lifecycle_rank e)

fact_order-MayPrecede : (a b : FactV1) → fact_order a b ≢ gt → MayPrecede a b
unfolding fact_order
fact_order-MayPrecede a b h =
    let by_kind : a.lifecycle ≡ b.lifecycle → _ =
      λ e. then_cmp-next _ _ (compare-same _ _ (ap lifecycle_rank e)) h in
    let by_time : a.lifecycle ≡ b.lifecycle → a.kind ≡ b.kind → _ =
      λ e k. then_cmp-next _ _ (compare-same _ _ (ap fact_kind_rank k)) (by_kind e) in
    record {
      pinned_first =
          pinned_before_confirmed a.lifecycle b.lifecycle (compare-le _ _ (then_cmp-first _ _ h));
      kind_order = λ e.
          rw (sym (fact_kind_rank-place_of a.kind), sym (fact_kind_rank-place_of b.kind))
            (compare-le _ _ (then_cmp-first _ _ (by_kind e)));
      latest_first = λ e k. compare-le _ _ (then_cmp-first _ _ (by_time e k));
      id_order = λ e k t. then_cmp-next _ _ (compare-same _ _ (sym t)) (by_time e k);
    }

pub IsSorted-IsRanked : (facts : List FactV1) → IsSorted fact_order facts → IsRanked facts
IsSorted-IsRanked [] h = tt
IsSorted-IsRanked (fact ∷ facts) h =
    (All-map (fact_order-MayPrecede fact) facts h.0, IsSorted-IsRanked facts h.1)
