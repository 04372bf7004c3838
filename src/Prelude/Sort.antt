-- ===== src/Prelude/Sort.antt =====
-- A stable sort by a comparison (`slice::sort_by`), neighbours merged (`Vec::dedup_by`), and the
-- elements of a `BTreeSet` in order.
use Prim.Native.Nat.{Ordering}
use Prim.Native.Nat.Ordering.{lt, eq, gt}
use Prim.Native.String.{String}
use mathlib.Core.Path.{◌≡◌, refl}
use mathlib.Core.Logic.{◌≢◌, inl, inr}
use mathlib.Core.Bool.{Bool}
use mathlib.Core.List.{List, [], ◌∷◌, Perm}
use mathlib.Core.List.Perm
use native.Mathlib.Omega.{arith}
use previously_on.Prelude.Tests.{if◌then◌else◌, ◌==◌, string_partial_eq, Bool-cases}
use previously_on.Prelude.Order.{IsOrder, text_cmp}
use previously_on.Prelude.Lists.{All, All-map}

module _ {ℓ} {A : Type ℓ} where
  -- Where `x` goes before a list whose head is `y`: at once, or into the rest.
  unfoldable pub place : Ordering → A → A → List A → List A → List A
  place gt x y ys rest = y ∷ rest
  place lt x y ys rest = x ∷ y ∷ ys
  place eq x y ys rest = x ∷ y ∷ ys

  -- A new element goes before its equals: those stood behind it.
  unfoldable pub insert_sorted : (A → A → Ordering) → A → List A → List A
  unfolding place
  insert_sorted cmp x [] = x ∷ []
  insert_sorted cmp x (y ∷ ys) = place (cmp x y) x y ys (insert_sorted cmp x ys)

  unfoldable pub sort_by : (A → A → Ordering) → List A → List A
  unfolding insert_sorted
  sort_by cmp [] = []
  sort_by cmp (x ∷ xs) = insert_sorted cmp x (sort_by cmp xs)

  -- `a` may stand before `b`.
  abbrev pub Precedes : (A → A → Ordering) → A → A → Type 0
  Precedes cmp a b = cmp a b ≢ gt

  -- Every element may stand before all that follow it.
  abbrev pub IsSorted : (A → A → Ordering) → List A → Type 0
  IsSorted cmp [] = Unit
  IsSorted cmp (x ∷ xs) = All (Precedes cmp x) xs × IsSorted cmp xs

  perm-place :
      (o : Ordering) (x y : A) {ys rest : List A}
      → Perm rest (x ∷ ys)
      → Perm (place o x y ys rest) (x ∷ y ∷ ys)
  unfolding place
  perm-place lt x y {ys} h = Perm.refl (x ∷ y ∷ ys)
  perm-place eq x y {ys} h = Perm.refl (x ∷ y ∷ ys)
  perm-place gt x y {ys} h = Perm.trans (Perm.cons y h) (Perm.swap x y ys)

  perm-insert_sorted :
      (cmp : A → A → Ordering) (x : A) (xs : List A) → Perm (insert_sorted cmp x xs) (x ∷ xs)
  unfolding insert_sorted
  perm-insert_sorted cmp x [] = Perm.refl (x ∷ [])
  perm-insert_sorted cmp x (y ∷ ys) = perm-place (cmp x y) x y (perm-insert_sorted cmp x ys)

  -- The sort rearranges its input.
  pub perm-sort_by : (cmp : A → A → Ordering) (xs : List A) → Perm (sort_by cmp xs) xs
  unfolding sort_by
  perm-sort_by cmp [] = Perm.refl []
  perm-sort_by cmp (x ∷ xs) =
      Perm.trans (perm-insert_sorted cmp x (sort_by cmp xs)) (Perm.cons x (perm-sort_by cmp xs))

module _ {ℓ κ} {A : Type ℓ} (P : A → Type κ) (cmp : A → A → Ordering) where
  All-place :
      (o : Ordering) (x y : A) (ys rest : List A)
      → P x
      → All P (y ∷ ys)
      → All P rest
      → All P (place o x y ys rest)
  unfolding place
  All-place lt x y ys rest hx h hr = (hx, h)
  All-place eq x y ys rest hx h hr = (hx, h)
  All-place gt x y ys rest hx h hr = (h.0, hr)

  All-insert_sorted : (x : A) (xs : List A) → P x → All P xs → All P (insert_sorted cmp x xs)
  unfolding insert_sorted
  All-insert_sorted x [] hx h = (hx, tt)
  All-insert_sorted x (y ∷ ys) hx h =
      All-place (cmp x y) x y ys (insert_sorted cmp x ys) hx h (All-insert_sorted x ys hx h.1)

  pub All-sort_by : (xs : List A) → All P xs → All P (sort_by cmp xs)
  unfolding sort_by
  All-sort_by [] h = tt
  All-sort_by (x ∷ xs) h = All-insert_sorted x (sort_by cmp xs) h.0 (All-sort_by xs h.1)

module _ {ℓ} {A : Type ℓ} {cmp : A → A → Ordering} (o : IsOrder cmp) where
  pub Precedes-trans : (a b c : A) → Precedes cmp a b → Precedes cmp b c → Precedes cmp a c
  Precedes-trans a b c h k =
      ground (
        arith,
        o.alike a b c,
        o.lt_trans a b c,
        o.alike b c a,
        o.flips a b,
        o.flips b c,
        o.flips a c,
      )

  Precedes-flip : (a b : A) → cmp a b ≡ gt → Precedes cmp b a
  Precedes-flip a b h = ground (arith, o.flips a b)

  place-IsSorted :
      (x y : A) (ys rest : List A) (r : Ordering)
      → cmp x y ≡ r
      → IsSorted cmp (y ∷ ys)
      → All (Precedes cmp y) rest
      → IsSorted cmp rest
      → IsSorted cmp (place r x y ys rest)
  unfolding place
  place-IsSorted x y ys rest lt e s h k =
      let before : Precedes cmp x y = ground arith in
      ((before, All-map (λ c. Precedes-trans x y c before) ys s.0), s)
  place-IsSorted x y ys rest eq e s h k =
      let before : Precedes cmp x y = ground arith in
      ((before, All-map (λ c. Precedes-trans x y c before) ys s.0), s)
  place-IsSorted x y ys rest gt e s h k = (h, k)

  behind :
      (x y : A) (ys : List A) (r : Ordering)
      → cmp x y ≡ r
      → IsSorted cmp (y ∷ ys)
      → IsSorted cmp (insert_sorted cmp x ys)
      → IsSorted cmp (place r x y ys (insert_sorted cmp x ys))
  behind x y ys gt e s k =
      place-IsSorted x y ys (insert_sorted cmp x ys) gt e s
        (All-insert_sorted (Precedes cmp y) cmp x ys (Precedes-flip x y e) s.0) k
  behind x y ys lt e s k = unfold place in place-IsSorted x y ys [] lt e s tt tt
  behind x y ys eq e s k = unfold place in place-IsSorted x y ys [] eq e s tt tt

  insert_sorted-IsSorted :
      (x : A) (xs : List A) → IsSorted cmp xs → IsSorted cmp (insert_sorted cmp x xs)
  unfolding insert_sorted
  insert_sorted-IsSorted x [] s = (tt, tt)
  insert_sorted-IsSorted x (y ∷ ys) s =
      behind x y ys (cmp x y) refl s (insert_sorted-IsSorted x ys s.1)

  -- The sort leaves a sorted list.
  pub sort_by-IsSorted : (xs : List A) → IsSorted cmp (sort_by cmp xs)
  unfolding sort_by
  sort_by-IsSorted [] = tt
  sort_by-IsSorted (x ∷ xs) = insert_sorted-IsSorted x (sort_by cmp xs) (sort_by-IsSorted xs)

module _ {ℓ} {A : Type ℓ} where
  -- `x` is kept, and what follows is dropped while it is the same as the last element kept.
  dedup_from : (A → A → Bool) → A → List A → List A
  dedup_from same x [] = x ∷ []
  dedup_from same x (y ∷ ys) =
      let dropped = dedup_from same x ys in
      let kept = x ∷ dedup_from same y ys in if same y x then dropped else kept

  unfoldable pub dedup_by : (A → A → Bool) → List A → List A
  unfolding dedup_from
  dedup_by same [] = []
  dedup_by same (x ∷ xs) = dedup_from same x xs

module _ {ℓ κ} {A : Type ℓ} (P : A → Type κ) (same : A → A → Bool) where
  All-dedup_from : (x : A) (xs : List A) → P x → All P xs → All P (dedup_from same x xs)
  unfolding dedup_from
  All-dedup_from x [] hx h = (hx, tt)
  All-dedup_from x (y ∷ ys) hx h = elim (Bool-cases (same y x)) [
    | inl e ↦ rw (e, dedup_from) (All-dedup_from x ys hx h.1)
    | inr e ↦ rw (e, dedup_from) (hx, All-dedup_from y ys h.0 h.1)
  ]

  pub All-dedup_by : (xs : List A) → All P xs → All P (dedup_by same xs)
  unfolding dedup_by
  All-dedup_by [] h = tt
  All-dedup_by (x ∷ xs) h = All-dedup_from x xs h.0 h.1

module _ {ℓ} {A : Type ℓ} (cmp : A → A → Ordering) (same : A → A → Bool) where
  dedup_from-IsSorted :
      (x : A) (xs : List A)
      → All (Precedes cmp x) xs
      → IsSorted cmp xs
      → IsSorted cmp (dedup_from same x xs)
  unfolding dedup_from
  dedup_from-IsSorted x [] hx s = (tt, tt)
  dedup_from-IsSorted x (y ∷ ys) hx s = elim (Bool-cases (same y x)) [
    | inl e ↦ rw (e, dedup_from) (dedup_from-IsSorted x ys hx.1 s.1)
    | inr e ↦
        rw (e, dedup_from)
          (All-dedup_from (Precedes cmp x) same y ys hx.0 hx.1, dedup_from-IsSorted y ys s.0 s.1)
  ]

  pub dedup_by-IsSorted : (xs : List A) → IsSorted cmp xs → IsSorted cmp (dedup_by same xs)
  unfolding dedup_by
  dedup_by-IsSorted [] s = tt
  dedup_by-IsSorted (x ∷ xs) s = dedup_from-IsSorted x xs s.0 s.1

-- Sorted texts with no repetition: a `BTreeSet<String>`, or `sort` and then `dedup`.
unfoldable pub sort_dedup : List String → List String
unfolding sort_by dedup_by
sort_dedup xs = dedup_by (λ a b. a == b) (sort_by text_cmp xs)
