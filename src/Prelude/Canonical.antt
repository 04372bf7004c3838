-- ===== src/Prelude/Canonical.antt =====
-- A sort by an order that tells all elements apart does not depend on the order of its input.
use Prim.Native.Nat.{Ordering}
use Prim.Native.Nat.Ordering.{eq}
use Prim.Native.String.{String}
use mathlib.Core.Path.{◌≡◌, refl, ap, ◌∙◌}
use mathlib.Core.List.{List, [], ◌∷◌, Permᴰ}
use mathlib.Core.Bool.{Bool, ◌&&◌, ◌||◌}
use previously_on.Prelude.Lists.{any, all}
use native.Mathlib.Omega.{arith}
use text.Mathlib.TextEquality.{codes_equal}
use previously_on.Prelude.Tests.{◌==◌, string_partial_eq}
use previously_on.Prelude.Order.{IsOrder, text_cmp, text_cmp-IsOrder}
use previously_on.Prelude.Sort.{place, insert_sorted, sort_by, dedup_by, sort_dedup}

module _ {ℓ} {A : Type ℓ} {cmp : A → A → Ordering} (o : IsOrder cmp)
    (apart : (a b : A) → cmp a b ≡ eq → a ≡ b) where
  pub insert_sorted_comm :
      (x y : A) (xs : List A)
      → insert_sorted cmp x (insert_sorted cmp y xs) ≡ insert_sorted cmp y (insert_sorted cmp x xs)
  unfolding insert_sorted place
  insert_sorted_comm x y [] = ground (arith, o.flips x y, apart x y)
  insert_sorted_comm x y (z ∷ zs) = ground (
    arith,
    insert_sorted_comm x y zs,
    o.flips x y,
    apart x y,
    apart x z,
    apart y z,
    o.lt_trans x y z,
    o.lt_trans y x z,
    o.flips x z,
    o.flips y z,
    o.lt_trans x z y,
    o.lt_trans y z x,
    o.lt_trans z x y,
    o.lt_trans z y x,
  )

  pub sort_by-Perm : {xs ys : List A} → Permᴰ xs ys → sort_by cmp xs ≡ sort_by cmp ys
  unfolding sort_by
  sort_by-Perm Permᴰ.nil = refl
  sort_by-Perm (Permᴰ.cons e h) = ground (arith, e, sort_by-Perm h)
  sort_by-Perm (Permᴰ.swap {a} {b} {l = l} e f) = rw (e, f) (insert_sorted_comm _ _ (sort_by cmp l))
  sort_by-Perm (Permᴰ.trans h k) = sort_by-Perm h ∙ sort_by-Perm k

pub text_cmp-eq : (s t : String) → text_cmp s t ≡ eq → s ≡ t
text_cmp-eq String.[] String.[] h = refl
text_cmp-eq String.[] (String.◌∷◌ d t) h = ground arith
text_cmp-eq (String.◌∷◌ c s) String.[] h = ground arith
text_cmp-eq (String.◌∷◌ c s) (String.◌∷◌ d t) h = ground (arith, text_cmp-eq s t, codes_equal c d)

pub sort_dedup-Perm : {xs ys : List String} → Permᴰ xs ys → sort_dedup xs ≡ sort_dedup ys
unfolding sort_dedup
sort_dedup-Perm h = ap (dedup_by (λ a b. a == b)) (sort_by-Perm text_cmp-IsOrder text_cmp-eq h)

module _ {ℓ} {A : Type ℓ} (cmp : A → A → Ordering) (p : A → Bool) where
  any-insert_sorted : (x : A) (xs : List A) → any p (insert_sorted cmp x xs) ≡ (p x || any p xs)
  unfolding insert_sorted place
  any-insert_sorted x [] = refl
  any-insert_sorted x (y ∷ ys) = ground (arith, any-insert_sorted x ys)

  pub any-sort_by : (xs : List A) → any p (sort_by cmp xs) ≡ any p xs
  unfolding sort_by
  any-sort_by [] = refl
  any-sort_by (x ∷ xs) = ground (arith, any-insert_sorted x (sort_by cmp xs), any-sort_by xs)

  all-insert_sorted : (x : A) (xs : List A) → all p (insert_sorted cmp x xs) ≡ (p x && all p xs)
  unfolding insert_sorted place
  all-insert_sorted x [] = refl
  all-insert_sorted x (y ∷ ys) = ground (arith, all-insert_sorted x ys)

  pub all-sort_by : (xs : List A) → all p (sort_by cmp xs) ≡ all p xs
  unfolding sort_by
  all-sort_by [] = refl
  all-sort_by (x ∷ xs) = ground (arith, all-insert_sorted x (sort_by cmp xs), all-sort_by xs)
