-- ===== src/Prelude/Order.antt =====
-- Comparison functions (Rust's `Ord` and `Ordering`): laws that composed comparisons keep.
use Prim.Native.Nat.{compare, Ordering}
use Prim.Native.Nat.Ordering.{lt, eq, gt}
use Prim.Native.Char.{code}
use Prim.Native.String.{String}
use mathlib.Core.Path.{◌≡◌, refl}
use mathlib.Core.Option.{Option, none, some}
use native.Mathlib.Omega.{arith}

abbrev pub flip : Ordering → Ordering
flip lt = gt
flip eq = eq
flip gt = lt

-- `Ordering::then`: the first difference decides.
abbrev pub then_cmp : Ordering → Ordering → Ordering
then_cmp lt o = lt
then_cmp eq o = o
then_cmp gt o = gt

-- A comparison that is a total preorder: `eq` means that the two cannot be told apart.
pub record IsOrder {ℓ} {A : Type ℓ} (cmp : A → A → Ordering) : Type ℓ where
  pub flips : (a b : A) → cmp b a ≡ flip (cmp a b)
  pub alike : (a b c : A) → cmp a b ≡ eq → cmp a c ≡ cmp b c
  pub lt_trans : (a b c : A) → cmp a b ≡ lt → cmp b c ≡ lt → cmp a c ≡ lt

pub compare-IsOrder : IsOrder compare
compare-IsOrder = record {
  flips = λ a b. ground arith;
  alike = λ a b c h. ground arith;
  lt_trans = λ a b c h k. ground arith;
}

module _ {ℓ κ} {A : Type ℓ} {B : Type κ} (key : A → B) {cmp : B → B → Ordering} where
  pub by_key-IsOrder : IsOrder cmp → IsOrder (λ a b. cmp (key a) (key b))
  by_key-IsOrder o = record {
    flips = λ a b. o.flips (key a) (key b);
    alike = λ a b c. o.alike (key a) (key b) (key c);
    lt_trans = λ a b c. o.lt_trans (key a) (key b) (key c);
  }

module _ {ℓ} {A : Type ℓ} {cmp : A → A → Ordering} where
  -- `Reverse`.
  pub reverse-IsOrder : IsOrder cmp → IsOrder (λ a b. cmp b a)
  reverse-IsOrder o = record {
    flips = λ a b. o.flips b a;
    alike = λ a b c h.
        ground (arith, o.flips a b, o.flips b a, o.flips c a, o.flips c b, o.alike a b c);
    lt_trans = λ a b c h k. o.lt_trans c b a k h;
  }

module _ {ℓ} {A : Type ℓ} {cmp cmp' : A → A → Ordering} where
  -- The comparison of a tuple: its parts in turn.
  pub then_cmp-IsOrder : IsOrder cmp → IsOrder cmp' → IsOrder (λ a b. then_cmp (cmp a b) (cmp' a b))
  then_cmp-IsOrder o o' = record {
    flips = λ a b. ground (arith, o.flips a b, o'.flips a b);
    alike = λ a b c h. ground (arith, o.alike a b c, o'.alike a b c);
    lt_trans = λ a b c h k. ground (
      arith,
      o.alike a b c,
      o'.alike a b c,
      o.lt_trans a b c,
      o'.lt_trans a b c,
      o.flips a b,
      o.flips b c,
      o.flips a c,
      o.alike b c a,
      o.alike c b a,
    );
  }

-- `None` comes before `Some`.
abbrev pub option_cmp {ℓ} : {A : Type ℓ} → (A → A → Ordering) → Option A → Option A → Ordering
option_cmp cmp none none = eq
option_cmp cmp none (some b) = lt
option_cmp cmp (some a) none = gt
option_cmp cmp (some a) (some b) = cmp a b

abbrev pub text_cmp : String → String → Ordering
text_cmp String.[] String.[] = eq
text_cmp String.[] (String.◌∷◌ d t) = lt
text_cmp (String.◌∷◌ c s) String.[] = gt
text_cmp (String.◌∷◌ c s) (String.◌∷◌ d t) = then_cmp (compare (code c) (code d)) (text_cmp s t)

text_cmp-flips : (s t : String) → text_cmp t s ≡ flip (text_cmp s t)
text_cmp-flips String.[] String.[] = refl
text_cmp-flips String.[] (String.◌∷◌ d t) = refl
text_cmp-flips (String.◌∷◌ c s) String.[] = refl
text_cmp-flips (String.◌∷◌ c s) (String.◌∷◌ d t) = ground (arith, text_cmp-flips s t)

text_cmp-alike : (s t u : String) → text_cmp s t ≡ eq → text_cmp s u ≡ text_cmp t u
text_cmp-alike String.[] String.[] u h = refl
text_cmp-alike String.[] (String.◌∷◌ d t) u h = ground arith
text_cmp-alike (String.◌∷◌ c s) String.[] u h = ground arith
text_cmp-alike (String.◌∷◌ c s) (String.◌∷◌ d t) String.[] h = refl
text_cmp-alike (String.◌∷◌ c s) (String.◌∷◌ d t) (String.◌∷◌ e u) h =
    ground (arith, text_cmp-alike s t u)

text_cmp-lt_trans : (s t u : String) → text_cmp s t ≡ lt → text_cmp t u ≡ lt → text_cmp s u ≡ lt
text_cmp-lt_trans String.[] String.[] u h k = ground arith
text_cmp-lt_trans String.[] (String.◌∷◌ d t) String.[] h k = ground arith
text_cmp-lt_trans String.[] (String.◌∷◌ d t) (String.◌∷◌ e u) h k = refl
text_cmp-lt_trans (String.◌∷◌ c s) String.[] u h k = ground arith
text_cmp-lt_trans (String.◌∷◌ c s) (String.◌∷◌ d t) String.[] h k = ground arith
text_cmp-lt_trans (String.◌∷◌ c s) (String.◌∷◌ d t) (String.◌∷◌ e u) h k =
    ground (arith, text_cmp-lt_trans s t u)

-- The order of texts by code points, which is that of their UTF-8 bytes.
pub text_cmp-IsOrder : IsOrder text_cmp
text_cmp-IsOrder = record {
  flips = text_cmp-flips;
  alike = text_cmp-alike;
  lt_trans = text_cmp-lt_trans;
}

pub option_cmp-IsOrder {ℓ} :
    {A : Type ℓ} {cmp : A → A → Ordering} → IsOrder cmp → IsOrder (option_cmp cmp)
option_cmp-IsOrder o = record {
  flips = elim [
    | none ↦ elim [ none ↦ refl | some b ↦ refl ]
    | some a ↦ elim [ none ↦ refl | some b ↦ o.flips a b ]
  ];
  alike = elim [
    | none ↦ elim [ none ↦ λ c h. refl | some b ↦ λ c h. ground arith ]
    | some a ↦ elim [
      | none ↦ λ c h. ground arith
      | some b ↦ elim [ none ↦ λ h. refl | some c ↦ λ h. o.alike a b c h ]
    ]
  ];
  lt_trans = elim [
    | none ↦ elim [
      | none ↦ λ c h k. ground arith
      | some b ↦ elim [ none ↦ λ h k. ground arith | some c ↦ λ h k. refl ]
    ]
    | some a ↦ elim [
      | none ↦ λ c h k. ground arith
      | some b ↦ elim [ none ↦ λ h k. ground arith | some c ↦ λ h k. o.lt_trans a b c h k ]
    ]
  ];
}
