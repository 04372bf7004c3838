-- ===== src/Prelude/Map.antt =====
-- `BTreeMap`: entries in the order of their keys, one for each key.
use Prim.Native.Nat.{Ordering}
use Prim.Native.Nat.Ordering.{lt, eq, gt}
use mathlib.Core.Path.{◌≡◌}
use mathlib.Core.Logic.{◌≢◌}
use mathlib.Core.Option.{Option, none, some}
use mathlib.Core.List.{List, [], ◌∷◌}
use native.Mathlib.Omega.{arith}
use previously_on.Prelude.Order.{IsOrder}

abbrev pub BTreeMap {ℓ κ} : Type ℓ → Type κ → Type (ℓ ⊔ κ)
BTreeMap K V = List (K × V)

module _ {ℓ κ} {K : Type ℓ} {V : Type κ} (cmp : K → K → Ordering) where
  -- `get`, by a walk over all entries.
  unfoldable pub map_get : K → BTreeMap K V → Option V
  map_get k [] = none
  map_get k ((j, v) ∷ m) = let rest = map_get k m in elim (cmp k j) [ eq ↦ some v | _ ↦ rest ]

  -- `insert`, which replaces the value of a key that is there.
  unfoldable pub map_insert : K → V → BTreeMap K V → BTreeMap K V
  map_insert k v [] = (k, v) ∷ []
  map_insert k v ((j, w) ∷ m) =
      let rest = map_insert k v m in
      elim (cmp k j) [ lt ↦ (k, v) ∷ (j, w) ∷ m | eq ↦ (k, v) ∷ m | gt ↦ (j, w) ∷ rest ]

abbrev pub map_values {ℓ κ} : {K : Type ℓ} {V : Type κ} → BTreeMap K V → List V
map_values [] = []
map_values ((k, v) ∷ m) = v ∷ map_values m

module _ {ℓ κ} {K : Type ℓ} {V : Type κ} {cmp : K → K → Ordering} (o : IsOrder cmp) where
  pub map_get-insert_self :
      (k : K) (v : V) (m : BTreeMap K V) → map_get cmp k (map_insert cmp k v m) ≡ some v
  unfolding map_get map_insert
  map_get-insert_self k v [] = ground (arith, o.flips k k)
  map_get-insert_self k v ((j, w) ∷ m) = ground (arith, o.flips k k, map_get-insert_self k v m)

  pub map_get-insert_ne :
      (k j : K) (v : V) (m : BTreeMap K V)
      → cmp j k ≢ eq
      → map_get cmp j (map_insert cmp k v m) ≡ map_get cmp j m
  unfolding map_get map_insert
  map_get-insert_ne k j v [] h = ground arith
  map_get-insert_ne k j v ((i, w) ∷ m) h =
      ground (arith, o.alike k i j, o.flips i j, o.flips k j, map_get-insert_ne k j v m)
