-- ===== src/Map.antt =====
-- Rust's `BTreeMap` as an association list in key order, and `BTreeSet` as a list in order.
use busd.Prelude.{
  ◌≡◌, Bool, true, false, not, Option, none, some, List, [], ◌∷◌, map, Ordering, arith, filter, any,
  if◌then◌else◌,
}
use busd.Order.{LinearOrder, same}
pub mod Laws
pub mod Keys

abbrev pub Map {ℓ κ} : Type ℓ → Type κ → Type (ℓ ⊔ κ)
Map K V = List (K × V)

module _ {ℓ κ} {K : Type ℓ} {V : Type κ} ⦃o : LinearOrder K⦄ where
  abbrev pub get : K → Map K V → Option V
  get k [] = none
  get k ((j, v) ∷ m) = if same k j then some v else get k m

  abbrev pub contains_key : K → Map K V → Bool
  contains_key k [] = false
  contains_key k ((j, v) ∷ m) = if same k j then true else contains_key k m

  unfoldable pub insert : K → V → Map K V → Map K V
  insert k v [] = (k, v) ∷ []
  insert k v ((j, w) ∷ m) = elim (o.cmp k j) [
    | Ordering.lt ↦ (k, v) ∷ (j, w) ∷ m
    | Ordering.eq ↦ (k, v) ∷ m
    | Ordering.gt ↦ (j, w) ∷ insert k v m
  ]

  unfoldable pub remove : K → Map K V → Map K V
  remove k [] = []
  remove k ((j, w) ∷ m) = let rest = remove k m in if same k j then rest else (j, w) ∷ rest

module _ {ℓ κ} {K : Type ℓ} {V : Type κ} where
  abbrev pub keys : Map K V → List K
  keys [] = []
  keys ((k, v) ∷ m) = k ∷ keys m

  abbrev pub values : Map K V → List V
  values [] = []
  values ((k, v) ∷ m) = v ∷ values m

module _ {ℓ} {K : Type ℓ} ⦃o : LinearOrder K⦄ where
  abbrev pub contains : K → List K → Bool
  contains k [] = false
  contains k (j ∷ s) = if same k j then true else contains k s

  unfoldable pub set_insert : K → List K → List K
  set_insert k [] = k ∷ []
  set_insert k (j ∷ s) = elim (o.cmp k j) [
    | Ordering.lt ↦ k ∷ j ∷ s
    | Ordering.eq ↦ j ∷ s
    | Ordering.gt ↦ j ∷ set_insert k s
  ]

  -- `into_iter().collect::<BTreeSet<_>>()`
  unfoldable pub collect : List K → List K
  collect [] = []
  collect (k ∷ ks) = set_insert k (collect ks)
