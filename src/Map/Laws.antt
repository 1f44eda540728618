-- ===== src/Map/Laws.antt =====
-- What lookups find after an insertion or a removal, for keys in any order.
use busd.Prelude.{
  ◌+◌, ◌≤◌, ◌≡◌, refl, true, false, none, some, List, [], ◌∷◌, arith, length, if◌then◌else◌,
}
use busd.Order.{LinearOrder, same}
use busd.Map.{Map, get, contains_key, insert, remove, contains, set_insert, collect}

module _ {ℓ κ} {K : Type ℓ} {V : Type κ} ⦃o : LinearOrder K⦄ where
  pub get-insert :
      (j k : K) (v : V) (m : Map K V)
      → get j (insert k v m) ≡ (if same j k then some v else get j m)
  unfolding insert
  get-insert j k v [] = refl
  get-insert j k v ((i, w) ∷ m) = ground (
    arith,
    get-insert j k v m,
    o.cmp_eq k i,
    o.cmp_eq j k,
    o.cmp_eq j i,
    o.cmp_refl j,
    o.cmp_refl i,
    o.cmp_refl k,
  )

  pub get-remove :
      (j k : K) (m : Map K V) → get j (remove k m) ≡ (if same j k then none else get j m)
  unfolding remove
  get-remove j k [] = ground arith
  get-remove j k ((i, w) ∷ m) = ground (
    arith,
    get-remove j k m,
    o.cmp_eq k i,
    o.cmp_eq j k,
    o.cmp_eq j i,
    o.cmp_refl j,
    o.cmp_refl i,
    o.cmp_refl k,
  )

  pub contains_key-get :
      (k : K) (m : Map K V) → contains_key k m ≡ (elim (get k m) [ none ↦ false | some v ↦ true ])
  contains_key-get k [] = refl
  contains_key-get k ((i, w) ∷ m) = ground (arith, contains_key-get k m)

  pub contains_key-insert :
      (j k : K) (v : V) (m : Map K V)
      → contains_key j (insert k v m) ≡ (if same j k then true else contains_key j m)
  contains_key-insert j k v m =
      ground (arith, contains_key-get j m, contains_key-get j (insert k v m), get-insert j k v m)

  pub contains_key-remove :
      (j k : K) (m : Map K V)
      → contains_key j (remove k m) ≡ (if same j k then false else contains_key j m)
  contains_key-remove j k m =
      ground (arith, contains_key-get j m, contains_key-get j (remove k m), get-remove j k m)

  pub length-insert : (k : K) (v : V) (m : Map K V) → length (insert k v m) ≤ length m + 1
  unfolding insert
  length-insert k v [] = omega arith
  length-insert k v ((i, w) ∷ m) = ground (arith, length-insert k v m)

  pub length-insert_fresh :
      (k : K) (v : V) (m : Map K V)
      → contains_key k m ≡ false
      → length (insert k v m) ≡ length m + 1
  unfolding insert
  length-insert_fresh k v [] h = refl
  length-insert_fresh k v ((j, w) ∷ m) h =
      ground (arith, length-insert_fresh k v m, o.cmp_eq k j, o.cmp_refl k)

module _ {ℓ} {K : Type ℓ} ⦃o : LinearOrder K⦄ where
  pub contains-set_insert :
      (j k : K) (s : List K)
      → contains j (set_insert k s) ≡ (if same j k then true else contains j s)
  unfolding set_insert
  contains-set_insert j k [] = refl
  contains-set_insert j k (i ∷ s) = ground (
    arith,
    contains-set_insert j k s,
    o.cmp_eq k i,
    o.cmp_eq j k,
    o.cmp_eq j i,
    o.cmp_refl j,
    o.cmp_refl i,
    o.cmp_refl k,
  )

  pub contains-collect : (j : K) (ks : List K) → contains j (collect ks) ≡ contains j ks
  unfolding collect
  contains-collect j [] = refl
  contains-collect j (k ∷ ks) =
      ground (arith, contains-collect j ks, contains-set_insert j k (collect ks))
