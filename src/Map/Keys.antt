-- ===== src/Map/Keys.antt =====
-- Maps and sets in strictly ascending order, and predicates over all their entries.
use busd.Prelude.{
  ◌≡◌, refl, some, List, [], ◌∷◌, ◌++◌, arith, false, Bool-cases, inl, inr, Ordering,
}
use busd.Order.{LinearOrder, same}
use busd.Map.{Map, get, insert, remove, keys, set_insert, collect}

module _ {ℓ} {K : Type ℓ} ⦃o : LinearOrder K⦄ where
  -- `ks` ascends strictly, from above `p`.
  abbrev pub Above : K → List K → Type 0
  Above p [] = Unit {0}
  Above p (k ∷ ks) = (o.cmp p k ≡ Ordering.lt) × Above k ks

  abbrev pub IsAscending : List K → Type 0
  IsAscending [] = Unit {0}
  IsAscending (k ∷ ks) = Above k ks

  pub Above-weaken : (p q : K) (ks : List K) → o.cmp p q ≡ Ordering.lt → Above q ks → Above p ks
  Above-weaken p q [] h a = tt
  Above-weaken p q (k ∷ ks) h a = (o.cmp_trans p q k h a.0, a.1)

  pub Above-IsAscending : (p : K) (ks : List K) → Above p ks → IsAscending ks
  Above-IsAscending p [] a = tt
  Above-IsAscending p (k ∷ ks) a = a.1

  Above-set_insert :
      (p k : K) (s : List K) → o.cmp p k ≡ Ordering.lt → Above p s → Above p (set_insert k s)
  unfolding set_insert
  Above-set_insert p k [] h a = (h, tt)
  Above-set_insert p k (i ∷ s) h a =
      ground (arith, Above-set_insert i k s, o.cmp_flip k i, a.0, a.1, o.cmp_eq k i)

  pub IsAscending-set_insert : (k : K) (s : List K) → IsAscending s → IsAscending (set_insert k s)
  unfolding set_insert
  IsAscending-set_insert k [] a = tt
  IsAscending-set_insert k (i ∷ s) a = ground (arith, Above-set_insert i k s, o.cmp_flip k i)

  pub collect-IsAscending : (ks : List K) → IsAscending (collect ks)
  unfolding collect
  collect-IsAscending [] = tt
  collect-IsAscending (k ∷ ks) = IsAscending-set_insert k (collect ks) (collect-IsAscending ks)

  -- Every member of `s` comes before `k`.
  abbrev pub SetBelow : K → List K → Type 0
  SetBelow k [] = Unit {0}
  SetBelow k (j ∷ s) = (o.cmp j k ≡ Ordering.lt) × SetBelow k s

  pub SetBelow-append :
      (k l : K) (s : List K) → o.cmp k l ≡ Ordering.lt → SetBelow k s → SetBelow l (s ++ k ∷ [])
  SetBelow-append k l [] h b = (h, tt)
  SetBelow-append k l (j ∷ s) h b = (o.cmp_trans j k l b.0 h, SetBelow-append k l s h b.1)

  pub set_insert_last : (k : K) (s : List K) → SetBelow k s → set_insert k s ≡ s ++ k ∷ []
  unfolding set_insert
  set_insert_last k [] b = refl
  set_insert_last k (j ∷ s) b = ground (arith, set_insert_last k s b.1, o.cmp_swap j k b.0)

module _ {ℓ κ} {K : Type ℓ} {V : Type κ} ⦃o : LinearOrder K⦄ where
  -- Every key of `m` comes before `k`.
  abbrev pub Below : K → Map K V → Type 0
  Below k [] = Unit {0}
  Below k ((j, v) ∷ m) = (o.cmp j k ≡ Ordering.lt) × Below k m

  pub Below-weaken : (k l : K) (m : Map K V) → o.cmp k l ≡ Ordering.lt → Below k m → Below l m
  Below-weaken k l [] h b = tt
  Below-weaken k l ((j, v) ∷ m) h b = (o.cmp_trans j k l b.0 h, Below-weaken k l m h b.1)

  pub Below-append :
      (k l : K) (v : V) (m : Map K V)
      → o.cmp k l ≡ Ordering.lt
      → Below k m
      → Below l (m ++ (k, v) ∷ [])
  Below-append k l v [] h b = (h, tt)
  Below-append k l v ((j, w) ∷ m) h b = (o.cmp_trans j k l b.0 h, Below-append k l v m h b.1)

  -- A key beyond all others is added at the end.
  pub insert_last : (k : K) (v : V) (m : Map K V) → Below k m → insert k v m ≡ m ++ (k, v) ∷ []
  unfolding insert
  insert_last k v [] b = refl
  insert_last k v ((j, w) ∷ m) b = ground (arith, insert_last k v m b.1, o.cmp_swap j k b.0)

  Above-insert :
      (p k : K) (v : V) (m : Map K V)
      → o.cmp p k ≡ Ordering.lt
      → Above p (keys m)
      → Above p (keys (insert k v m))
  unfolding insert
  Above-insert p k v [] h a = (h, tt)
  Above-insert p k v ((i, w) ∷ m) h a =
      ground (arith, Above-insert i k v m, o.cmp_flip k i, a.0, a.1, o.cmp_eq k i)

  pub IsAscending-insert :
      (k : K) (v : V) (m : Map K V) → IsAscending (keys m) → IsAscending (keys (insert k v m))
  unfolding insert
  IsAscending-insert k v [] a = tt
  IsAscending-insert k v ((i, w) ∷ m) a =
      ground (arith, Above-insert i k v m, o.cmp_flip k i, o.cmp_eq k i)

  Above-remove : (p k : K) (m : Map K V) → Above p (keys m) → Above p (keys (remove k m))
  unfolding remove
  Above-remove p k [] a = tt
  Above-remove p k ((i, w) ∷ m) a =
      ground (arith, Above-remove p k m (Above-weaken p i (keys m) a.0 a.1), Above-remove i k m a.1)

  pub IsAscending-remove :
      (k : K) (m : Map K V) → IsAscending (keys m) → IsAscending (keys (remove k m))
  unfolding remove
  IsAscending-remove k [] a = tt
  IsAscending-remove k ((i, w) ∷ m) a =
      ground (arith, Above-remove i k m a, IsAscending-remove k m (Above-IsAscending i (keys m) a))

module _ {ℓ κ ι} {K : Type ℓ} {V : Type κ} ⦃o : LinearOrder K⦄ (P : K → V → Type ι) where
  -- `P` holds of every entry.
  abbrev pub Entries : Map K V → Type ι
  Entries [] = Unit {ι}
  Entries ((k, v) ∷ m) = P k v × Entries m

  pub Entries-insert : (k : K) (v : V) (m : Map K V) → P k v → Entries m → Entries (insert k v m)
  unfolding insert
  Entries-insert k v [] h e = (h, tt)
  Entries-insert k v ((i, w) ∷ m) h e = ground (arith, Entries-insert k v m h e.1)

  pub Entries-remove : (k : K) (m : Map K V) → Entries m → Entries (remove k m)
  unfolding remove
  Entries-remove k [] e = tt
  Entries-remove k ((i, w) ∷ m) e = ground (arith, Entries-remove k m e.1)

  pub Entries-get : (k : K) (v : V) (m : Map K V) → get k m ≡ some v → Entries m → P k v
  Entries-get k v [] h e = cc
  Entries-get k v ((i, w) ∷ m) h e = ground (arith, Entries-get k v m, o.cmp_eq k i)

module _ {ℓ κ ι ι'} {K : Type ℓ} {V : Type κ} ⦃o : LinearOrder K⦄ (P : K → V → Type ι)
    (Q : K → V → Type ι') where
  pub Entries_mono : ((k : K) (v : V) → P k v → Q k v) → (m : Map K V) → Entries P m → Entries Q m
  Entries_mono h [] e = tt
  Entries_mono h ((k, v) ∷ m) e = (h k v e.0, Entries_mono h m e.1)

  -- What is left after a removal has another key.
  pub Entries-remove_ne :
      (k : K)
      → ((j : K) (v : V) → P j v → same k j ≡ false → Q j v)
      → (m : Map K V) → Entries P m
      → Entries Q (remove k m)
  unfolding remove
  Entries-remove_ne k h [] e = tt
  Entries-remove_ne k h ((j, v) ∷ m) e = elim (Bool-cases (same k j)) [
    | inl q ↦ rw q (Entries-remove_ne k h m e.1)
    | inr q ↦ rw q (h j v e.0 q, Entries-remove_ne k h m e.1)
  ]
