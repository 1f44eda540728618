-- ===== src/Order.antt =====
-- The order that Rust's `BTreeMap` and `BTreeSet` keep their keys in: `Ord` of integers, and the
-- lexicographic `Ord` of `String` and of byte arrays.
use Prim.Native.Nat.{ℕ, compare, Ordering}
use busd.Prelude.{◌≡◌, refl, Bool, true, false, List, [], ◌∷◌, arith, ◌⊎◌, inl, inr}

pub record LinearOrder {ℓ} (K : Type ℓ) : Type ℓ where
  pub cmp : K → K → Ordering
  pub cmp_eq : (a b : K) → cmp a b ≡ Ordering.eq → a ≡ b
  pub cmp_refl : (a : K) → cmp a a ≡ Ordering.eq
  pub cmp_flip : (a b : K) → cmp a b ≡ Ordering.gt → cmp b a ≡ Ordering.lt
  pub cmp_swap : (a b : K) → cmp a b ≡ Ordering.lt → cmp b a ≡ Ordering.gt
  pub cmp_trans :
      (a b c : K) → cmp a b ≡ Ordering.lt → cmp b c ≡ Ordering.lt → cmp a c ≡ Ordering.lt

pub compare_trans :
    (a b c : ℕ) → compare a b ≡ Ordering.lt → compare b c ≡ Ordering.lt → compare a c ≡ Ordering.lt
compare_trans a b c h k = ground arith

pub compare_eq : (a b : ℕ) → compare a b ≡ Ordering.eq → a ≡ b
compare_eq a b h = ground arith

pub compare_refl : (a : ℕ) → compare a a ≡ Ordering.eq
compare_refl a = ground arith

pub compare_flip : (a b : ℕ) → compare a b ≡ Ordering.gt → compare b a ≡ Ordering.lt
compare_flip a b h = ground arith

pub compare_swap : (a b : ℕ) → compare a b ≡ Ordering.lt → compare b a ≡ Ordering.gt
compare_swap a b h = ground arith

instance abbrev pub nat_order : LinearOrder ℕ
nat_order = record {
  cmp = compare;
  cmp_eq = compare_eq;
  cmp_refl = compare_refl;
  cmp_flip = compare_flip;
  cmp_swap = compare_swap;
  cmp_trans = compare_trans;
}

abbrev pub compare_bytes : List ℕ → List ℕ → Ordering
compare_bytes [] [] = Ordering.eq
compare_bytes [] (b ∷ bs) = Ordering.lt
compare_bytes (a ∷ as') [] = Ordering.gt
compare_bytes (a ∷ as') (b ∷ bs) = elim (compare a b) [
  | Ordering.lt ↦ Ordering.lt
  | Ordering.eq ↦ compare_bytes as' bs
  | Ordering.gt ↦ Ordering.gt
]

pub compare_bytes_eq : (a b : List ℕ) → compare_bytes a b ≡ Ordering.eq → a ≡ b
compare_bytes_eq [] [] h = refl
compare_bytes_eq [] (b ∷ bs) h = cc
compare_bytes_eq (a ∷ as') [] h = cc
compare_bytes_eq (a ∷ as') (b ∷ bs) h = ground (arith, compare_bytes_eq as' bs)

pub compare_bytes_refl : (a : List ℕ) → compare_bytes a a ≡ Ordering.eq
compare_bytes_refl [] = refl
compare_bytes_refl (a ∷ as') = ground (arith, compare_bytes_refl as')

pub compare_bytes_flip :
    (a b : List ℕ) → compare_bytes a b ≡ Ordering.gt → compare_bytes b a ≡ Ordering.lt
compare_bytes_flip [] [] h = cc
compare_bytes_flip [] (b ∷ bs) h = cc
compare_bytes_flip (a ∷ as') [] h = refl
compare_bytes_flip (a ∷ as') (b ∷ bs) h = ground (arith, compare_bytes_flip as' bs)

pub compare_bytes_swap :
    (a b : List ℕ) → compare_bytes a b ≡ Ordering.lt → compare_bytes b a ≡ Ordering.gt
compare_bytes_swap [] [] h = cc
compare_bytes_swap [] (b ∷ bs) h = refl
compare_bytes_swap (a ∷ as') [] h = cc
compare_bytes_swap (a ∷ as') (b ∷ bs) h = ground (arith, compare_bytes_swap as' bs)

pub compare_bytes_trans :
    (a b c : List ℕ)
    → compare_bytes a b ≡ Ordering.lt
    → compare_bytes b c ≡ Ordering.lt
    → compare_bytes a c ≡ Ordering.lt
compare_bytes_trans [] [] c h k = cc
compare_bytes_trans [] (b ∷ bs) [] h k = cc
compare_bytes_trans [] (b ∷ bs) (c ∷ cs) h k = refl
compare_bytes_trans (a ∷ as') [] c h k = cc
compare_bytes_trans (a ∷ as') (b ∷ bs) [] h k = cc
compare_bytes_trans (a ∷ as') (b ∷ bs) (c ∷ cs) h k = ground (arith, compare_bytes_trans as' bs cs)

instance abbrev pub bytes_order : LinearOrder (List ℕ)
bytes_order = record {
  cmp = compare_bytes;
  cmp_eq = compare_bytes_eq;
  cmp_refl = compare_bytes_refl;
  cmp_flip = compare_bytes_flip;
  cmp_swap = compare_bytes_swap;
  cmp_trans = compare_bytes_trans;
}

-- `==` of the keys.
abbrev pub same {ℓ} : {K : Type ℓ} ⦃o : LinearOrder K⦄ → K → K → Bool
same ⦃o⦄ a b = elim (o.cmp a b) [ Ordering.eq ↦ true | _ ↦ false ]

pub Ordering-cases : (c : Ordering) → (c ≡ Ordering.lt) ⊎ (c ≡ Ordering.eq) ⊎ (c ≡ Ordering.gt)
Ordering-cases Ordering.lt = inl refl
Ordering-cases Ordering.eq = inr (inl refl)
Ordering-cases Ordering.gt = inr (inr refl)

module _ {ℓ} {K : Type ℓ} ⦃o : LinearOrder K⦄ where
  pub same_refl : (a : K) → same a a ≡ true
  same_refl a = ground (arith, o.cmp_refl a)

  pub same→eq : (a b : K) → same a b ≡ true → a ≡ b
  same→eq a b h = ground (arith, o.cmp_eq a b)

  pub same-of_lt : (a b : K) → o.cmp a b ≡ Ordering.lt → same a b ≡ false
  same-of_lt a b h = ground arith
