-- ===== src/Action.antt =====
-- Code that changes a state and may fail; what it wrote before an error stays written.
use busd.Prelude.{Result, ok, err}

abbrev pub Action {ℓ κ ι} : Type ℓ → Type κ → Type ι → Type (ℓ ⊔ κ ⊔ ι)
Action S E A = S → Result E A × S

module _ {ℓ κ ι} {S : Type ℓ} {E : Type κ} {A : Type ι} where
  abbrev pub pure : A → Action S E A
  pure a s = (ok a, s)

  abbrev pub fail : E → Action S E A
  fail e s = (err e, s)

  -- A result that the state has no part in, `?` in front of it.
  abbrev pub lift : Result E A → Action S E A
  lift r s = (r, s)

module _ {ℓ κ ι ν} {S : Type ℓ} {E : Type κ} {A : Type ι} {B : Type ν} where
  abbrev pub continue : Result E A → (A → Action S E B) → Action S E B
  continue (ok a) f s = f a s
  continue (err e) f s = (err e, s)

  infixl 5 ◌>>=◌
  abbrev pub ◌>>=◌ : Action S E A → (A → Action S E B) → Action S E B
  ◌>>=◌ m f s = continue (m s).0 f (m s).1

module _ {ℓ κ ν} {S : Type ℓ} {E : Type κ} {B : Type ν} where
  infixl 5 ◌>>◌
  abbrev pub ◌>>◌ : Action S E (Unit {0}) → Action S E B → Action S E B
  m >> k = m >>= λ _. k

-- `map_err(f)`
abbrev pub map_err {ℓ κ ι} :
    {E : Type ℓ} {F : Type κ} {A : Type ι} → (E → F) → Result E A → Result F A
map_err f (ok a) = ok a
map_err f (err e) = err (f e)
