-- ===== src/Broker/Exec.antt =====
-- A broker method: it may fail, and what it wrote before an error stays written.
use busd.Prelude.{Result, ok, err}
use busd.Broker.Types.{Broker, Error}

abbrev pub Exec {ℓ} : Type ℓ → Type ℓ
Exec A = Broker → Result Error A × Broker

module _ {ℓ} {A : Type ℓ} where
  abbrev pub pure : A → Exec A
  pure a b = (ok a, b)

  abbrev pub fail : Error → Exec A
  fail e b = (err e, b)

  -- A method that takes `&self`.
  abbrev pub reads : (Broker → Result Error A) → Exec A
  reads f b = (f b, b)

  abbrev pub gets : (Broker → A) → Exec A
  gets f b = (ok (f b), b)

abbrev pub modify : (Broker → Broker) → Exec (Unit {0})
modify f b = (ok tt, f b)

module _ {ℓ κ} {A : Type ℓ} {B : Type κ} where
  abbrev pub continue : Result Error A → (A → Exec B) → Exec B
  continue (ok a) f b = f a b
  continue (err e) f b = (err e, b)

  infixl 5 ◌>>=◌
  abbrev pub ◌>>=◌ : Exec A → (A → Exec B) → Exec B
  ◌>>=◌ m f b = continue (m b).0 f (m b).1

module _ {ℓ} {B : Type ℓ} where
  infixl 5 ◌>>◌
  abbrev pub ◌>>◌ : Exec (Unit {0}) → Exec B → Exec B
  m >> k = m >>= λ _. k
