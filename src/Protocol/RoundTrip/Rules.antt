-- ===== src/Protocol/RoundTrip/Rules.antt =====
-- What it means that a reader undoes a write, and one rule for each way to build them.
use busd.Prelude.{true, false, reject_if, ◌≡◌, refl, Bool, [], ◌++◌, append_assoc, ok, err, arith}
use busd.Protocol.Types.{Bytes}
use busd.Protocol.Tags.{Codec}
use busd.Protocol.Writer.{Written, ◌⊕◌, checked}
use busd.Protocol.Reader.{Reader, ◌>>=◌, pure, lift}

-- Whatever `e` writes, `r` reads it off the front of any input as `a`, and leaves the rest.
pub record Reads {ℓ} {A : Type ℓ} (e : Written) (r : Reader A) (a : A) : Type ℓ where
  pub at : (code : Bytes) → e ≡ ok code → (rest : Bytes) → r (code ++ rest) ≡ ok (a, rest)

module _ {ℓ} {A : Type ℓ} where
  pub Reads-pure : (a : A) → Reads (ok []) (pure a) a
  Reads-pure a = record { at = λ code h rest. ground arith }

  pub Reads-checked :
      (c : Codec (Unit {0})) (e : Written) (r : Reader A) (a : A)
      → (c ≡ ok tt → Reads e r a)
      → Reads (checked c e) r a
  Reads-checked (ok tt') e r a h = h refl
  Reads-checked (err x) e r a h = record { at = λ code k rest. cc }

module _ {ℓ κ} {A : Type ℓ} {B : Type κ} where
  pub Reads-bind :
      (e e' : Written) (r : Reader A) (f : A → Reader B) (a : A) (b : B)
      → Reads e r a
      → Reads e' (f a) b
      → Reads (e ⊕ e') (r >>= f) b
  Reads-bind (ok x) (ok y) r f a b h k = record {
    at = λ code p rest.
        let q : code ≡ x ++ y = cc in
        rw (q, append_assoc) (rw (h.at x refl (y ++ rest), ◌>>=◌) (k.at y refl rest));
  }
  Reads-bind (ok x) (err y) r f a b h k = record { at = λ code p rest. cc }
  Reads-bind (err x) e' r f a b h k = record { at = λ code p rest. cc }

  -- After the last write the reader goes on with no reading.
  pub Reads-then :
      (e : Written) (r : Reader A) (f : A → Reader B) (a : A) (b : B)
      → Reads e r a
      → ((rest : Bytes) → f a rest ≡ ok (b, rest))
      → Reads e (r >>= f) b
  Reads-then e r f a b h k = record { at = λ code p rest. rw (h.at code p rest, ◌>>=◌) (k rest) }

  pub Reads-lift :
      (c : Codec A) (e : Written) (f : A → Reader B) (a : A) (b : B)
      → c ≡ ok a
      → Reads e (f a) b
      → Reads e (lift c >>= f) b
  Reads-lift c e f a b p h = record { at = λ code q rest. rw p (h.at code q rest) }

-- A check that passed.
pub not_rejected : {E : Type 0} (b : Bool) (e : E) → reject_if b e ≡ ok tt → b ≡ false
not_rejected false e h = refl
not_rejected true e h = cc
