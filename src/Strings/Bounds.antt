-- ===== src/Strings/Bounds.antt =====
-- The numbers that `parse` gives.
use busd.Prelude.{
  arith, ℕ, ◌+◌, ◌*◌, ◌-◌, ◌<◌, ◌≡◌, ◌&&◌, Bool-cases, inl, inr, some, [], ◌∷◌, ltb, ◌==◌,
}
use busd.Protocol.Types.{Text}
use busd.Strings.{parse_unsigned, parse_digits, some_digits, is_digit}

parse_digits_below :
    (bound n : ℕ) → (t : Text) → (m : ℕ) → n < bound → parse_digits bound n t ≡ some m → m < bound
unfolding parse_digits
parse_digits_below bound n [] m h e = ground arith
parse_digits_below bound n (c ∷ cs) m h e =
    elim (Bool-cases (is_digit c && ltb (n * 10 + (c - 48)) bound)) [
      | inl t ↦ parse_digits_below bound (n * 10 + (c - 48)) cs m (ground arith) (rw t at e)
      | inr t ↦ absurd (cc)
    ]

some_digits_below :
    (bound : ℕ) → (t : Text) → (m : ℕ) → 0 < bound → some_digits bound t ≡ some m → m < bound
some_digits_below bound [] m h e = cc
some_digits_below bound (c ∷ cs) m h e = parse_digits_below bound 0 (c ∷ cs) m h e

pub parse_unsigned_below :
    (bound : ℕ) → (t : Text) → (m : ℕ) → 0 < bound → parse_unsigned bound t ≡ some m → m < bound
unfolding parse_unsigned
parse_unsigned_below bound [] m h e = cc
parse_unsigned_below bound (c ∷ cs) m h e = elim (Bool-cases (c == 43)) [
  | inl t ↦ some_digits_below bound cs m h (rw t at e)
  | inr t ↦ some_digits_below bound (c ∷ cs) m h (rw t at e)
]
