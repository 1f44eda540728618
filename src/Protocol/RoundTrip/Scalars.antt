-- ===== src/Protocol/RoundTrip/Scalars.antt =====
-- Integers, texts and names.
use native.Mathlib.Nat.{pow-suc}
use busd.Prelude.{
  ℕ, zero, suc, ◌+◌, ◌*◌, ◌/◌, ◌%◌, ◌^◌, ◌<◌, ◌≡◌, refl, true, [], ◌∷◌, ◌++◌, ok, arith, length,
  length-append, take-append, drop-append, String,
}
use busd.Protocol.Types.{Bytes, Text}
use busd.Protocol.Bytes.{to_be, from_be, is_utf8}
use busd.Protocol.Writer.{
  push_u8, push_u16, push_u32, push_u64, push_length16, push_length32, push_text, push_binary,
}
use busd.Protocol.Reader.{
  pure, take_bytes, read_u8, read_u16, read_u32, read_u64, read_text, read_binary,
}
use busd.Protocol.RoundTrip.Rules.{Reads, Reads-bind, Reads-then}

pub length-to_be : (k v : ℕ) → length (to_be k v) ≡ k
unfolding to_be
length-to_be zero v = refl
length-to_be (suc k) v =
    omega (arith, length-append (to_be k (v / 256)) ((v % 256) ∷ []), length-to_be k (v / 256))

from_be-append : (acc : ℕ) (xs ys : Bytes) → from_be acc (xs ++ ys) ≡ from_be (from_be acc xs) ys
unfolding from_be
from_be-append acc [] ys = refl
from_be-append acc (x ∷ xs) ys = from_be-append (acc * 256 + x) xs ys

pub from_be-to_be : (k v : ℕ) → v < 256 ^ k → from_be 0 (to_be k v) ≡ v
unfolding from_be to_be
from_be-to_be zero v h = omega arith
from_be-to_be (suc k) v h =
    rw (from_be-append 0 (to_be k (v / 256)) ((v % 256) ∷ []))
      (rw (from_be-to_be k (v / 256) (omega (arith, pow-suc 256 k))) (omega arith))

pub take_bytes-append : (xs rest : Bytes) → take_bytes (length xs) (xs ++ rest) ≡ ok (xs, rest)
unfolding take_bytes
take_bytes-append xs rest =
    ground (arith, length-append xs rest, take-append xs rest, drop-append xs rest)

pub take_bytes-Reads : (n : ℕ) (xs : Bytes) → length xs ≡ n → Reads (ok xs) (take_bytes n) xs
take_bytes-Reads n xs h = record {
  at = λ code p rest. let q : code ≡ xs = cc in rw (q, ← h) (take_bytes-append xs rest);
}

pub u8-Reads : (b : ℕ) → Reads (push_u8 b) read_u8 b
unfolding push_u8 read_u8
u8-Reads b = record { at = λ code p rest. ground arith }

pub u16-Reads : (v : ℕ) → v < 65536 → Reads (push_u16 v) read_u16 v
unfolding push_u16 read_u16
u16-Reads v h =
    Reads-then (ok (to_be 2 v)) (take_bytes 2) (λ bs. pure (from_be 0 bs)) (to_be 2 v) v
      (take_bytes-Reads 2 (to_be 2 v) (length-to_be 2 v)) (λ rest. rw (from_be-to_be 2 v h))

pub u32-Reads : (v : ℕ) → v < 4294967296 → Reads (push_u32 v) read_u32 v
unfolding push_u32 read_u32
u32-Reads v h =
    Reads-then (ok (to_be 4 v)) (take_bytes 4) (λ bs. pure (from_be 0 bs)) (to_be 4 v) v
      (take_bytes-Reads 4 (to_be 4 v) (length-to_be 4 v)) (λ rest. rw (from_be-to_be 4 v h))

pub u64-Reads : (v : ℕ) → v < 2 ^ 64 → Reads (push_u64 v) read_u64 v
unfolding push_u64 read_u64
u64-Reads v h =
    Reads-then (ok (to_be 8 v)) (take_bytes 8) (λ bs. pure (from_be 0 bs)) (to_be 8 v) v
      (take_bytes-Reads 8 (to_be 8 v) (length-to_be 8 v)) (λ rest. rw (from_be-to_be 8 v h))

-- A length that was written passed the bound of its width.
pub length16-Reads : (n : ℕ) (what : String) → Reads (push_length16 n what) read_u16 n
unfolding push_length16
length16-Reads n what = record {
  at = λ code p rest. ground (arith, (u16-Reads n (ground arith)).at code (ground arith) rest);
}

pub length32-Reads : (n : ℕ) (what : String) → Reads (push_length32 n what) read_u32 n
unfolding push_length32
length32-Reads n what = record {
  at = λ code p rest. ground (arith, (u32-Reads n (ground arith)).at code (ground arith) rest);
}

pub text-Reads : (t : Text) → is_utf8 t ≡ true → Reads (push_text t) read_text t
unfolding push_text read_text
text-Reads t h =
    Reads-bind (push_length16 (length t) "text length") (ok t) read_u16 _ (length t) t
      (length16-Reads (length t) "text length")
      (Reads-then (ok t) (take_bytes (length t)) _ t t (take_bytes-Reads (length t) t refl)
        (λ rest. rw h))

pub binary-Reads : (bs : Bytes) → Reads (push_binary bs) read_binary bs
unfolding push_binary read_binary
binary-Reads bs =
    Reads-bind (push_length32 (length bs) "binary length") (ok bs) read_u32 _ (length bs) bs
      (length32-Reads (length bs) "binary length") (take_bytes-Reads (length bs) bs refl)
