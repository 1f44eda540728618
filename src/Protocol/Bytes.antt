-- ===== src/Protocol/Bytes.antt =====
-- Integers in big-endian bytes (`to_be_bytes`, `from_be_bytes`), byte literals, and the test of
-- `str::from_utf8`.
use Prim.Native.Char.{code}
use busd.Prelude.{
  ℕ, zero, suc, ◌+◌, ◌*◌, ◌/◌, ◌%◌, Bool, true, false, ◌&&◌, Option, none, some, [], ◌∷◌, ◌++◌, leb,
  ltb, ◌==◌, ◌<◌, ◌≡◌, refl, All, arith, if◌then◌else◌, String,
}
use busd.Protocol.Types.{Bytes}

-- The bytes of an ASCII literal.
abbrev pub ascii : String → Bytes
ascii String.[] = []
ascii (String.◌∷◌ c s) = code c ∷ ascii s

-- The `k` low bytes of `v`, the highest first.
unfoldable pub to_be : ℕ → ℕ → Bytes
to_be zero v = []
to_be (suc k) v = to_be k (v / 256) ++ (v % 256) ∷ []

unfoldable pub from_be : ℕ → Bytes → ℕ
from_be acc [] = acc
from_be acc (b ∷ bs) = from_be (acc * 256 + b) bs

-- How many continuation bytes a sequence still wants, and the range of the next one.
pub record Pending : Type 0 where
  pub left : ℕ
  pub low : ℕ
  pub high : ℕ

abbrev start : Pending
start = record { left = 0; low = 0; high = 0 }

abbrev within : ℕ → ℕ → ℕ → Bool
within lo hi b = leb lo b && leb b hi

-- A first byte.
utf8_lead : ℕ → Option Pending
utf8_lead b =
    if ltb b 0x80
    then some start
    else if within 0xc2 0xdf b
    then some (record { left = 1; low = 0x80; high = 0xbf })
    else if b == 0xe0
    then some (record { left = 2; low = 0xa0; high = 0xbf })
    else if b == 0xed
    then some (record { left = 2; low = 0x80; high = 0x9f })
    else if within 0xe1 0xef b
    then some (record { left = 2; low = 0x80; high = 0xbf })
    else if b == 0xf0
    then some (record { left = 3; low = 0x90; high = 0xbf })
    else if within 0xf1 0xf3 b
    then some (record { left = 3; low = 0x80; high = 0xbf })
    else if b == 0xf4
    then some (record { left = 3; low = 0x80; high = 0x8f })
    else none

-- Any byte, after the state `p`.
utf8_step : Pending → ℕ → Option Pending
unfolding utf8_lead
utf8_step p b = elim p.left [
  | zero ↦ utf8_lead b
  | suc left ↦
      if within p.low p.high b then some (record { left = left; low = 0x80; high = 0xbf }) else none
]

utf8_run : Option Pending → Bytes → Bool
unfolding utf8_step
utf8_run none bs = false
utf8_run (some p) [] = p.left == 0
utf8_run (some p) (b ∷ bs) = utf8_run (utf8_step p b) bs

unfoldable pub is_utf8 : Bytes → Bool
unfolding utf8_run
is_utf8 bs = utf8_run (some start) bs

-- ASCII text is UTF-8.
pub is_utf8-ascii : (bs : Bytes) → All (λ b. b < 128) bs → is_utf8 bs ≡ true
unfolding is_utf8
is_utf8-ascii [] h = refl
is_utf8-ascii (b ∷ bs) h = ground (arith, is_utf8-ascii bs h.1)
