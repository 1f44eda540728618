-- ===== src/Strings.antt =====
-- The methods of Rust's `str` that the repository uses, on texts in UTF-8.
use busd.Prelude.{
  ℕ, zero, suc, ◌+◌, ◌*◌, ◌-◌, ◌≡◌, refl, Bool, ◌&&◌, ◌||◌, Option, none, some, List, [], ◌∷◌, ◌++◌,
  leb, ltb, ◌==◌, length, if◌then◌else◌,
}
use busd.Protocol.Types.{Text}
use busd.Protocol.Bytes.{ascii}
pub mod Bounds

-- `split(separator)`: one part more than there are separators.
abbrev pub prepend : ℕ → List Text → List Text
prepend c [] = (c ∷ []) ∷ []
prepend c (part ∷ rest) = (c ∷ part) ∷ rest

unfoldable pub split : ℕ → Text → List Text
split separator [] = [] ∷ []
split separator (c ∷ cs) =
    let rest = split separator cs in if c == separator then [] ∷ rest else prepend c rest

abbrev pub cons_first : ℕ → Option (Text × Text) → Option (Text × Text)
cons_first c none = none
cons_first c (some (before, after)) = some (c ∷ before, after)

-- `split_once(separator)`
unfoldable pub split_once : ℕ → Text → Option (Text × Text)
split_once separator [] = none
split_once separator (c ∷ cs) =
    let rest = split_once separator cs in
    if c == separator then some ([], cs) else cons_first c rest

-- The characters of White_Space, by their bytes.
abbrev pub is_space1 : ℕ → Bool
is_space1 a = (leb 9 a && leb a 13) || a == 32

abbrev pub is_space2 : ℕ → ℕ → Bool
is_space2 a b = a == 0xc2 && (b == 0x85 || b == 0xa0)

abbrev pub is_space3 : ℕ → ℕ → ℕ → Bool
is_space3 a b c =
    (a == 0xe1 && b == 0x9a && c == 0x80)
    || (a == 0xe2 && b == 0x80 && (leb 0x80 c && leb c 0x8a || c == 0xa8 || c == 0xa9 || c == 0xaf))
    || (a == 0xe2 && b == 0x81 && c == 0x9f)
    || (a == 0xe3 && b == 0x80 && c == 0x80)

-- The rest after one leading white space, if there is one.
unfoldable pub strip_space : Text → Option Text
strip_space [] = none
strip_space (a ∷ []) = if is_space1 a then some [] else none
strip_space (a ∷ b ∷ []) =
    if is_space1 a then some (b ∷ []) else if is_space2 a b then some [] else none
strip_space (a ∷ b ∷ c ∷ s) =
    if is_space1 a
    then some (b ∷ c ∷ s)
    else if is_space2 a b
    then some (c ∷ s)
    else if is_space3 a b c
    then some s
    else none

-- `strip_space` of a text that is written backwards.
unfoldable pub strip_last : Text → Option Text
strip_last [] = none
strip_last (a ∷ []) = if is_space1 a then some [] else none
strip_last (a ∷ b ∷ []) =
    if is_space1 a then some (b ∷ []) else if is_space2 b a then some [] else none
strip_last (a ∷ b ∷ c ∷ s) =
    if is_space1 a
    then some (b ∷ c ∷ s)
    else if is_space2 b a
    then some (c ∷ s)
    else if is_space3 c b a
    then some s
    else none

-- As many as `fuel` times.
unfoldable pub strip_all : (Text → Option Text) → ℕ → Text → Text
strip_all strip zero t = t
strip_all strip (suc fuel) t = elim (strip t) [ none ↦ t | some rest ↦ strip_all strip fuel rest ]

unfoldable pub backwards : Text → Text
backwards [] = []
backwards (c ∷ cs) = backwards cs ++ c ∷ []

-- `trim()`; a text of n bytes has at most n characters.
unfoldable pub trim : Text → Text
unfolding strip_all backwards
trim t =
    let start = strip_all strip_space (length t) t in
    backwards (strip_all strip_last (length start) (backwards start))

-- The `\r` in front of a `\n`.
abbrev pub drop_return : Text → Text
drop_return [] = []
drop_return (c ∷ []) = if c == 13 then [] else c ∷ []
drop_return (c ∷ d ∷ cs) = c ∷ drop_return (d ∷ cs)

-- All parts but the last end with `\n`; an empty last part is no line.
abbrev pub ended : List Text → List Text
ended [] = []
ended ([] ∷ []) = []
ended ((c ∷ cs) ∷ []) = (c ∷ cs) ∷ []
ended (part ∷ next ∷ rest) = drop_return part ∷ ended (next ∷ rest)

-- `lines()`
unfoldable pub lines : Text → List Text
unfolding split
lines t = ended (split 10 t)

abbrev pub is_digit : ℕ → Bool
is_digit c = leb 48 c && leb c 57

-- The number that the digits continue from `n`, while it is below the bound.
unfoldable pub parse_digits : ℕ → ℕ → Text → Option ℕ
parse_digits bound n [] = some n
parse_digits bound n (c ∷ cs) =
    let next = n * 10 + (c - 48) in
    let rest = parse_digits bound next cs in if is_digit c && ltb next bound then rest else none

abbrev pub some_digits : ℕ → Text → Option ℕ
some_digits bound [] = none
some_digits bound (c ∷ cs) = parse_digits bound 0 (c ∷ cs)

-- `parse()` to an unsigned integer below the bound: digits, after one `+` or none.
unfoldable pub parse_unsigned : ℕ → Text → Option ℕ
unfolding parse_digits
parse_unsigned bound [] = none
parse_unsigned bound (c ∷ cs) = if c == 43 then some_digits bound cs else some_digits bound (c ∷ cs)

trim_test : trim (ascii "  a b\t") ≡ ascii "a b"
unfolding trim strip_space strip_last
trim_test = refl

lines_test : lines (ascii "a\n\nb\n") ≡ ascii "a" ∷ [] ∷ ascii "b" ∷ []
unfolding lines
lines_test = refl

parse_unsigned_test : parse_unsigned 256 (ascii "+255") ≡ some 255
unfolding parse_unsigned
parse_unsigned_test = refl

parse_unsigned_over : parse_unsigned 256 (ascii "256") ≡ none
unfolding parse_unsigned
parse_unsigned_over = refl
