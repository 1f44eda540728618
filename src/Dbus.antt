-- ===== src/Dbus.antt =====
-- crates/bus-transport-dbus/src/lib.rs: the names of D-Bus.
use busd.Prelude.{
  ℕ, Bool, false, not, ◌&&◌, ◌||◌, ◌≡◌, refl, [], ◌∷◌, ltb, ◌==◌, length, any, Result, ok, err,
  reject_if, ◌>>◌,
}
use busd.Protocol.Types.{Text}
use busd.Protocol.Bytes.{ascii}
use busd.Strings.{split, backwards}

pub data NameError : Type 0 where
  invalid : NameError

-- `is_ascii_alphanumeric() || byte == b'_'`
abbrev pub is_name_byte : ℕ → Bool
is_name_byte c =
    (not (ltb c 48) && ltb c 58)
    || (not (ltb c 65) && ltb c 91)
    || (not (ltb c 97) && ltb c 123)
    || c == 95

abbrev pub is_bad_component : Text → Bool
is_bad_component component = length component == 0 || any (λ c. not (is_name_byte c)) component

abbrev starts_with_dot : Text → Bool
starts_with_dot [] = false
starts_with_dot (c ∷ t) = c == b'.'

unfoldable pub validate_name : Text → Result NameError (Unit {0})
unfolding split backwards
validate_name value = do
  reject_if
      (length value == 0
        || ltb 255 (length value)
        || starts_with_dot value
        || starts_with_dot (backwards value))
      NameError.invalid
  reject_if (any is_bad_component (split b'.' value)) NameError.invalid

-- `Name::parse`; a `Name` is its text.
unfoldable pub parse_name : Text → Result NameError Text
unfolding validate_name
parse_name value = do validate_name value; ok value

dotted_test : parse_name (ascii "org.freedesktop.systemd1") ≡ ok (ascii "org.freedesktop.systemd1")
unfolding parse_name
dotted_test = refl

empty_component_test : parse_name (ascii "example..Service") ≡ err NameError.invalid
unfolding parse_name
empty_component_test = refl

dash_test : parse_name (ascii "-example.Service") ≡ err NameError.invalid
unfolding parse_name
dash_test = refl
