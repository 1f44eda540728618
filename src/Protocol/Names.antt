-- ===== src/Protocol/Names.antt =====
-- Validated names: `validate_name` and the `parse` functions of client identifiers, namespaces and
-- channels.
use busd.Prelude.{
  ℕ, Bool, ◌&&◌, ◌||◌, not, Option, none, some, [], ◌∷◌, leb, ltb, ◌==◌, length, all, Result, ok,
  err, ◌>>◌, if◌then◌else◌,
}
use busd.Protocol.Types.{
  Bytes, Text, NameError, missing_namespace_scheme, invalid, ClientId, Namespace, Channel,
}
use busd.Protocol.Bytes.{ascii}

abbrev pub max_name_length : ℕ
max_name_length = 255

abbrev pub is_ascii_graphic : ℕ → Bool
is_ascii_graphic b = leb 33 b && leb b 126

abbrev pub is_name_byte : ℕ → Bool
is_name_byte b = is_ascii_graphic b && not (b == b'/')

unfoldable pub validate_name : Text → Result NameError (Unit {0})
validate_name value =
    if length value == 0 || ltb max_name_length (length value) || not (all is_name_byte value)
    then err invalid
    else ok tt

unfoldable pub parse_client_id : Text → Result NameError ClientId
parse_client_id value = do validate_name value; ok value

unfoldable pub parse_channel : Text → Result NameError Channel
parse_channel value = do validate_name value; ok value

unfoldable pub strip_prefix : Bytes → Bytes → Option Bytes
strip_prefix [] bs = some bs
strip_prefix (p ∷ ps) [] = none
strip_prefix (p ∷ ps) (b ∷ bs) = if p == b then strip_prefix ps bs else none

abbrev pub scheme : Text
scheme = ascii "bus://"

check_scheme : Text → Option Bytes → Result NameError Namespace
check_scheme value none = err missing_namespace_scheme
check_scheme value (some name) = do validate_name name; ok value

unfoldable pub parse_namespace : Text → Result NameError Namespace
unfolding check_scheme strip_prefix
parse_namespace value = check_scheme value (strip_prefix scheme value)
