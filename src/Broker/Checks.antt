-- ===== src/Broker/Checks.antt =====
-- The checks on headers, filters and D-Bus names.
use busd.Prelude.{
  ℕ, ◌≡◌, refl, Bool, true, false, ◌&&◌, ◌||◌, not, Option, none, some, List, [], ◌∷◌, leb, ltb,
  ◌==◌, length, all, Result, ok, err, if◌then◌else◌,
}
use busd.Order.{same, bytes_order}
use busd.Map.{get, contains_key}
use busd.Protocol.Types.{
  Bytes, Text, Headers, HeaderValue, text, unsigned, boolean, binary, HeaderFilter, exists,
  not_exists, equal, not_equal, prefix,
}
use busd.Protocol.Bytes.{ascii}
use busd.Protocol.Names.{strip_prefix}
use busd.Strings.{split}
use busd.Broker.Types.{Error, reserved_header, invalid_priority}

-- `starts_with` of texts and of byte slices, the prefix first.
unfoldable pub starts_with : Bytes → Bytes → Bool
unfolding strip_prefix
starts_with p bs = elim (strip_prefix p bs) [ none ↦ false | some rest ↦ true ]

-- `==` of header values.
unfoldable pub value_eq : HeaderValue → HeaderValue → Bool
value_eq (text s) (text t) = same s t
value_eq (unsigned m) (unsigned n) = m == n
value_eq (boolean true) (boolean b) = b
value_eq (boolean false) (boolean b) = not b
value_eq (binary s) (binary t) = same s t
value_eq _ _ = false

-- `headers.get(name) == Some(value)`
unfoldable pub has_value : Option HeaderValue → HeaderValue → Bool
unfolding value_eq
has_value none value = false
has_value (some actual) value = value_eq actual value

unfoldable pub has_prefix : Option HeaderValue → HeaderValue → Bool
unfolding starts_with
has_prefix (some (text actual)) (text p) = starts_with p actual
has_prefix (some (binary actual)) (binary p) = starts_with p actual
has_prefix _ _ = false

unfoldable pub filter_matches : Headers → HeaderFilter → Bool
unfolding has_value has_prefix
filter_matches headers (exists name) = contains_key name headers
filter_matches headers (not_exists name) = not (contains_key name headers)
filter_matches headers (equal name value) = has_value (get name headers) value
filter_matches headers (not_equal name value) = not (has_value (get name headers) value)
filter_matches headers (prefix name value) = has_prefix (get name headers) value

unfoldable pub filters_match : List HeaderFilter → Headers → Bool
unfolding filter_matches
filters_match filters headers = all (filter_matches headers) filters

unfoldable pub is_reserved : Text → Bool
unfolding starts_with
is_reserved name =
    starts_with (ascii "broker.") name
    || starts_with (ascii "peer.") name
    || starts_with (ascii "auth.") name

-- The loop of `validate_message_headers`, and of `validate_claimed_headers`, which makes the same
-- three tests in another order.
unfoldable pub validate_message_headers : Headers → Result Error (Unit {0})
unfolding is_reserved
validate_message_headers [] = ok tt
validate_message_headers ((name, value) ∷ headers) =
    if is_reserved name then err (reserved_header name) else validate_message_headers headers

unfoldable pub is_reserved_claim : Text → Bool
unfolding starts_with
is_reserved_claim name =
    starts_with (ascii "auth.") name
    || starts_with (ascii "broker.") name
    || starts_with (ascii "peer.") name

unfoldable pub validate_claimed_headers : Headers → Result Error (Unit {0})
unfolding is_reserved_claim
validate_claimed_headers [] = ok tt
validate_claimed_headers ((name, value) ∷ headers) =
    if is_reserved_claim name then err (reserved_header name) else validate_claimed_headers headers

priority_of : Option HeaderValue → Result Error ℕ
priority_of none = ok 0
priority_of (some (unsigned n)) = if leb n 7 then ok n else err invalid_priority
priority_of (some _) = err invalid_priority

unfoldable pub message_priority : Headers → Result Error ℕ
unfolding priority_of
message_priority headers = priority_of (get (ascii "priority") headers)

abbrev pub is_ascii_alphabetic : ℕ → Bool
is_ascii_alphabetic c = leb b'a' c && leb c b'z' || leb b'A' c && leb c b'Z'

abbrev pub is_ascii_alphanumeric : ℕ → Bool
is_ascii_alphanumeric c = is_ascii_alphabetic c || leb b'0' c && leb c b'9'

unfoldable pub is_component : Text → Bool
is_component [] = false
is_component (first ∷ rest) =
    (is_ascii_alphabetic first || first == b'_')
    && all (λ c. is_ascii_alphanumeric c || c == b'_') rest

unfoldable pub validate_dbus_name : Text → Bool
unfolding split is_component
validate_dbus_name name =
    not (length name == 0 || ltb 255 (length name)) && all is_component (split b'.' name)

dbus_name_good : validate_dbus_name (ascii "com.example.Service") ≡ true
unfolding validate_dbus_name
dbus_name_good = refl

dbus_name_bad : validate_dbus_name (ascii "-invalid.Name") ≡ false
unfolding validate_dbus_name
dbus_name_bad = refl
