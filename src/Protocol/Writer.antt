-- ===== src/Protocol/Writer.antt =====
-- The `push_*` functions. Each returns the bytes that it appends to its output; after an error the
-- caller discards the output.
use busd.Prelude.{
  ℕ, Bool, true, false, ◌&&◌, ◌||◌, not, List, [], ◌∷◌, ◌++◌, leb, ltb, ◌==◌, length, ok, err,
  ◌>>=◌, reject_if, if◌then◌else◌, String, Ordering,
}
use busd.Order.{compare_bytes}
use busd.Protocol.Types.{
  Bytes, Text, Namespace, Headers, Capabilities, HeaderValue, text, unsigned, boolean, binary,
  AckRequirement, RetryPolicy, Destination, HeaderFilter, exists, not_exists, equal, not_equal,
  prefix, FrameLimits, limit_exceeded, invalid_value, non_canonical, invalid_name,
}
use busd.Protocol.Bytes.{to_be}
use busd.Protocol.Names.{validate_name}
use busd.Protocol.Tags.{Codec, client_selection_tag}

abbrev pub Written : Type 0
Written = Codec Bytes

-- One write after another.
infixr 60 ◌⊕◌
abbrev pub ◌⊕◌ : Written → Written → Written
ok a ⊕ ok b = ok (a ++ b)
ok a ⊕ err e = err e
err e ⊕ w = err e

-- A check before a write.
abbrev pub checked : Codec (Unit {0}) → Written → Written
checked (ok u) w = w
checked (err e) w = err e

unfoldable pub push_u8 : ℕ → Written
push_u8 value = ok (value ∷ [])

unfoldable pub push_u16 : ℕ → Written
push_u16 value = ok (to_be 2 value)

unfoldable pub push_u32 : ℕ → Written
push_u32 value = ok (to_be 4 value)

unfoldable pub push_u64 : ℕ → Written
push_u64 value = ok (to_be 8 value)

-- `u16::try_from(length)`, the length as two bytes.
unfoldable pub push_length16 : ℕ → String → Written
push_length16 n what = if ltb 65535 n then err (limit_exceeded what) else push_u16 n

unfoldable pub push_length32 : ℕ → String → Written
push_length32 n what = if ltb 4294967295 n then err (limit_exceeded what) else push_u32 n

unfoldable pub push_text : Text → Written
push_text value = push_length16 (length value) "text length" ⊕ ok value

-- `validate_name(value).map_err(CodecError::InvalidName)`
unfoldable pub checked_name : Text → Codec (Unit {0})
checked_name value = elim (validate_name value) [ ok u ↦ ok u | err e ↦ err (invalid_name e) ]

unfoldable pub push_name : Text → Written
push_name value = checked (checked_name value) (push_text value)

unfoldable pub push_namespace : Namespace → Written
push_namespace value = push_text value

unfoldable pub push_binary : Bytes → Written
push_binary value = push_length32 (length value) "binary length" ⊕ ok value

unfoldable pub push_ack_requirement : AckRequirement → Written
push_ack_requirement AckRequirement.none = push_u8 0
push_ack_requirement AckRequirement.any_of = push_u8 1
push_ack_requirement AckRequirement.all_of = push_u8 2
push_ack_requirement (AckRequirement.minimum n) =
    if not (n == 0) then push_u8 3 ⊕ push_u16 n else err (invalid_value "acknowledgement minimum")

unfoldable pub push_retry_policy : RetryPolicy → Written
push_retry_policy RetryPolicy.none = push_u8 0
push_retry_policy (RetryPolicy.exponential initial_backoff_ms max_attempts) =
    if not (initial_backoff_ms == 0) && leb 2 max_attempts
    then push_u8 1 ⊕ push_u32 initial_backoff_ms ⊕ push_u8 max_attempts
    else err (invalid_value "retry policy")

-- `u8::from(bool)`
abbrev pub bool_byte : Bool → ℕ
bool_byte false = 0
bool_byte true = 1

unfoldable pub push_value : HeaderValue → Written
push_value (text value) = push_u8 0 ⊕ push_text value
push_value (unsigned value) = push_u8 1 ⊕ push_u64 value
push_value (boolean value) = push_u8 2 ⊕ push_u8 (bool_byte value)
push_value (binary value) = push_u8 3 ⊕ push_binary value

-- The loop of `push_headers`.
unfoldable pub push_entries : Headers → Written
push_entries [] = ok []
push_entries ((name, value) ∷ headers) = push_name name ⊕ push_value value ⊕ push_entries headers

unfoldable pub push_headers : Headers → FrameLimits → Written
push_headers headers limits =
    checked
      (reject_if (ltb limits.maximum_headers (length headers)) (limit_exceeded "header count"))
      (push_length16 (length headers) "header count" ⊕ push_entries headers)

unfoldable pub push_names : Capabilities → Written
push_names [] = ok []
push_names (capability ∷ capabilities) = push_name capability ⊕ push_names capabilities

unfoldable pub push_capabilities : Capabilities → FrameLimits → Written
push_capabilities capabilities limits =
    checked
      (reject_if (ltb limits.maximum_capabilities (length capabilities))
        (limit_exceeded "capability count"))
      (push_length16 (length capabilities) "capability count" ⊕ push_names capabilities)

unfoldable pub push_filter : HeaderFilter → Written
push_filter (exists name) = push_u8 0 ⊕ push_name name
push_filter (not_exists name) = push_u8 1 ⊕ push_name name
push_filter (equal name header) = push_u8 2 ⊕ push_name name ⊕ push_value header
push_filter (not_equal name header) = push_u8 3 ⊕ push_name name ⊕ push_value header
push_filter (prefix name header) = push_u8 4 ⊕ push_name name ⊕ push_value header

-- The encodings of the filters, one by one.
unfoldable pub encode_filters : List HeaderFilter → Codec (List Bytes)
encode_filters [] = ok []
encode_filters (filter ∷ filters) = do
  value ← push_filter filter
  encoded ← encode_filters filters
  ok (value ∷ encoded)

-- `encoded.windows(2).any(|pair| pair[0] >= pair[1])`
unfoldable pub any_descent : List Bytes → Bool
any_descent [] = false
any_descent (a ∷ []) = false
any_descent (a ∷ b ∷ rest) =
    elim (compare_bytes a b) [ Ordering.lt ↦ false | _ ↦ true ] || any_descent (b ∷ rest)

abbrev pub concat : List Bytes → Bytes
concat [] = []
concat (a ∷ rest) = a ++ concat rest

unfoldable pub push_encoded : List Bytes → Written
push_encoded encoded =
    checked (reject_if (any_descent encoded) (non_canonical "filters"))
      (push_length16 (length encoded) "filter count" ⊕ ok (concat encoded))

unfoldable pub push_filters : List HeaderFilter → FrameLimits → Written
push_filters filters limits =
    checked
      (reject_if (ltb limits.maximum_filters (length filters)) (limit_exceeded "filter count"))
      (encode_filters filters >>= push_encoded)

unfoldable pub push_destination : Destination → Written
push_destination Destination.broker = push_u8 0
push_destination (Destination.peer id) =
    checked (reject_if (id == 0) (invalid_value "peer ID")) (push_u8 1 ⊕ push_u64 id)
push_destination (Destination.namespace name) = push_u8 2 ⊕ push_namespace name
push_destination (Destination.channel name) = push_u8 3 ⊕ push_name name
push_destination Destination.broadcast = push_u8 4
push_destination (Destination.client_id name selection) =
    push_u8 5 ⊕ push_name name ⊕ push_u8 (client_selection_tag selection)
