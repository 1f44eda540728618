-- ===== src/Protocol/Reader.antt =====
-- The `Reader` of the decoder. Its state is the bytes from its position on, so `take` drops what it
-- returns; the end of the input is the empty list.
use busd.Prelude.{
  ℕ, zero, suc, ◌-◌, Bool, true, false, ◌||◌, Option, none, some, List, [], ◌∷◌, ◌++◌, ltb, ◌==◌,
  length, take, drop, Result, ok, err, reject_if, if◌then◌else◌, Ordering,
}
use busd.Order.{compare_bytes, bytes_order}
use busd.Map.{insert, set_insert}
use busd.Protocol.Types.{
  Bytes, Text, ClientId, Namespace, Channel, Headers, Capabilities, HeaderValue, text, unsigned,
  boolean, binary, AckRequirement, RetryPolicy, Destination, HeaderFilter, exists, not_exists,
  equal, not_equal, prefix, FrameLimits, NameError, truncated, invalid_utf8, limit_exceeded,
  invalid_value, non_canonical, invalid_name, MessageId,
}
use busd.Protocol.Bytes.{from_be, is_utf8}
use busd.Protocol.Names.{validate_name, parse_client_id, parse_channel, parse_namespace}
use busd.Protocol.Tags.{Codec, decode_client_selection}

abbrev pub Reader {ℓ} : Type ℓ → Type ℓ
Reader A = Bytes → Codec (A × Bytes)

module _ {ℓ κ} {A : Type ℓ} {B : Type κ} where
  infixl 5 ◌>>=◌
  abbrev pub ◌>>=◌ : Reader A → (A → Reader B) → Reader B
  ◌>>=◌ m f bs = elim (m bs) [ ok (a, rest) ↦ f a rest | err e ↦ err e ]

module _ {ℓ} {B : Type ℓ} where
  infixl 5 ◌>>◌
  abbrev pub ◌>>◌ : Reader (Unit {0}) → Reader B → Reader B
  m >> k = m >>= λ _. k

module _ {ℓ} {A : Type ℓ} where
  abbrev pub pure : A → Reader A
  pure a bs = ok (a, bs)

  -- A result computed with no reading.
  abbrev pub lift : Codec A → Reader A
  lift (ok a) bs = ok (a, bs)
  lift (err e) bs = err e

  -- `map_err(CodecError::InvalidName)?`
  abbrev pub named : Result NameError A → Reader A
  named (ok a) bs = ok (a, bs)
  named (err e) bs = err (invalid_name e)

unfoldable pub take_bytes : ℕ → Reader Bytes
take_bytes n bs = if ltb (length bs) n then err truncated else ok (take n bs, drop n bs)

-- `self.take(1)?[0]`
unfoldable pub read_u8 : Reader ℕ
read_u8 [] = err truncated
read_u8 (b ∷ bs) = ok (b, bs)

unfoldable pub read_u16 : Reader ℕ
read_u16 = do value ← take_bytes 2; pure (from_be 0 value)

unfoldable pub read_u32 : Reader ℕ
read_u32 = do value ← take_bytes 4; pure (from_be 0 value)

unfoldable pub read_u64 : Reader ℕ
read_u64 = do value ← take_bytes 8; pure (from_be 0 value)

unfoldable pub read_array_16 : Reader MessageId
read_array_16 = take_bytes 16

unfoldable pub read_text : Reader Text
read_text = do
  n ← read_u16
  value ← take_bytes n
  lift (if is_utf8 value then ok value else err invalid_utf8)

unfoldable pub read_name : Reader Text
read_name = do value ← read_text; named (validate_name value); pure value

unfoldable pub read_namespace : Reader Namespace
read_namespace = do value ← read_text; named (parse_namespace value)

unfoldable pub read_binary : Reader Bytes
read_binary = do n ← read_u32; take_bytes n

read_boolean : Reader HeaderValue
read_boolean = do
  b ← read_u8
  if b == 0
      then pure (boolean false)
      else if b == 1
      then pure (boolean true)
      else lift (err (invalid_value "boolean"))

unfoldable pub read_value : Reader HeaderValue
unfolding read_boolean
read_value = do
  tag ← read_u8
  if tag == 0
      then (do value ← read_text; pure (text value))
      else if tag == 1
      then (do value ← read_u64; pure (unsigned value))
      else if tag == 2
      then read_boolean
      else if tag == 3
      then (do value ← read_binary; pure (binary value))
      else lift (err (invalid_value "header value tag"))

-- `previous.is_some_and(|value| key <= value)`
abbrev pub not_after : Option Bytes → Bytes → Bool
not_after none key = false
not_after (some value) key = elim (compare_bytes key value) [ Ordering.gt ↦ false | _ ↦ true ]

-- The loop of `headers`, with `count` rounds left.
unfoldable pub read_entries : ℕ → Option Text → Headers → Reader Headers
read_entries zero previous headers = pure headers
read_entries (suc count) previous headers = do
  name ← read_name
  lift (reject_if (not_after previous name) (non_canonical "headers"))
  value ← read_value
  read_entries count (some name) (insert name value headers)

unfoldable pub read_headers : FrameLimits → Reader Headers
read_headers limits = do
  count ← read_u16
  lift (reject_if (ltb limits.maximum_headers count) (limit_exceeded "header count"))
  read_entries count none []

unfoldable pub read_names : ℕ → Option Text → Capabilities → Reader Capabilities
read_names zero previous capabilities = pure capabilities
read_names (suc count) previous capabilities = do
  capability ← read_name
  lift (reject_if (not_after previous capability) (non_canonical "capabilities"))
  read_names count (some capability) (set_insert capability capabilities)

unfoldable pub read_capabilities : FrameLimits → Reader Capabilities
read_capabilities limits = do
  count ← read_u16
  lift (reject_if (ltb limits.maximum_capabilities count) (limit_exceeded "capability count"))
  read_names count none []

-- The constructor that a filter tag selects, after the name.
filter_of : ℕ → Text → Reader HeaderFilter
filter_of tag name =
    if tag == 0
    then pure (exists name)
    else if tag == 1
    then pure (not_exists name)
    else if tag == 2
    then (do value ← read_value; pure (equal name value))
    else if tag == 3
    then (do value ← read_value; pure (not_equal name value))
    else if tag == 4
    then (do value ← read_value; pure (prefix name value))
    else lift (err (invalid_value "filter tag"))

unfoldable pub read_filter : Reader HeaderFilter
unfolding filter_of
read_filter = do tag ← read_u8; name ← read_name; filter_of tag name

-- `self.bytes` from the position on.
abbrev pub remaining : Reader Bytes
remaining bs = ok (bs, bs)

-- The filter's bytes are those from `start` up to the position after it.
unfoldable pub read_filters_loop : ℕ → Option Bytes → List HeaderFilter → Reader (List HeaderFilter)
read_filters_loop zero previous filters = pure filters
read_filters_loop (suc count) previous filters = do
  start ← remaining
  filter ← read_filter
  after ← remaining
  let encoded = take (length start - length after) start
  lift (reject_if (not_after previous encoded) (non_canonical "filters"))
  read_filters_loop count (some encoded) (filters ++ filter ∷ [])

unfoldable pub read_filters : FrameLimits → Reader (List HeaderFilter)
read_filters limits = do
  count ← read_u16
  lift (reject_if (ltb limits.maximum_filters count) (limit_exceeded "filter count"))
  read_filters_loop count none []

unfoldable pub read_ack_requirement : Reader AckRequirement
read_ack_requirement = do
  tag ← read_u8
  if tag == 0
      then pure AckRequirement.none
      else if tag == 1
      then pure AckRequirement.any_of
      else if tag == 2
      then pure AckRequirement.all_of
      else if tag == 3
      then (do
        n ← read_u16
        lift (
            if n == 0
            then err (invalid_value "acknowledgement minimum")
            else ok (AckRequirement.minimum n)))
      else lift (err (invalid_value "acknowledgement requirement"))

unfoldable pub read_retry_policy : Reader RetryPolicy
read_retry_policy = do
  tag ← read_u8
  if tag == 0
      then pure RetryPolicy.none
      else if tag == 1
      then (do
        initial_backoff_ms ← read_u32
        max_attempts ← read_u8
        lift (
            if initial_backoff_ms == 0 || ltb max_attempts 2
            then err (invalid_value "retry policy")
            else ok (RetryPolicy.exponential initial_backoff_ms max_attempts)))
      else lift (err (invalid_value "retry policy"))

unfoldable pub read_peer_id : Reader ℕ
read_peer_id = do id ← read_u64; lift (reject_if (id == 0) (invalid_value "peer ID")); pure id

-- `Channel::parse(self.name()?)` and `ClientId::parse(self.name()?)`
unfoldable pub read_channel : Reader Channel
read_channel = do name ← read_name; named (parse_channel name)

unfoldable pub read_client_id : Reader ClientId
read_client_id = do name ← read_name; named (parse_client_id name)

unfoldable pub read_destination : Reader Destination
read_destination = do
  tag ← read_u8
  if tag == 0
      then pure Destination.broker
      else if tag == 1
      then (do id ← read_peer_id; pure (Destination.peer id))
      else if tag == 2
      then (do name ← read_namespace; pure (Destination.namespace name))
      else if tag == 3
      then (do name ← read_channel; pure (Destination.channel name))
      else if tag == 4
      then pure Destination.broadcast
      else if tag == 5
      then (do
        name ← read_client_id
        tag' ← read_u8
        selection ← lift (decode_client_selection tag')
        pure (Destination.client_id name selection))
      else lift (err (invalid_value "destination selector"))
