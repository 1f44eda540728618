-- ===== src/Protocol/Decode.antt =====
-- The `decode_*` functions and `decode_with_limits` of `Frame`.
use busd.Prelude.{
  ℕ, ◌+◌, ◌^◌, ◌-◌, not, Option, none, some, [], ◌∷◌, ltb, ◌==◌, length, take, drop, ok, err,
  if◌then◌else◌,
}
use busd.Order.{same, bytes_order}
use busd.Protocol.Types.{
  Bytes, PeerId, ClientId, Message, Frame, hello, welcome, message, acknowledge, delivery_result,
  protocol_error, control_result, resolve_namespace, namespace_resolved, FrameLimits, truncated,
  invalid_magic, unsupported_version, unknown_frame_kind, reserved_flags, length_mismatch,
  frame_too_large, invalid_value, non_canonical,
}
use busd.Protocol.Bytes.{from_be}
use busd.Protocol.Tags.{
  Codec, decode_message_kind, decode_ack_policy, decode_request_policy, decode_delivery_outcome,
  decode_status, decode_protocol_error_code, decode_control_operation,
}
use busd.Protocol.Encode.{
  magic, version, header_size, acknowledgement_check, message_id_check, message_check,
}
use busd.Protocol.Reader.{
  Reader, ◌>>=◌, ◌>>◌, pure, lift, read_u8, read_u32, read_array_16, read_text, read_namespace,
  read_binary, read_headers, read_capabilities, read_filters, read_ack_requirement,
  read_retry_policy, read_peer_id, read_channel, read_client_id, read_destination,
}

unfoldable pub read_hello_client : Reader (Option ClientId)
read_hello_client = do
  tag ← read_u8
  if tag == 0
      then pure none
      else if tag == 1
      then (do id ← read_client_id; pure (some id))
      else lift (err (invalid_value "HELLO client ID marker"))

unfoldable pub decode_hello : FrameLimits → Reader Frame
decode_hello limits = do
  id ← read_hello_client
  headers ← read_headers limits
  capabilities ← read_capabilities limits
  pure (hello id headers capabilities)

unfoldable pub decode_welcome : FrameLimits → Reader Frame
decode_welcome limits = do
  id ← read_peer_id
  capabilities ← read_capabilities limits
  pure (welcome id capabilities)

unfoldable pub decode_claim : FrameLimits → Reader Frame
decode_claim limits = do
  name ← read_namespace
  headers ← read_headers limits
  pure (Frame.claim name headers)

unfoldable pub decode_subscribe : FrameLimits → Reader Frame
decode_subscribe limits = do
  channel ← read_channel
  filters ← read_filters limits
  pure (Frame.subscribe channel filters)

unfoldable pub decode_unsubscribe : Reader Frame
decode_unsubscribe = do channel ← read_channel; pure (Frame.unsubscribe channel)

-- What the checks look at is read first, the headers and the payload after them.
unfoldable pub decode_message : FrameLimits → Reader Frame
decode_message limits = do
  kind_tag ← read_u8
  kind ← lift (decode_message_kind kind_tag)
  ack_tag ← read_u8
  ack_policy ← lift (decode_ack_policy ack_tag)
  ack_requirement ← read_ack_requirement
  request_tag ← read_u8
  request_policy ← lift (decode_request_policy request_tag)
  deadline_ms ← read_u32
  retry ← read_retry_policy
  destination ← read_destination
  message_id ← read_array_16
  correlation_id ← read_array_16
  s_tag ← read_u8
  status ← lift (decode_status s_tag)
  let m : Message = record {
    kind = kind;
    ack_policy = ack_policy;
    ack_requirement = ack_requirement;
    request_policy = request_policy;
    deadline_ms = deadline_ms;
    retry = retry;
    destination = destination;
    message_id = message_id;
    correlation_id = correlation_id;
    status = status;
    headers = [];
    payload = [];
  }
  lift (message_check m)
  headers ← read_headers limits
  payload ← read_binary
  pure (message (record m { headers = headers; payload = payload }))

unfoldable pub decode_acknowledge : Reader Frame
decode_acknowledge = do
  id ← read_array_16
  tag ← read_u8
  policy ← lift (decode_ack_policy tag)
  lift (acknowledgement_check id policy)
  pure (acknowledge id policy)

unfoldable pub decode_delivery_result : Reader Frame
decode_delivery_result = do
  id ← read_array_16
  lift (message_id_check id)
  tag ← read_u8
  outcome ← lift (decode_delivery_outcome tag)
  pure (delivery_result id outcome)

unfoldable pub decode_protocol_error : Reader Frame
decode_protocol_error = do
  tag ← read_u8
  code ← lift (decode_protocol_error_code tag)
  diagnostic ← read_text
  pure (protocol_error code diagnostic)

unfoldable pub decode_control_result : Reader Frame
decode_control_result = do
  tag ← read_u8
  operation ← lift (decode_control_operation tag)
  pure (control_result operation)

unfoldable pub decode_resolve_namespace : Reader Frame
decode_resolve_namespace = do name ← read_namespace; pure (resolve_namespace name)

unfoldable pub read_owner : Reader (Option PeerId)
read_owner = do
  tag ← read_u8
  if tag == 0
      then pure none
      else if tag == 1
      then (do id ← read_peer_id; pure (some id))
      else lift (err (invalid_value "namespace owner marker"))

unfoldable pub decode_namespace_resolved : Reader Frame
decode_namespace_resolved = do
  name ← read_namespace
  owner ← read_owner
  pure (namespace_resolved name owner)

-- The dispatch on the kind byte.
unfoldable pub decode_body : ℕ → FrameLimits → Reader Frame
decode_body kind limits =
    if kind == 1
    then decode_hello limits
    else if kind == 2
    then decode_welcome limits
    else if kind == 3
    then decode_claim limits
    else if kind == 4
    then decode_subscribe limits
    else if kind == 5
    then decode_unsubscribe
    else if kind == 6
    then decode_message limits
    else if kind == 7
    then decode_protocol_error
    else if kind == 8
    then decode_control_result
    else if kind == 9
    then decode_resolve_namespace
    else if kind == 10
    then decode_namespace_resolved
    else if kind == 11
    then decode_acknowledge
    else if kind == 12
    then decode_delivery_result
    else lift (err (unknown_frame_kind kind))

-- `packet[i]`; the callers have checked the length.
abbrev pub byte_at : ℕ → Bytes → ℕ
byte_at i packet = elim (drop i packet) [ [] ↦ 0 | b ∷ bs ↦ b ]

-- The end of `decode_with_limits`: nothing may follow the frame.
unfoldable pub finish : Codec (Frame × Bytes) → Codec Frame
finish (ok (frame, [])) = ok frame
finish (ok (frame, b ∷ bs)) = err (non_canonical "trailing frame body")
finish (err e) = err e

unfoldable pub decode_with_limits : Bytes → FrameLimits → Codec Frame
unfolding finish
decode_with_limits packet limits =
    let flags = from_be 0 (take 2 (drop 6 packet)) in
    let expected = header_size + from_be 0 (take 4 (drop 8 packet)) in
    if ltb (length packet) header_size
    then err truncated
    else if not (same (take 4 packet) magic)
    then err invalid_magic
    else if not (byte_at 4 packet == version)
    then err (unsupported_version (byte_at 4 packet))
    else if not (flags == 0)
    then err (reserved_flags flags)
    else if ltb (2 ^ 64 - 1) expected
    then err frame_too_large
    else if not (expected == length packet)
    then err length_mismatch
    else if ltb limits.maximum_frame_size expected
    then err frame_too_large
    else finish (decode_body (byte_at 5 packet) limits (drop header_size packet))
