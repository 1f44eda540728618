-- ===== src/Protocol/Encode.antt =====
-- `encode_body` and `encode_with_limits` of `Frame`.
use busd.Prelude.{
  ℕ, ◌+◌, ◌^◌, ◌-◌, ◌||◌, not, Option, none, some, ◌∷◌, ◌++◌, ltb, ◌==◌, length, ok, err, ◌>>=◌,
  ◌>>◌, reject_if, if◌then◌else◌,
}
use busd.Protocol.Types.{
  Bytes, PeerId, ClientId, MessageId, Message, Frame, hello, welcome, message, acknowledge,
  delivery_result, protocol_error, control_result, resolve_namespace, namespace_resolved,
  FrameLimits, AckPolicy, is_absent, frame_too_large, invalid_value,
}
use busd.Protocol.Bytes.{ascii, to_be}
use busd.Protocol.Tags.{
  Codec, message_kind_tag, ack_policy_tag, request_policy_tag, delivery_outcome_tag, status_tag,
  protocol_error_code_tag, control_operation_tag,
}
use busd.Protocol.Options.{validate_delivery_options, validate_message_identity, is_receiver_policy}
use busd.Protocol.Writer.{
  Written, ◌⊕◌, checked, push_u8, push_u32, push_u64, push_text, push_name, push_namespace,
  push_binary, push_ack_requirement, push_retry_policy, push_headers, push_capabilities,
  push_filters, push_destination,
}

abbrev pub magic : Bytes
magic = ascii "BUS1"

abbrev pub version : ℕ
version = 3

abbrev pub header_size : ℕ
header_size = 12

unfoldable pub push_client_id : Option ClientId → Written
push_client_id (some id) = push_u8 1 ⊕ push_name id
push_client_id none = push_u8 0

unfoldable pub push_owner : Option PeerId → Written
push_owner (some id) =
    if not (id == 0) then push_u8 1 ⊕ push_u64 id else err (invalid_value "peer ID")
push_owner none = push_u8 0

abbrev pub peer_id_check : PeerId → Codec (Unit {0})
peer_id_check id = reject_if (id == 0) (invalid_value "peer ID")

abbrev pub acknowledgement_check : MessageId → AckPolicy → Codec (Unit {0})
acknowledgement_check id policy =
    reject_if (is_absent id || not (is_receiver_policy policy)) (invalid_value "acknowledgement")

abbrev pub message_id_check : MessageId → Codec (Unit {0})
message_id_check id = reject_if (is_absent id) (invalid_value "message ID")

-- The two checks of a message, in the order of both codecs.
abbrev pub message_check : Message → Codec (Unit {0})
message_check m = do
  validate_delivery_options m.kind m.ack_policy m.ack_requirement m.request_policy m.deadline_ms
      m.retry
  validate_message_identity m.kind m.message_id m.correlation_id m.status

unfoldable pub push_message : Message → FrameLimits → Written
push_message m limits = checked (message_check m) (
    push_u8 (message_kind_tag m.kind)
    ⊕ push_u8 (ack_policy_tag m.ack_policy)
    ⊕ push_ack_requirement m.ack_requirement
    ⊕ push_u8 (request_policy_tag m.request_policy)
    ⊕ push_u32 m.deadline_ms
    ⊕ push_retry_policy m.retry
    ⊕ push_destination m.destination
    ⊕ ok m.message_id
    ⊕ ok m.correlation_id
    ⊕ push_u8 (status_tag m.status)
    ⊕ push_headers m.headers limits
    ⊕ push_binary m.payload)

abbrev pub frame_kind : Frame → ℕ
frame_kind (hello id headers capabilities) = 1
frame_kind (welcome id capabilities) = 2
frame_kind (Frame.claim name headers) = 3
frame_kind (Frame.subscribe channel filters) = 4
frame_kind (Frame.unsubscribe channel) = 5
frame_kind (message m) = 6
frame_kind (protocol_error code diagnostic) = 7
frame_kind (control_result operation) = 8
frame_kind (resolve_namespace name) = 9
frame_kind (namespace_resolved name owner) = 10
frame_kind (acknowledge id policy) = 11
frame_kind (delivery_result id outcome) = 12

-- The body; its kind is `frame_kind`.
unfoldable pub encode_body : Frame → FrameLimits → Written
encode_body (hello id headers capabilities) limits =
    push_client_id id ⊕ push_headers headers limits ⊕ push_capabilities capabilities limits
encode_body (welcome id capabilities) limits =
    checked (peer_id_check id) (push_u64 id ⊕ push_capabilities capabilities limits)
encode_body (Frame.claim name headers) limits = push_namespace name ⊕ push_headers headers limits
encode_body (Frame.subscribe channel filters) limits =
    push_name channel ⊕ push_filters filters limits
encode_body (Frame.unsubscribe channel) limits = push_name channel
encode_body (message m) limits = push_message m limits
encode_body (acknowledge id policy) limits =
    checked (acknowledgement_check id policy) (ok id ⊕ push_u8 (ack_policy_tag policy))
encode_body (delivery_result id outcome) limits =
    checked (message_id_check id) (ok id ⊕ push_u8 (delivery_outcome_tag outcome))
encode_body (protocol_error code diagnostic) limits =
    push_u8 (protocol_error_code_tag code) ⊕ push_text diagnostic
encode_body (control_result operation) limits = push_u8 (control_operation_tag operation)
encode_body (resolve_namespace name) limits = push_namespace name
encode_body (namespace_resolved name owner) limits = push_namespace name ⊕ push_owner owner

-- The packet around a body.
abbrev pub packet_of : ℕ → Bytes → Bytes
packet_of kind body = magic ++ version ∷ kind ∷ (to_be 2 0 ++ (to_be 4 (length body) ++ body))

unfoldable pub encode_with_limits : Frame → FrameLimits → Codec Bytes
encode_with_limits frame limits = do
  body ← encode_body frame limits
  let total = header_size + length body
  reject_if (ltb (2 ^ 64 - 1) total) frame_too_large
  reject_if (ltb limits.maximum_frame_size total || ltb (2 ^ 32 - 1) (length body)) frame_too_large
  ok (packet_of (frame_kind frame) body)
