-- ===== src/Protocol/Tags.antt =====
-- The one-byte tags of the enumerations, and their decoding.
use busd.Prelude.{ℕ, ◌==◌, Result, ok, err, if◌then◌else◌}
use busd.Protocol.Types.{
  MessageKind, AckPolicy, RequestPolicy, DeliveryOutcome, Status, ProtocolErrorCode,
  ClientSelection, ControlOperation, CodecError,
}

abbrev pub Codec {ℓ} : Type ℓ → Type ℓ
Codec A = Result CodecError A

unfoldable pub message_kind_tag : MessageKind → ℕ
message_kind_tag MessageKind.signal = 0
message_kind_tag MessageKind.request = 1
message_kind_tag MessageKind.response = 2

unfoldable pub ack_policy_tag : AckPolicy → ℕ
ack_policy_tag AckPolicy.none = 0
ack_policy_tag AckPolicy.accepted = 1
ack_policy_tag AckPolicy.received = 2
ack_policy_tag AckPolicy.processed = 3

unfoldable pub request_policy_tag : RequestPolicy → ℕ
request_policy_tag RequestPolicy.exact = 0
request_policy_tag RequestPolicy.first = 1
request_policy_tag RequestPolicy.first_success = 2
request_policy_tag RequestPolicy.all_of = 3

unfoldable pub delivery_outcome_tag : DeliveryOutcome → ℕ
delivery_outcome_tag DeliveryOutcome.accepted = 0
delivery_outcome_tag DeliveryOutcome.received = 1
delivery_outcome_tag DeliveryOutcome.processed = 2
delivery_outcome_tag DeliveryOutcome.timeout = 3
delivery_outcome_tag DeliveryOutcome.no_recipient = 4
delivery_outcome_tag DeliveryOutcome.recipient_disconnected = 5
delivery_outcome_tag DeliveryOutcome.delivery_failed = 6

unfoldable pub status_tag : Status → ℕ
status_tag Status.success = 0
status_tag Status.error = 1
status_tag Status.unsupported = 2
status_tag Status.denied = 3
status_tag Status.busy = 4
status_tag Status.not_found = 5

unfoldable pub protocol_error_code_tag : ProtocolErrorCode → ℕ
protocol_error_code_tag ProtocolErrorCode.malformed_frame = 0
protocol_error_code_tag ProtocolErrorCode.unsupported_version = 1
protocol_error_code_tag ProtocolErrorCode.unknown_frame_kind = 2
protocol_error_code_tag ProtocolErrorCode.limit_exceeded = 3
protocol_error_code_tag ProtocolErrorCode.non_canonical = 4
protocol_error_code_tag ProtocolErrorCode.invalid_state = 5
protocol_error_code_tag ProtocolErrorCode.no_recipient = 6

unfoldable pub client_selection_tag : ClientSelection → ℕ
client_selection_tag ClientSelection.first = 0
client_selection_tag ClientSelection.any_of = 1
client_selection_tag ClientSelection.all_of = 2

unfoldable pub control_operation_tag : ControlOperation → ℕ
control_operation_tag ControlOperation.claim = 0
control_operation_tag ControlOperation.subscribe = 1
control_operation_tag ControlOperation.unsubscribe = 2

unfoldable pub decode_message_kind : ℕ → Codec MessageKind
decode_message_kind value =
    if value == 0
    then ok MessageKind.signal
    else if value == 1
    then ok MessageKind.request
    else if value == 2
    then ok MessageKind.response
    else err (CodecError.invalid_value "message kind")

unfoldable pub decode_ack_policy : ℕ → Codec AckPolicy
decode_ack_policy value =
    if value == 0
    then ok AckPolicy.none
    else if value == 1
    then ok AckPolicy.accepted
    else if value == 2
    then ok AckPolicy.received
    else if value == 3
    then ok AckPolicy.processed
    else err (CodecError.invalid_value "acknowledgement policy")

unfoldable pub decode_request_policy : ℕ → Codec RequestPolicy
decode_request_policy value =
    if value == 0
    then ok RequestPolicy.exact
    else if value == 1
    then ok RequestPolicy.first
    else if value == 2
    then ok RequestPolicy.first_success
    else if value == 3
    then ok RequestPolicy.all_of
    else err (CodecError.invalid_value "request routing policy")

unfoldable pub decode_delivery_outcome : ℕ → Codec DeliveryOutcome
decode_delivery_outcome value =
    if value == 0
    then ok DeliveryOutcome.accepted
    else if value == 1
    then ok DeliveryOutcome.received
    else if value == 2
    then ok DeliveryOutcome.processed
    else if value == 3
    then ok DeliveryOutcome.timeout
    else if value == 4
    then ok DeliveryOutcome.no_recipient
    else if value == 5
    then ok DeliveryOutcome.recipient_disconnected
    else if value == 6
    then ok DeliveryOutcome.delivery_failed
    else err (CodecError.invalid_value "delivery outcome")

unfoldable pub decode_status : ℕ → Codec Status
decode_status value =
    if value == 0
    then ok Status.success
    else if value == 1
    then ok Status.error
    else if value == 2
    then ok Status.unsupported
    else if value == 3
    then ok Status.denied
    else if value == 4
    then ok Status.busy
    else if value == 5
    then ok Status.not_found
    else err (CodecError.invalid_value "status")

unfoldable pub decode_protocol_error_code : ℕ → Codec ProtocolErrorCode
decode_protocol_error_code value =
    if value == 0
    then ok ProtocolErrorCode.malformed_frame
    else if value == 1
    then ok ProtocolErrorCode.unsupported_version
    else if value == 2
    then ok ProtocolErrorCode.unknown_frame_kind
    else if value == 3
    then ok ProtocolErrorCode.limit_exceeded
    else if value == 4
    then ok ProtocolErrorCode.non_canonical
    else if value == 5
    then ok ProtocolErrorCode.invalid_state
    else if value == 6
    then ok ProtocolErrorCode.no_recipient
    else err (CodecError.invalid_value "protocol error code")

unfoldable pub decode_client_selection : ℕ → Codec ClientSelection
decode_client_selection value =
    if value == 0
    then ok ClientSelection.first
    else if value == 1
    then ok ClientSelection.any_of
    else if value == 2
    then ok ClientSelection.all_of
    else err (CodecError.invalid_value "client selection")

unfoldable pub decode_control_operation : ℕ → Codec ControlOperation
decode_control_operation value =
    if value == 0
    then ok ControlOperation.claim
    else if value == 1
    then ok ControlOperation.subscribe
    else if value == 2
    then ok ControlOperation.unsubscribe
    else err (CodecError.invalid_value "control operation")
