-- ===== src/Protocol/RoundTrip/Tags.antt =====
-- Tags, encoded and decoded.
use busd.Prelude.{◌≡◌, refl, ok}
use busd.Protocol.Types.{
  MessageKind, AckPolicy, RequestPolicy, DeliveryOutcome, Status, ProtocolErrorCode,
  ClientSelection, ControlOperation,
}
use busd.Protocol.Tags.{
  message_kind_tag, ack_policy_tag, request_policy_tag, delivery_outcome_tag, status_tag,
  protocol_error_code_tag, client_selection_tag, control_operation_tag, decode_message_kind,
  decode_ack_policy, decode_request_policy, decode_delivery_outcome, decode_status,
  decode_protocol_error_code, decode_client_selection, decode_control_operation,
}

pub decode_message_kind-message_kind_tag :
    (x : MessageKind) → decode_message_kind (message_kind_tag x) ≡ ok x
unfolding decode_message_kind message_kind_tag
decode_message_kind-message_kind_tag MessageKind.signal = refl
decode_message_kind-message_kind_tag MessageKind.request = refl
decode_message_kind-message_kind_tag MessageKind.response = refl

pub decode_ack_policy-ack_policy_tag : (x : AckPolicy) → decode_ack_policy (ack_policy_tag x) ≡ ok x
unfolding decode_ack_policy ack_policy_tag
decode_ack_policy-ack_policy_tag AckPolicy.none = refl
decode_ack_policy-ack_policy_tag AckPolicy.accepted = refl
decode_ack_policy-ack_policy_tag AckPolicy.received = refl
decode_ack_policy-ack_policy_tag AckPolicy.processed = refl

pub decode_request_policy-request_policy_tag :
    (x : RequestPolicy) → decode_request_policy (request_policy_tag x) ≡ ok x
unfolding decode_request_policy request_policy_tag
decode_request_policy-request_policy_tag RequestPolicy.exact = refl
decode_request_policy-request_policy_tag RequestPolicy.first = refl
decode_request_policy-request_policy_tag RequestPolicy.first_success = refl
decode_request_policy-request_policy_tag RequestPolicy.all_of = refl

pub decode_delivery_outcome-delivery_outcome_tag :
    (x : DeliveryOutcome) → decode_delivery_outcome (delivery_outcome_tag x) ≡ ok x
unfolding decode_delivery_outcome delivery_outcome_tag
decode_delivery_outcome-delivery_outcome_tag DeliveryOutcome.accepted = refl
decode_delivery_outcome-delivery_outcome_tag DeliveryOutcome.received = refl
decode_delivery_outcome-delivery_outcome_tag DeliveryOutcome.processed = refl
decode_delivery_outcome-delivery_outcome_tag DeliveryOutcome.timeout = refl
decode_delivery_outcome-delivery_outcome_tag DeliveryOutcome.no_recipient = refl
decode_delivery_outcome-delivery_outcome_tag DeliveryOutcome.recipient_disconnected = refl
decode_delivery_outcome-delivery_outcome_tag DeliveryOutcome.delivery_failed = refl

pub decode_status-status_tag : (x : Status) → decode_status (status_tag x) ≡ ok x
unfolding decode_status status_tag
decode_status-status_tag Status.success = refl
decode_status-status_tag Status.error = refl
decode_status-status_tag Status.unsupported = refl
decode_status-status_tag Status.denied = refl
decode_status-status_tag Status.busy = refl
decode_status-status_tag Status.not_found = refl

pub decode_protocol_error_code-protocol_error_code_tag :
    (x : ProtocolErrorCode) → decode_protocol_error_code (protocol_error_code_tag x) ≡ ok x
unfolding decode_protocol_error_code protocol_error_code_tag
decode_protocol_error_code-protocol_error_code_tag ProtocolErrorCode.malformed_frame = refl
decode_protocol_error_code-protocol_error_code_tag ProtocolErrorCode.unsupported_version = refl
decode_protocol_error_code-protocol_error_code_tag ProtocolErrorCode.unknown_frame_kind = refl
decode_protocol_error_code-protocol_error_code_tag ProtocolErrorCode.limit_exceeded = refl
decode_protocol_error_code-protocol_error_code_tag ProtocolErrorCode.non_canonical = refl
decode_protocol_error_code-protocol_error_code_tag ProtocolErrorCode.invalid_state = refl
decode_protocol_error_code-protocol_error_code_tag ProtocolErrorCode.no_recipient = refl

pub decode_client_selection-client_selection_tag :
    (x : ClientSelection) → decode_client_selection (client_selection_tag x) ≡ ok x
unfolding decode_client_selection client_selection_tag
decode_client_selection-client_selection_tag ClientSelection.first = refl
decode_client_selection-client_selection_tag ClientSelection.any_of = refl
decode_client_selection-client_selection_tag ClientSelection.all_of = refl

pub decode_control_operation-control_operation_tag :
    (x : ControlOperation) → decode_control_operation (control_operation_tag x) ≡ ok x
unfolding decode_control_operation control_operation_tag
decode_control_operation-control_operation_tag ControlOperation.claim = refl
decode_control_operation-control_operation_tag ControlOperation.subscribe = refl
decode_control_operation-control_operation_tag ControlOperation.unsubscribe = refl
