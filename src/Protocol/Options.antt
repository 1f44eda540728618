-- ===== src/Protocol/Options.antt =====
-- The checks of a message's delivery options and identity, which the encoder and the decoder share.
use busd.Prelude.{
  Bool, true, false, ◌&&◌, ◌||◌, not, ℕ, ◌==◌, ok, err, ◌>>◌, reject_if, if◌then◌else◌,
}
use busd.Protocol.Types.{
  MessageKind, AckPolicy, AckRequirement, RequestPolicy, RetryPolicy, Status, MessageId, is_absent,
  invalid_value, non_canonical,
}
use busd.Protocol.Tags.{Codec}

-- `matches!(ack_policy, AckPolicy::Received | AckPolicy::Processed)`
abbrev pub is_receiver_policy : AckPolicy → Bool
is_receiver_policy AckPolicy.none = false
is_receiver_policy AckPolicy.accepted = false
is_receiver_policy AckPolicy.received = true
is_receiver_policy AckPolicy.processed = true

-- `== AckRequirement::None`
abbrev pub no_requirement : AckRequirement → Bool
no_requirement AckRequirement.none = true
no_requirement AckRequirement.any_of = false
no_requirement AckRequirement.all_of = false
no_requirement (AckRequirement.minimum n) = false

-- `matches!(retry, RetryPolicy::None)`
abbrev pub no_retry : RetryPolicy → Bool
no_retry RetryPolicy.none = true
no_retry (RetryPolicy.exponential b n) = false

abbrev pub is_exact : RequestPolicy → Bool
is_exact RequestPolicy.exact = true
is_exact RequestPolicy.first = false
is_exact RequestPolicy.first_success = false
is_exact RequestPolicy.all_of = false

abbrev pub is_request : MessageKind → Bool
is_request MessageKind.signal = false
is_request MessageKind.request = true
is_request MessageKind.response = false

abbrev pub is_response : MessageKind → Bool
is_response MessageKind.signal = false
is_response MessageKind.request = false
is_response MessageKind.response = true

abbrev pub is_success : Status → Bool
is_success Status.success = true
is_success Status.error = false
is_success Status.unsupported = false
is_success Status.denied = false
is_success Status.busy = false
is_success Status.not_found = false

unfoldable pub validate_delivery_options :
    MessageKind → AckPolicy → AckRequirement → RequestPolicy → ℕ → RetryPolicy → Codec (Unit {0})
validate_delivery_options kind ack_policy ack_requirement request_policy deadline_ms retry = do
  reject_if (not (is_receiver_policy ack_policy) && not (no_requirement ack_requirement))
      (non_canonical "acknowledgement requirement")
  reject_if (is_receiver_policy ack_policy && no_requirement ack_requirement)
      (invalid_value "acknowledgement requirement")
  reject_if (is_receiver_policy ack_policy && deadline_ms == 0)
      (invalid_value "acknowledgement deadline")
  reject_if (not (no_retry retry) && not (is_request kind) && not (is_receiver_policy ack_policy))
      (invalid_value "retry acknowledgement policy")
  reject_if (not (is_request kind) && not (is_exact request_policy))
      (non_canonical "non-request routing policy")
  reject_if (is_request kind && deadline_ms == 0) (invalid_value "request deadline")
  reject_if (is_response kind && (not (deadline_ms == 0) || not (no_retry retry)))
      (non_canonical "response delivery options")

unfoldable pub validate_message_identity :
    MessageKind → MessageId → MessageId → Status → Codec (Unit {0})
validate_message_identity kind message_id correlation_id status =
    if is_absent message_id
    then err (invalid_value "message ID")
    else if is_response kind
    then if is_absent correlation_id then err (invalid_value "response correlation ID") else ok tt
    else if not (is_absent correlation_id)
    then err (non_canonical "non-response correlation ID")
    else if not (is_success status)
    then err (invalid_value "non-response status")
    else ok tt
