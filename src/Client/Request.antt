-- ===== src/Client/Request.antt =====
-- Messages, and the wait for the response to a request.
use busd.Prelude.{
  ℕ, zero, suc, Bool, true, false, Option, none, some, Result, ok, err, if◌then◌else◌,
}
use busd.Order.{bytes_order, same}
use busd.Protocol.Types.{
  Bytes, MessageId, Headers, Message, Frame, message, delivery_result, protocol_error, MessageKind,
  AckPolicy, AckRequirement, RequestPolicy, RetryPolicy, Destination, Status, DeliveryOutcome,
  absent,
}
use busd.Protocol.Options.{is_request, is_response}
use busd.Action.{Action, pure, lift, ◌>>=◌, ◌>>◌}
use busd.Client.Transport.{Error, handshake, rejected, delivery, Transport, Bus}
use busd.Client.Bus.{send_message, receive_frame}

abbrev plain_message :
    MessageKind → Destination → MessageId → MessageId → Status → ℕ → Headers → Bytes → Message
plain_message kind destination id correlation_id status deadline_ms headers payload = record {
  kind = kind;
  ack_policy = AckPolicy.none;
  ack_requirement = AckRequirement.none;
  request_policy = RequestPolicy.exact;
  deadline_ms = deadline_ms;
  retry = RetryPolicy.none;
  destination = destination;
  message_id = id;
  correlation_id = correlation_id;
  status = status;
  headers = headers;
  payload = payload;
}

-- The outcomes that leave a request open.
abbrev pub is_progress : DeliveryOutcome → Bool
is_progress DeliveryOutcome.accepted = true
is_progress DeliveryOutcome.received = true
is_progress DeliveryOutcome.processed = true
is_progress _ = false

abbrev unrelated : Result Error (Option Frame)
unrelated = err (handshake "broker sent an unrelated frame during request")

-- `match self.receive_frame()?` in the loop of `request`: none to go on.
unfoldable pub request_step : MessageId → Option Frame → Result Error (Option Frame)
request_step id (some (message m)) =
    if is_response m.kind
    then if same m.correlation_id id then ok (some (message m)) else unrelated
    else unrelated
request_step id (some (delivery_result result_id outcome)) =
    if same result_id id
    then if is_progress outcome then ok none else err (delivery outcome)
    else unrelated
request_step id (some (protocol_error code diagnostic)) = err (rejected code diagnostic)
request_step id (some _) = unrelated
request_step id none = err (handshake "broker disconnected during request")

module _ {S : Type 0} (t : Transport S) where
  unfoldable pub send_signal :
      Bus → Destination → MessageId → Headers → Bytes → Action S Error (Unit {0})
  unfolding send_message
  send_signal bus destination id headers payload = send_message t bus (
      message
        (plain_message MessageKind.signal destination id absent Status.success 0 headers payload))

  unfoldable pub send_response :
      Bus
      → Destination
      → MessageId
      → MessageId
      → Status
      → Headers
      → Bytes
      → Action S Error (Unit {0})
  unfolding send_message
  send_response bus destination id correlation_id status headers payload = send_message t bus (
      message
        (plain_message MessageKind.response destination id correlation_id status 0 headers payload))

  -- The loop of `request`, of at most `fuel` rounds: none where they do not suffice.
  unfoldable pub await_response : ℕ → Bus → MessageId → Action S Error (Option Frame)
  await_response zero bus id = pure none
  await_response (suc fuel) bus id = do
    received ← receive_frame t bus
    step ← lift (request_step id received)
    elim step [ none ↦ await_response fuel bus id | some response ↦ pure (some response) ]

  unfoldable pub request : ℕ → Bus → Frame → Action S Error (Option Frame)
  request fuel bus (message m) s =
      if is_request m.kind
      then (do send_message t bus (message m); await_response fuel bus m.message_id) s
      else (err (handshake "request requires a REQUEST message"), s)
  request fuel bus _ s = (err (handshake "request requires a REQUEST message"), s)

  unfoldable pub request_message :
      ℕ → Bus → Destination → MessageId → ℕ → Headers → Bytes → Action S Error (Option Frame)
  unfolding request
  request_message fuel bus destination id deadline_ms headers payload = request fuel bus (
      message (
        plain_message MessageKind.request destination id absent Status.success deadline_ms headers
          payload))
