-- ===== src/Broker/Messages.antt =====
-- The texts of the broker's errors, `Error`'s `Display`.
use busd.Prelude.{◌++◌, ◌≡◌, refl}
use busd.Protocol.Types.{Text}
use busd.Protocol.Bytes.{ascii}
use busd.Protocol.Display.{peer_label}
use busd.Protocol.Messages.{message_id_text}
use busd.Broker.Types.{
  Error, unknown_peer, namespace_already_owned, dbus_name_already_owned, invalid_dbus_name, denied,
  peer_id_exhausted, reserved_header, no_recipient, invalid_delivery, deadline_overflow,
  invalid_priority, duplicate_message, unknown_delivery, unexpected_acknowledgement,
  unexpected_response, limit_exceeded, Limit,
}

-- `{limit:?}`
abbrev pub limit_text : Limit → Text
limit_text Limit.queued_bytes = ascii "QueuedBytes"
limit_text Limit.queued_messages = ascii "QueuedMessages"
limit_text Limit.in_flight_requests = ascii "InFlightRequests"
limit_text Limit.subscriptions = ascii "Subscriptions"
limit_text Limit.namespace_claims = ascii "NamespaceClaims"

unfoldable pub error_text : Error → Text
error_text (unknown_peer peer) = ascii "unknown peer " ++ peer_label peer
error_text (namespace_already_owned namespace owner) =
    ascii "namespace " ++ (namespace ++ (ascii " is already owned by " ++ peer_label owner))
error_text (dbus_name_already_owned name owner) =
    ascii "D-Bus name " ++ (name ++ (ascii " is already owned by " ++ peer_label owner))
error_text (invalid_dbus_name name) = ascii "invalid D-Bus name " ++ name
error_text (denied action) = ascii "operation denied by policy"
error_text peer_id_exhausted = ascii "peer identifier space exhausted"
error_text (reserved_header header) =
    ascii "claimed header " ++ (header ++ ascii " is reserved for the broker")
error_text no_recipient = ascii "no eligible recipient"
error_text invalid_delivery = ascii "invalid delivery frame"
error_text (duplicate_message id) =
    ascii "message " ++ (message_id_text id ++ ascii " is already in flight")
error_text (unknown_delivery id) = ascii "unknown delivery " ++ message_id_text id
error_text (unexpected_acknowledgement id) =
    ascii "unexpected acknowledgement for " ++ message_id_text id
error_text (unexpected_response id) = ascii "unexpected response for " ++ message_id_text id
error_text deadline_overflow = ascii "message deadline overflowed broker clock"
error_text (limit_exceeded limit) = ascii "broker limit exceeded: " ++ limit_text limit
error_text invalid_priority = ascii "message priority must be an unsigned value from 0 through 7"

error_text_test : error_text (unknown_peer 3) ≡ ascii "unknown peer :3"
unfolding error_text peer_label
error_text_test = refl
