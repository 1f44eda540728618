-- ===== src/Daemon/Session.antt =====
-- `dispatch_session`: what the daemon does with a frame of a connected client.
use busd.Prelude.{ℕ, Bool, true, false, List, [], ◌∷◌, Result, ok, err}
use busd.Order.{nat_order, bytes_order}
use busd.Protocol.Types.{
  Bytes, Text, PeerId, Frame, hello, welcome, message, delivery_result, protocol_error,
  control_result, resolve_namespace, namespace_resolved, FrameLimits, default_frame_limits,
  ControlOperation, ProtocolErrorCode, CodecError, Headers,
}
use busd.Protocol.Bytes.{ascii}
use busd.Protocol.Messages.{codec_error_text}
use busd.Protocol.Encode.{encode_with_limits}
use busd.Protocol.Decode.{decode_with_limits}
use busd.Broker.Types.{Broker, Error, DeliveryEvent}
use busd.Broker.Messages.{error_text}
use busd.Broker.Registry.{claim, subscribe_with_filters, unsubscribe}
use busd.Broker.Routing.{namespace_owner}
use busd.Broker.Responses.{begin_delivery}
use busd.Broker.Acknowledge.{acknowledge}
use busd.Transport.{Io, ◌>>=◌, ◌>>◌, pure, lift, codec_io, Connection, Sent, Sockets, send_packet}
use busd.Daemon.Codes.{broker_error_code, codec_error_code}
use busd.Daemon.Events.{Sessions, dispatch_delivery_events}

-- What is left to do with a frame once the broker's lock is released: to send a frame to the client
-- and go on, to dispatch events and go on, or to send an error and end the session.
pub data Reply : Type 0 where
  answer : Frame → Reply
  dispatch : List DeliveryEvent → Reply
  refuse : ProtocolErrorCode → Text → Reply

-- `send_control_result`
abbrev pub control_reply : ControlOperation → Result Error (Unit {0}) → Reply
control_reply operation (ok u) = answer (control_result operation)
control_reply operation (err e) = answer (protocol_error (broker_error_code e) (error_text e))

abbrev pub message_reply : Result Error (List DeliveryEvent) → Reply
message_reply (ok events) = dispatch events
message_reply (err e) = answer (protocol_error (broker_error_code e) (error_text e))

-- An acknowledgement that fails always gets the code of an invalid state.
abbrev pub acknowledge_reply : Result Error (List DeliveryEvent) → Reply
acknowledge_reply (ok events) = dispatch events
acknowledge_reply (err e) = answer (protocol_error ProtocolErrorCode.invalid_state (error_text e))

abbrev pub refuse_state : Text → Broker → Reply × Broker
refuse_state diagnostic b = (refuse ProtocolErrorCode.invalid_state diagnostic, b)

abbrev replied {ℓ} : {A : Type ℓ} → (A → Reply) → A × Broker → Reply × Broker
replied f r = (f r.0, r.1)

-- A claim that carries headers is refused.
abbrev pub handle_claim : PeerId → Text → Headers → Broker → Reply × Broker
handle_claim peer_id namespace [] b =
    replied (control_reply ControlOperation.claim) (claim peer_id namespace b)
handle_claim peer_id namespace (h ∷ hs) b =
    refuse_state (ascii "claim metadata is not supported in this phase") b

-- `match frame`, up to the release of the broker's lock.
unfoldable pub handle : PeerId → Frame → ℕ → Broker → Reply × Broker
handle peer_id (Frame.claim namespace headers) now_ms b = handle_claim peer_id namespace headers b
handle peer_id (Frame.subscribe channel filters) now_ms b =
    replied (control_reply ControlOperation.subscribe)
      (subscribe_with_filters peer_id channel filters b)
handle peer_id (Frame.unsubscribe channel) now_ms b =
    replied (control_reply ControlOperation.unsubscribe) (unsubscribe peer_id channel b)
handle peer_id (resolve_namespace namespace) now_ms b =
    (answer (namespace_resolved namespace (namespace_owner b namespace)), b)
handle peer_id (message m) now_ms b =
    replied message_reply (begin_delivery peer_id (message m) now_ms b)
handle peer_id (Frame.acknowledge id policy) now_ms b =
    replied acknowledge_reply (acknowledge peer_id id policy b)
handle peer_id (hello id headers capabilities) now_ms b =
    refuse_state (ascii "HELLO was already received") b
handle peer_id (welcome id capabilities) now_ms b =
    refuse_state (ascii "frame is not valid for a client session") b
handle peer_id (protocol_error code diagnostic) now_ms b =
    refuse_state (ascii "frame is not valid for a client session") b
handle peer_id (control_result operation) now_ms b =
    refuse_state (ascii "frame is not valid for a client session") b
handle peer_id (namespace_resolved namespace owner) now_ms b =
    refuse_state (ascii "frame is not valid for a client session") b
handle peer_id (delivery_result id outcome) now_ms b =
    refuse_state (ascii "frame is not valid for a client session") b

-- A packet that does not decode is refused.
abbrev pub handle_decoded : PeerId → Result CodecError Frame → ℕ → Broker → Reply × Broker
handle_decoded peer_id (ok frame) now_ms b = handle peer_id frame now_ms b
handle_decoded peer_id (err e) now_ms b = (refuse (codec_error_code e) (codec_error_text e), b)

unfoldable pub handle_packet : PeerId → FrameLimits → Bytes → ℕ → Broker → Reply × Broker
handle_packet peer_id limits packet now_ms b =
    handle_decoded peer_id (decode_with_limits packet limits) now_ms b

module _ (sockets : Sockets) where
  abbrev pub send_frame : Connection → Frame → FrameLimits → Io Sent (Unit {0})
  send_frame peer frame limits = do
    packet ← lift (codec_io (encode_with_limits frame limits))
    send_packet sockets peer packet

  -- `reject`, which encodes under the default limits.
  unfoldable pub reject : Connection → ProtocolErrorCode → Text → Io Sent (Unit {0})
  unfolding send_packet
  reject peer code diagnostic =
      send_frame peer (protocol_error code diagnostic) default_frame_limits

  -- What is left to do, and whether the session goes on.
  unfoldable pub perform : Connection → Sessions → FrameLimits → Reply → Io Sent Bool
  unfolding send_packet reject dispatch_delivery_events
  perform peer sessions limits (answer frame) = do send_frame peer frame limits; pure true
  perform peer sessions limits (dispatch events) = do
    dispatch_delivery_events sockets sessions events limits
    pure true
  perform peer sessions limits (refuse code diagnostic) = do reject peer code diagnostic; pure false
