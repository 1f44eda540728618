-- ===== src/Client/Bus.antt =====
-- `Bus`: a connection to a broker.
use busd.Prelude.{
  ◌≡◌, refl, Bool, true, false, Option, none, some, List, [], Result, ok, err, if◌then◌else◌,
}
use busd.Order.{bytes_order, same}
use busd.Protocol.Types.{
  Bytes, PeerId, MessageId, Namespace, Channel, Headers, HeaderFilter, Frame, hello, welcome,
  message, acknowledge, protocol_error, control_result, resolve_namespace, namespace_resolved,
  AckPolicy, ControlOperation, FrameLimits, CodecError,
}
use busd.Protocol.Encode.{encode_with_limits}
use busd.Protocol.Decode.{decode_with_limits}
use busd.Action.{Action, fail, lift, ◌>>=◌, ◌>>◌, map_err}
use busd.Transport.{IoError, Connection}
use busd.Client.Transport.{
  Error, transport, codec, handshake, rejected, Transport, ConnectOptions, Bus,
}

abbrev pub same_operation : ControlOperation → ControlOperation → Bool
same_operation ControlOperation.claim ControlOperation.claim = true
same_operation ControlOperation.subscribe ControlOperation.subscribe = true
same_operation ControlOperation.unsubscribe ControlOperation.unsubscribe = true
same_operation _ _ = false

pub same_operation_refl : (o : ControlOperation) → same_operation o o ≡ true
same_operation_refl ControlOperation.claim = refl
same_operation_refl ControlOperation.subscribe = refl
same_operation_refl ControlOperation.unsubscribe = refl

module _ {S : Type 0} where
  -- `?` on an `io::Result`.
  abbrev pub from_io {ℓ} : {A : Type ℓ} → Action S IoError A → Action S Error A
  from_io m s = let r = m s in (map_err transport r.0, r.1)

abbrev pub from_codec {ℓ} : {A : Type ℓ} → Result CodecError A → Result Error A
from_codec r = map_err codec r

abbrev pub read_frame : Result CodecError Frame → Result Error (Option Frame)
read_frame (ok frame) = ok (some frame)
read_frame (err e) = err (codec e)

abbrev pub decoded : FrameLimits → Option Bytes → Result Error (Option Frame)
decoded limits none = ok none
decoded limits (some packet) = read_frame (decode_with_limits packet limits)

abbrev pub control_outcome : ControlOperation → Option Frame → Result Error (Unit {0})
control_outcome operation (some (control_result done)) =
    if same_operation done operation
    then ok tt
    else err (handshake "broker sent an unexpected control frame")
control_outcome operation (some (protocol_error code diagnostic)) = err (rejected code diagnostic)
control_outcome operation (some _) = err (handshake "broker sent an unexpected control frame")
control_outcome operation none = err (handshake "broker disconnected during a control operation")

abbrev pub discovery_outcome : Namespace → Option Frame → Result Error (Option PeerId)
discovery_outcome namespace (some (namespace_resolved resolved owner)) =
    if same resolved namespace
    then ok owner
    else err (handshake "broker sent an unexpected discovery frame")
discovery_outcome namespace (some (protocol_error code diagnostic)) = err (rejected code diagnostic)
discovery_outcome namespace (some _) = err (handshake "broker sent an unexpected discovery frame")
discovery_outcome namespace none = err (handshake "broker disconnected during namespace resolution")

-- `match` on the answer to HELLO.
abbrev pub welcome_outcome :
    ConnectOptions → Connection → Result CodecError Frame → Result Error Bus
welcome_outcome options connection (ok (welcome peer_id capabilities)) = ok (record {
  connection = connection;
  frame_limits = options.frame_limits;
  peer_id = peer_id;
  capabilities = capabilities;
})
welcome_outcome options connection (ok (protocol_error code diagnostic)) =
    err (rejected code diagnostic)
welcome_outcome options connection (ok _) =
    err (handshake "broker sent a non-WELCOME handshake frame")
welcome_outcome options connection (err e) = err (codec e)

abbrev pub welcomed : ConnectOptions → Connection → Option Bytes → Result Error Bus
welcomed options connection none = err (handshake "broker disconnected before WELCOME")
welcomed options connection (some packet) =
    welcome_outcome options connection (decode_with_limits packet options.frame_limits)

module _ {S : Type 0} (t : Transport S) where
  unfoldable pub send_frame : Bus → Frame → Action S Error (Unit {0})
  send_frame bus frame = do
    packet ← lift (from_codec (encode_with_limits frame bus.frame_limits))
    from_io (t.send bus.connection packet)

  unfoldable pub receive_frame : Bus → Action S Error (Option Frame)
  receive_frame bus = do
    packet ← from_io (t.receive bus.connection bus.frame_limits.maximum_frame_size)
    lift (decoded bus.frame_limits packet)

  unfoldable pub send_control : Bus → Frame → ControlOperation → Action S Error (Unit {0})
  unfolding send_frame receive_frame
  send_control bus frame operation = do
    send_frame bus frame
    reply ← receive_frame bus
    lift (control_outcome operation reply)

  unfoldable pub claim_with_headers : Bus → Namespace → Headers → Action S Error (Unit {0})
  unfolding send_control
  claim_with_headers bus namespace headers =
      send_control bus (Frame.claim namespace headers) ControlOperation.claim

  unfoldable pub claim : Bus → Namespace → Action S Error (Unit {0})
  unfolding claim_with_headers
  claim bus namespace = claim_with_headers bus namespace []

  unfoldable pub subscribe : Bus → Channel → List HeaderFilter → Action S Error (Unit {0})
  unfolding send_control
  subscribe bus channel filters =
      send_control bus (Frame.subscribe channel filters) ControlOperation.subscribe

  unfoldable pub unsubscribe : Bus → Channel → Action S Error (Unit {0})
  unfolding send_control
  unsubscribe bus channel =
      send_control bus (Frame.unsubscribe channel) ControlOperation.unsubscribe

  unfoldable pub resolve : Bus → Namespace → Action S Error (Option PeerId)
  unfolding send_frame receive_frame
  resolve bus namespace = do
    send_frame bus (resolve_namespace namespace)
    reply ← receive_frame bus
    lift (discovery_outcome namespace reply)

  unfoldable pub send_message : Bus → Frame → Action S Error (Unit {0})
  unfolding send_frame
  send_message bus (message m) = send_frame bus (message m)
  send_message bus _ = fail (handshake "send_message requires a MESSAGE frame")

  unfoldable pub acknowledge_message : Bus → MessageId → AckPolicy → Action S Error (Unit {0})
  unfolding send_frame
  acknowledge_message bus id policy = send_frame bus (acknowledge id policy)

  unfoldable pub disconnect : Bus → Action S Error (Unit {0})
  disconnect bus s =
      let r = from_io (t.disconnect bus.connection) s in (r.0, t.close bus.connection r.1)

  abbrev greeted : ConnectOptions → Connection → Action S Error Bus
  greeted options connection = do
    packet ← lift (
        from_codec (
          encode_with_limits (hello options.client_id options.headers options.capabilities)
            options.frame_limits))
    from_io (t.send connection packet)
    reply ← from_io (t.receive connection options.frame_limits.maximum_frame_size)
    lift (welcomed options connection reply)

  -- A connection that is not returned is closed.
  abbrev close_on_error {ℓ} : {A : Type ℓ} → Connection → Result Error A × S → Result Error A × S
  close_on_error connection (ok a, s) = (ok a, s)
  close_on_error connection (err e, s) = (err e, t.close connection s)

  unfoldable pub connect : ConnectOptions → Action S Error Bus
  connect options = do
    connection ← from_io (t.connect options.socket)
    λ s. close_on_error connection (greeted options connection s)
