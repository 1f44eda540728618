-- ===== src/Daemon/Events.antt =====
-- `dispatch_delivery_events`: the frames of the broker's events, and whom they go to.
use busd.Prelude.{List, [], ◌∷◌, Result, ok, err, if◌then◌else◌}
use busd.Order.{nat_order, bytes_order}
use busd.Map.{Map, insert, contains}
use busd.Protocol.Types.{
  Bytes, Text, PeerId, Frame, FrameLimits, message, delivery_result, unsigned,
}
use busd.Protocol.Bytes.{ascii}
use busd.Protocol.Encode.{encode_with_limits}
use busd.Broker.Types.{DeliveryEvent, deliver, result}
use busd.Transport.{
  IoError, Io, ◌>>=◌, ◌>>◌, pure, fail, lift, codec_io, Connection, Sent, Sockets, send_packet,
  is_gone,
}

abbrev pub Sessions : Type 0
Sessions = Map PeerId Connection

abbrev pub sender_header : Text
sender_header = ascii "broker.sender"

-- The message with the header that names its authenticated sender.
unfoldable pub labelled : PeerId → Frame → Frame
labelled sender (message m) =
    message (record m { headers = insert sender_header (unsigned sender) m.headers })
labelled sender frame = frame

-- `let (recipients, frame) = match event`
abbrev pub event_frame : DeliveryEvent → Frame
event_frame (deliver sender recipients frame) = labelled sender frame
event_frame (result sender id outcome) = delivery_result id outcome

abbrev pub event_recipients : DeliveryEvent → List PeerId
event_recipients (deliver sender recipients frame) = recipients
event_recipients (result sender id outcome) = sender ∷ []

-- `iter().filter(|(id, _)| recipients.contains(id))`
unfoldable pub outputs : List PeerId → Sessions → List Connection
outputs recipients [] = []
outputs recipients ((id, connection) ∷ sessions) =
    let rest = outputs recipients sessions in
    if contains id recipients then connection ∷ rest else rest

module _ (sockets : Sockets) where
  -- `map(|(_, connection)| connection.try_clone()).collect::<io::Result<_>>()?`
  unfoldable pub clone_all : List Connection → Io Sent (Unit {0})
  clone_all [] = pure tt
  clone_all (connection ∷ connections) = do
    λ sent. (sockets.clone sent connection, sent)
    clone_all connections

  -- A recipient that is gone is passed over.
  abbrev pub unless_gone : Result IoError (Unit {0}) → Io Sent (Unit {0})
  unless_gone (ok u) = pure tt
  unless_gone (err e) = if is_gone e then pure tt else fail e

  -- `if let Err(error) = output.send_packet(&packet)`
  unfoldable pub send_or_skip : Bytes → Connection → Io Sent (Unit {0})
  unfolding send_packet
  send_or_skip packet connection sent =
      let answer = send_packet sockets connection packet sent in unless_gone answer.0 answer.1

  unfoldable pub send_all : Bytes → List Connection → Io Sent (Unit {0})
  unfolding send_or_skip
  send_all packet [] = pure tt
  send_all packet (connection ∷ connections) = do
    send_or_skip packet connection
    send_all packet connections

  -- One round of the loop.
  unfoldable pub dispatch_event : Sessions → FrameLimits → DeliveryEvent → Io Sent (Unit {0})
  unfolding clone_all send_all outputs labelled
  dispatch_event sessions limits event = do
    packet ← lift (codec_io (encode_with_limits (event_frame event) limits))
    clone_all (outputs (event_recipients event) sessions)
    send_all packet (outputs (event_recipients event) sessions)

  unfoldable pub dispatch_delivery_events :
      Sessions → List DeliveryEvent → FrameLimits → Io Sent (Unit {0})
  unfolding dispatch_event
  dispatch_delivery_events sessions [] limits = pure tt
  dispatch_delivery_events sessions (event ∷ events) limits = do
    dispatch_event sessions limits event
    dispatch_delivery_events sessions events limits
