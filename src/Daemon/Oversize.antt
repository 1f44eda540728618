-- ===== src/Daemon/Oversize.antt =====
-- A message that the header `broker.sender` makes too large to send.
use busd.Prelude.{
  ℕ, ◌<◌, ◌≡◌, refl, true, false, List, ◌∷◌, arith, ok, err, Result-cases, inl, inr, length, ltb,
}
use busd.Order.{nat_order, bytes_order}
use busd.Map.{insert, contains_key}
use busd.Map.Laws.{length-insert_fresh}
use busd.Protocol.Types.{
  Bytes, PeerId, Message, message, FrameLimits, Headers, unsigned, CodecError,
}
use busd.Protocol.Writer.{push_headers}
use busd.Protocol.Encode.{encode_with_limits, encode_body, push_message}
use busd.Protocol.Decode.{decode_with_limits}
use busd.Broker.Types.{DeliveryEvent, deliver}
use busd.Transport.{Connection, invalid_data, Sockets, Sent}
use busd.Daemon.Session.{handle, handle_packet, perform}
use busd.Daemon.Serve.{World, Received, packet, round, dispatch_session}
use busd.Broker.Responses.{begin_delivery}
use busd.Daemon.Events.{Sessions, sender_header, labelled, dispatch_event, dispatch_delivery_events}

push_headers_over :
    (headers : Headers) (limits : FrameLimits)
    → limits.maximum_headers < length headers
    → (e : CodecError) × (push_headers headers limits ≡ err e)
unfolding push_headers
push_headers_over headers limits h =
    let t : ltb limits.maximum_headers (length headers) ≡ true = ground arith in rw t (_, refl)

push_message_over :
    (m : Message) (limits : FrameLimits)
    → limits.maximum_headers < length m.headers
    → (e : CodecError) × (push_message m limits ≡ err e)
unfolding push_message
push_message_over m limits h = elim (Result-cases (push_message m limits)) [
  | inr x ↦ x
  | inl (w, e) ↦ absurd (let (x, p) = push_headers_over m.headers limits h in ground arith)
]

-- A message with as many headers as the limits allow, `broker.sender` not among them.
pub record IsFull (m : Message) (limits : FrameLimits) : Type 0 where
  pub full : length m.headers ≡ limits.maximum_headers
  pub unlabelled : contains_key sender_header m.headers ≡ false

labelled_over :
    (sender : PeerId) (m : Message) (limits : FrameLimits)
    → IsFull m limits
    → (e : CodecError) × (encode_with_limits (labelled sender (message m)) limits ≡ err e)
unfolding labelled encode_with_limits encode_body
labelled_over sender m limits f =
    let m' = record m { headers = insert sender_header (unsigned sender) m.headers } in
    let over : limits.maximum_headers < length m'.headers =
      omega (
        arith,
        f.full,
        length-insert_fresh sender_header (unsigned sender) m.headers f.unlabelled,
      ) in
    let (e, p) = push_message_over m' limits over in (e, rw p refl)

pub dispatch_full :
    (sockets : Sockets) (sessions : Sessions) (limits : FrameLimits) (sender : PeerId)
    (recipients : List PeerId) (m : Message) (events : List DeliveryEvent) (s : Sent)
    → IsFull m limits
    → (e : CodecError) × (dispatch_delivery_events sockets sessions
          (deliver sender recipients (message m) ∷ events)
          limits
          s
        ≡ (err (invalid_data e), s))
unfolding dispatch_delivery_events dispatch_event
dispatch_full sockets sessions limits sender recipients m events s f =
    let (e, p) = labelled_over sender m limits f in (e, rw p refl)

-- A client may send a message with as many headers as the limits allow. When the broker accepts it
-- for delivery, the daemon cannot encode it with `broker.sender` added: nothing is sent, to the
-- recipients or to the client, and the client's session ends with the codec's error.
pub dispatch_session_full :
    (sockets : Sockets) (limits : FrameLimits) (peer : Connection) (id : PeerId) (bytes : Bytes)
    (now : ℕ) (inputs : List Received) (w : World) (m : Message) (recipients : List PeerId)
    (events : List DeliveryEvent)
    → IsFull m limits
    → decode_with_limits bytes limits ≡ ok (message m)
    → (begin_delivery id (message m) now w.broker).0
      ≡ ok (deliver id recipients (message m) ∷ events)
    → let r = dispatch_session sockets limits peer id (packet bytes now ∷ inputs) w in
      (r.1.sent ≡ w.sent) × ((e : CodecError) × (r.0 ≡ err (invalid_data e)))
unfolding dispatch_session round handle_packet handle perform
dispatch_session_full sockets limits peer id bytes now inputs w m recipients events f d b =
    let (e, p) = dispatch_full sockets w.sessions limits id recipients m events w.sent f in
    rw (d, b, p) (refl, (e, refl))
