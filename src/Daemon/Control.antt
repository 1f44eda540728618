-- ===== src/Daemon/Control.antt =====
-- A client's control operations over the daemon: `Bus` of crates/bus-client/src/lib.rs on one side of
-- the socket, `dispatch_session` on the other.
use busd.Prelude.{
  ltb, ℕ, ◌≤◌, ◌≡◌, refl, false, Option, none, some, [], ◌∷◌, ◌++◌, arith, Result, ok, err,
  Result-cases, inl, inr, if◌then◌else◌, ◌==◌, ◌>>=◌,
}
use busd.Order.{nat_order, bytes_order}
use busd.Protocol.Writer.{push_u8}
use busd.Protocol.Types.{
  CodecError, Bytes, PeerId, Frame, protocol_error, control_result, FrameLimits, ControlOperation,
}
use busd.Protocol.Limits.{IsFrame}
use busd.Protocol.Encode.{encode_with_limits, encode_body}
use busd.Protocol.Decode.{decode_with_limits}
use busd.Protocol.RoundTrip.Packets.{decode-encode}
use busd.Protocol.ErrorFrames.{decode_error_packet}
use busd.Broker.Types.{Broker, Error}
use busd.Broker.Ownership.{is_ok}
use busd.Transport.{continue, lift, other, fail, pure, Connection, Sent, Sockets, send_packet}
use busd.Client.Transport.{Transport, Bus, Error as ClientError}
use busd.Client.Bus.{
  send_control, send_frame, receive_frame, control_outcome, decoded, same_operation_refl,
}
use busd.Broker.Messages.{error_text}
use busd.Daemon.Codes.{broker_error_code}
use busd.Daemon.Session.{control_reply, answer, handle, handle_packet, perform}
use busd.Daemon.Serve.{World, round}

-- The first packet for the connection, and the rest.
unfoldable pub take_first : Connection → Sent → Option Bytes × Sent
take_first peer [] = (none, [])
take_first peer ((c, packet) ∷ sent) =
    let rest = take_first peer sent in
    if c == peer then (some packet, sent) else (rest.0, (c, packet) ∷ rest.1)

-- The transport of a client whose session has the identifier `id`: the daemon's thread handles a
-- packet when it is sent, and what it sends to the client is received in order.
abbrev pub served : Sockets → FrameLimits → Connection → PeerId → ℕ → Transport World
served sockets limits peer id now = record {
  connect = λ socket. fail other;
  send = λ connection packet w. (ok tt, (round sockets limits peer id packet now w).1);
  receive =
      λ connection maximum w. let r = take_first peer w.sent in (ok r.0, record w { sent = r.1 });
  disconnect = λ connection. pure tt;
  close = λ connection w. w;
}

take_first_last :
    (peer : Connection) (packet : Bytes) (sent : Sent)
    → (take_first peer sent).0 ≡ none
    → take_first peer (sent ++ (peer, packet) ∷ []) ≡ (some packet, sent)
unfolding take_first
take_first_last peer packet [] h = ground arith
take_first_last peer packet ((c, p) ∷ sent) h = ground (arith, take_first_last peer packet sent)

take_first_none :
    (peer : Connection) (sent : Sent)
    → (take_first peer sent).0 ≡ none
    → take_first peer sent ≡ (none, sent)
unfolding take_first
take_first_none peer [] h = refl
take_first_none peer ((c, p) ∷ sent) h = ground (arith, take_first_none peer sent)

control_result_encodes :
    (operation : ControlOperation) (limits : FrameLimits)
    → 13 ≤ limits.maximum_frame_size
    → (packet : Bytes) × (encode_with_limits (control_result operation) limits ≡ ok packet)
unfolding encode_with_limits encode_body push_u8
control_result_encodes operation limits h =
    let fits : ltb limits.maximum_frame_size 13 ≡ false = ground arith in rw fits (_, refl)

-- What the client makes of the packet of an answer is a success exactly if the operation was one.
answered_outcome :
    (operation : ControlOperation) (limits : FrameLimits) (r : Result Error (Unit {0}))
    (frame : Frame) (packet : Bytes)
    → control_reply operation r ≡ answer frame
    → encode_with_limits frame limits ≡ ok packet
    → is_ok (decoded limits (some packet) >>= control_outcome operation) ≡ is_ok r
answered_outcome operation limits (ok u) frame packet a e =
    let d : decode_with_limits packet limits ≡ ok (control_result operation) =
      decode-encode (control_result operation) limits packet tt (ground arith) in
    rw d (ground (arith, same_operation_refl operation))
answered_outcome operation limits (err x) frame packet a e =
    elim (Result-cases (decode_with_limits packet limits)) [
      | inr (y, d) ↦ rw d refl
      | inl (f, d) ↦
          let g : frame ≡ protocol_error (broker_error_code x) (error_text x) = ground arith in
          let (code, diagnostic, q) =
            decode_error_packet (broker_error_code x) (error_text x) limits packet f (rw g at e)
              d in
          rw (d, q) refl
    ]

continue-lift :
    (x : Result ClientError (Option Frame)) (operation : ControlOperation) (w : World)
    → continue x (λ reply. lift (control_outcome operation reply)) w
      ≡ (x >>= control_outcome operation, w)
continue-lift (ok reply) operation w = refl
continue-lift (err e) operation w = refl

-- Only an error can be too large for the packet of an answer.
unanswered :
    (operation : ControlOperation) (limits : FrameLimits) (r : Result Error (Unit {0}))
    (frame : Frame) (x : CodecError)
    → 13 ≤ limits.maximum_frame_size
    → control_reply operation r ≡ answer frame
    → encode_with_limits frame limits ≡ err x
    → is_ok r ≡ false
unanswered operation limits (ok u) frame x h a e =
    let (packet, p) = control_result_encodes operation limits h in absurd (ground arith)
unanswered operation limits (err y) frame x h a e = refl

module _ (sockets : Sockets) (limits : FrameLimits) (peer : Connection) (id : PeerId) (now : ℕ)
    (bus : Bus) where
  -- The client and the daemon agree on the limits, nothing is left unread, and the client's socket
  -- takes what the daemon sends.
  pub record Synchronised (w : World) : Type 0 where
    pub same_limits : bus.frame_limits ≡ limits
    pub room : 13 ≤ limits.maximum_frame_size
    pub read : (take_first peer w.sent).0 ≡ none
    pub open_socket : (s : Sent) (packet : Bytes) → sockets.send s peer packet ≡ ok tt

  -- The client's call agrees with the broker's, in what it returns and in what it changes.
  pub record Agrees (w : World) (call : Result ClientError (Unit {0}) × World)
      (result : Result Error (Unit {0}) × Broker) : Type 0 where
    pub outcome : is_ok call.0 ≡ is_ok result.0
    pub broker : call.1.broker ≡ result.1
    pub sessions : call.1.sessions ≡ w.sessions
    pub sent : call.1.sent ≡ w.sent

  -- The packet that the daemon has sent to the client by the end of the round, if any.
  replied_packet : Result CodecError Bytes → Sent → Sent
  replied_packet (ok packet) sent = sent ++ (peer, packet) ∷ []
  replied_packet (err e) sent = sent

  round_control :
      (f frame : Frame) (b : Broker) (packet : Bytes) (w : World)
      → Synchronised w
      → IsFrame f
      → encode_with_limits f limits ≡ ok packet
      → handle id f now w.broker ≡ (answer frame, b)
      → (round sockets limits peer id packet now w).1
        ≡ record w { broker = b; sent = replied_packet (encode_with_limits frame limits) w.sent }
  unfolding round handle_packet perform send_packet replied_packet
  round_control f frame b packet w y i e h =
      let d : decode_with_limits packet limits ≡ ok f = decode-encode f limits packet i e in
      elim (Result-cases (encode_with_limits frame limits)) [
        | inl (p, q) ↦ rw (d, h, q, y.open_socket) refl
        | inr (x, q) ↦ rw (d, h, q) refl
      ]

  pub send_control-Agrees :
      (f frame : Frame) (operation : ControlOperation) (r : Result Error (Unit {0})) (b : Broker)
      (packet : Bytes) (w : World)
      → Synchronised w
      → IsFrame f
      → encode_with_limits f limits ≡ ok packet
      → control_reply operation r ≡ answer frame
      → handle id f now w.broker ≡ (answer frame, b)
      → Agrees w (send_control (served sockets limits peer id now) bus f operation w) (r, b)
  unfolding send_control send_frame receive_frame
  send_control-Agrees f frame operation r b packet w y i e a h =
      let k = round_control f frame b packet w y i e h in
      let none = take_first_none peer w.sent y.read in
      elim (Result-cases (encode_with_limits frame limits)) [
        | inl (p, q) ↦
            let first = take_first_last peer p w.sent y.read in
            rw (y.same_limits, e, k, q)
              (unfold replied_packet in
                rw (first, continue-lift (decoded limits (some p)) operation)
                  (record {
                    outcome = answered_outcome operation limits r frame p a q;
                    broker = refl;
                    sessions = refl;
                    sent = refl;
                  }))
        | inr (x, q) ↦
            rw (y.same_limits, e, k, q)
              (unfold replied_packet in
                rw none (record {
                  outcome = ground (arith, unanswered operation limits r frame x y.room a q);
                  broker = refl;
                  sessions = refl;
                  sent = refl;
                }))
      ]
