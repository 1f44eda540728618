-- ===== src/Daemon/Serve.antt =====
-- `dispatch_session` and `serve_peer`, from the first packet to the end of the connection, while no
-- other thread runs. Daemon/System.antt has the interleavings.
use busd.Prelude.{ℕ, Bool, true, false, List, [], ◌∷◌, Result, ok, err}
use busd.Order.{nat_order, bytes_order}
use busd.Map.{insert, remove}
use busd.Protocol.Types.{
  Bytes, PeerId, Frame, hello, welcome, FrameLimits, CodecError, ProtocolErrorCode,
}
use busd.Protocol.Bytes.{ascii}
use busd.Protocol.Messages.{codec_error_text}
use busd.Protocol.Decode.{decode_with_limits}
use busd.Policy.{Credentials}
use busd.Broker.Types.{Broker, ConnectedPeer, DeliveryEvent, Error}
use busd.Broker.Messages.{error_text}
use busd.Broker.Session.{connect_session}
use busd.Broker.Disconnect.{disconnect_with_events}
use busd.Transport.{
  IoError, connection_reset, other, broker, Io, ◌>>=◌, ◌>>◌, pure, fail, continue, Connection, Sent,
  Sockets,
}
use busd.Daemon.Codes.{codec_error_code}
use busd.Daemon.Events.{Sessions, dispatch_delivery_events}
use busd.Daemon.Session.{handle_packet, perform, send_frame, reject}

-- What `receive_packet` returns, and the clock after it.
pub data Received : Type 0 where
  packet : Bytes → ℕ → Received
  closed : Received
  failed : IoError → Received

-- What the threads of the daemon share, and what they have sent.
pub record World : Type 0 where
  pub broker : Broker
  pub sessions : Sessions
  pub sent : Sent

module _ {ℓ} {A : Type ℓ} where
  abbrev pub on_sent : (Sessions → Io Sent A) → Io World A
  on_sent f w = let r = f w.sessions w.sent in (r.0, record w { sent = r.1 })

  abbrev pub on_broker : (Broker → A × Broker) → Io World A
  on_broker f w = let r = f w.broker in (ok r.0, record w { broker = r.1 })

abbrev pub modify : (World → World) → Io World (Unit {0})
modify f w = (ok tt, f w)

module _ (sockets : Sockets) (limits : FrameLimits) (peer : Connection) where
  -- One round of the loop: a packet is handled, and the session goes on or ends.
  unfoldable pub round : PeerId → Bytes → ℕ → Io World Bool
  unfolding perform
  round peer_id bytes now_ms = do
    reply ← on_broker (handle_packet peer_id limits bytes now_ms)
    on_sent (λ sessions. perform sockets peer sessions limits reply)

  -- A reset by the client ends the session as a close does.
  abbrev pub session_end : IoError → Io World (Unit {0})
  session_end connection_reset = pure tt
  session_end e = fail e

  abbrev go_on : Bool → Io World (Unit {0}) → Io World (Unit {0})
  go_on true rest = rest
  go_on false rest = pure tt

  -- After the last element the client has closed its side.
  unfoldable pub dispatch_session : PeerId → List Received → Io World (Unit {0})
  unfolding round
  dispatch_session peer_id [] = pure tt
  dispatch_session peer_id (closed ∷ inputs) = pure tt
  dispatch_session peer_id (failed e ∷ inputs) = session_end e
  dispatch_session peer_id (packet bytes now_ms ∷ inputs) = do
    more ← round peer_id bytes now_ms
    go_on more (dispatch_session peer_id inputs)

  abbrev or_broker : Result Error (List DeliveryEvent) → Io World (List DeliveryEvent)
  or_broker (ok events) = pure events
  or_broker (err e) = fail (broker e)

  abbrev or_other : Result IoError (Unit {0}) → Result IoError (Unit {0})
  or_other (ok u) = ok u
  or_other (err e) = err other

  -- `io::Error::other` hides the kind of an error while the events are dispatched.
  abbrev pub dispatch_last : List DeliveryEvent → Io World (Unit {0})
  dispatch_last events w =
      let r = on_sent (λ sessions. dispatch_delivery_events sockets sessions events limits) w in
      (or_other r.0, r.1)

  -- The end of `serve_peer`, whatever `dispatch_session` returned.
  unfoldable pub tear_down : PeerId → Io World (Unit {0})
  unfolding dispatch_delivery_events
  tear_down peer_id = do
    modify (λ w. record w { sessions = remove peer_id w.sessions })
    left ← on_broker (disconnect_with_events peer_id)
    events ← or_broker left
    dispatch_last events

  abbrev finally : Result IoError (Unit {0}) → Io World (Unit {0}) → Io World (Unit {0})
  finally r m w = let t = m w in continue t.0 (λ u v. (r, v)) t.1

  unfoldable pub run_session : PeerId → List Received → Io World (Unit {0})
  unfolding dispatch_session tear_down
  run_session peer_id inputs w =
      let r = dispatch_session peer_id inputs w in finally r.0 (tear_down peer_id) r.1

  -- WELCOME, and the registration of the connection.
  unfoldable pub welcome_session : ConnectedPeer → Io World (Unit {0})
  welcome_session session = do
    on_sent (λ sessions. send_frame sockets peer (welcome session.id session.capabilities) limits)
    on_sent (λ sessions sent. (sockets.clone sent peer, sent))
    modify (λ w. record w { sessions = insert session.id peer w.sessions })

  abbrev refuse_peer : ProtocolErrorCode → Bytes → Io World (Unit {0})
  refuse_peer code diagnostic = on_sent (λ sessions. reject sockets peer code diagnostic)

  abbrev serve_connected : Result Error ConnectedPeer → List Received → Io World (Unit {0})
  serve_connected (err e) inputs = refuse_peer ProtocolErrorCode.invalid_state (error_text e)
  serve_connected (ok session) inputs = do welcome_session session; run_session session.id inputs

  abbrev serve_hello : Credentials → Result CodecError Frame → List Received → Io World (Unit {0})
  serve_hello credentials (ok (hello client_id headers capabilities)) inputs = do
    connected ← on_broker (
        connect_session credentials
          (record { client_id = client_id; headers = headers; capabilities = capabilities }))
    serve_connected connected inputs
  serve_hello credentials (ok _) inputs =
      refuse_peer ProtocolErrorCode.invalid_state (ascii "HELLO must be the first frame")
  serve_hello credentials (err e) inputs = refuse_peer (codec_error_code e) (codec_error_text e)

  -- `serve_peer`, from the credentials that the kernel gives of the peer.
  unfoldable pub serve_peer : Credentials → List Received → Io World (Unit {0})
  unfolding welcome_session run_session reject
  serve_peer credentials [] = pure tt
  serve_peer credentials (closed ∷ inputs) = pure tt
  serve_peer credentials (failed e ∷ inputs) = fail e
  serve_peer credentials (packet bytes now_ms ∷ inputs) =
      serve_hello credentials (decode_with_limits bytes limits) inputs
