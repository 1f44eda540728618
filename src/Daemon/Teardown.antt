-- ===== src/Daemon/Teardown.antt =====
-- The end of a session, while no other thread runs.
use busd.Prelude.{ℕ, ◌≡◌, refl, ap, ◌∙◌, false, true, List, [], ◌∷◌, arith, Result-cases, inl, inr}
use busd.Order.{nat_order, bytes_order}
use busd.Map.{remove, contains_key}
use busd.Protocol.Types.{Bytes, PeerId, FrameLimits}
use busd.Broker.Types.{Broker}
use busd.Broker.Disconnect.{disconnect_with_events, remove_peer, fail_waiting}
use busd.Broker.Invariant.{IsWellFormed, IsConnected}
use busd.Broker.Release.{disconnect_parts, Released, disconnect-Released}
use busd.Broker.Steps.Fixed.{Quiet, Quiet-trans}
use busd.Transport.{IoError, connection_reset, Connection, Sockets}
use busd.Daemon.Requests.{handle_packet-Quiet, handle_packet-IsWellFormed}
use busd.Daemon.Serve.{
  World, Received, packet, closed, failed, round, session_end, dispatch_session, tear_down,
  run_session,
}

-- The registered connections stay, the broker keeps its peers and stays well formed.
record Serving (v w : World) : Type 0 where
  pub sessions : w.sessions ≡ v.sessions
  pub quiet : Quiet v.broker w.broker
  pub broker : IsWellFormed w.broker

Serving-trans : (u v w : World) → Serving u v → Serving v w → Serving u w
Serving-trans u v w s t = record {
  sessions = t.sessions ∙ s.sessions;
  quiet = Quiet-trans u.broker v.broker w.broker s.quiet t.quiet;
  broker = t.broker;
}

module _ (sockets : Sockets) (limits : FrameLimits) (peer : Connection) (id : PeerId) where
  round-Serving :
      (bytes : Bytes) (now : ℕ) (w : World)
      → IsWellFormed w.broker
      → Serving w (round sockets limits peer id bytes now w).1
  unfolding round
  round-Serving bytes now w v = record {
    sessions = refl;
    quiet = handle_packet-Quiet id limits bytes now w.broker;
    broker = handle_packet-IsWellFormed id limits bytes now w.broker v;
  }

  session_end-world : (e : IoError) (w : World) → (session_end sockets limits peer e w).1 ≡ w
  session_end-world connection_reset w = refl
  session_end-world _ w = refl

  dispatch_session-Serving :
      (inputs : List Received) (w : World)
      → IsWellFormed w.broker
      → Serving w (dispatch_session sockets limits peer id inputs w).1
  unfolding dispatch_session
  dispatch_session-Serving [] w v = record {
    sessions = refl;
    quiet = (refl, refl, refl);
    broker = v;
  }
  dispatch_session-Serving (closed ∷ inputs) w v = record {
    sessions = refl;
    quiet = (refl, refl, refl);
    broker = v;
  }
  dispatch_session-Serving (failed e ∷ inputs) w v =
      rw (session_end-world e w)
        (record { sessions = refl; quiet = (refl, refl, refl); broker = v })
  dispatch_session-Serving (packet bytes now ∷ inputs) w v =
      let s = round-Serving bytes now w v in
      let next = (round sockets limits peer id bytes now w).1 in
      let t = dispatch_session-Serving inputs next s.broker in
      elim (Result-cases (round sockets limits peer id bytes now w).0) [
        | inl (true, e) ↦ rw e (Serving-trans w next _ s t)
        | inl (false, e) ↦ rw e s
        | inr (x, e) ↦ rw e s
      ]

  tear_down-world :
      (w : World)
      → IsConnected w.broker.peers id
      → let v = (tear_down sockets limits peer id w).1 in
        (v.sessions ≡ remove id w.sessions) × (v.broker ≡ (disconnect_with_events id w.broker).1)
  unfolding tear_down disconnect_with_events remove_peer fail_waiting
  tear_down-world w h = rw h (refl, refl)

  run_session-world :
      (inputs : List Received) (w : World)
      → (run_session sockets limits peer id inputs w).1
        ≡ (tear_down sockets limits peer id (dispatch_session sockets limits peer id inputs w).1).1
  unfolding run_session
  run_session-world inputs w = ground arith

-- What is left of a session that was started for a connected peer: its connection is registered no
-- more, its peer is removed and released, and all other peers are as before.
pub record Ended (id : PeerId) (w v : World) : Type 0 where
  pub sessions : v.sessions ≡ remove id w.sessions
  pub peers : v.broker.peers ≡ remove id w.broker.peers
  pub before : Broker
  pub quiet : Quiet w.broker before
  pub released : Released id before v.broker

-- However a session ends, by the client's closing, by a refused frame, or by an error of the
-- transport or of the codec, whatever the client has sent and whatever errors its sockets give, the
-- peer is unregistered, disconnected and released, if no other thread runs meanwhile.
pub run_session-Ended :
    (sockets : Sockets) (limits : FrameLimits) (peer : Connection) (id : PeerId)
    (inputs : List Received) (w : World)
    → IsWellFormed w.broker
    → IsConnected w.broker.peers id
    → Ended id w (run_session sockets limits peer id inputs w).1
run_session-Ended sockets limits peer id inputs w v h =
    let u = (dispatch_session sockets limits peer id inputs w).1 in
    let s = dispatch_session-Serving sockets limits peer id inputs w v in
    let k : IsConnected u.broker.peers id = ap (contains_key id) s.quiet.2 ∙ h in
    let t = tear_down-world sockets limits peer id u k in
    rw (run_session-world sockets limits peer id inputs w) (record {
      sessions = ground (arith, t.0, s.sessions);
      peers = ground (arith, t.1, s.quiet.2, (disconnect_parts id u.broker k).0);
      before = u.broker;
      quiet = s.quiet;
      released = rw t.1 (disconnect-Released id u.broker s.broker k);
    })
