-- ===== src/Daemon/System/Members.antt =====
-- The moves that connect a peer and that disconnect one, and those of the scheduler.
use busd.Prelude.{
  ap, Option-cases, if◌then◌else◌, ℕ, ◌+◌, ◌≡◌, refl, true, Option, none, some, List, [], ◌∷◌,
  arith, ok, Result-cases, inl, inr,
}
use busd.Order.{nat_order, bytes_order, same, same→eq, same_refl}
use busd.Map.{get, contains_key}
use busd.Map.Laws.{get-insert, contains_key-insert, contains_key-remove}
use busd.Protocol.Types.{PeerId, FrameLimits}
use busd.Policy.{Credentials}
use busd.Broker.Types.{Broker, ClientHello, DeliveryEvent, ConnectedPeer}
use busd.Broker.Session.{connect_session, admit, record_monitor}
use busd.Broker.Disconnect.{disconnect_with_events, remove_peer, fail_waiting}
use busd.Broker.Invariant.{IsWellFormed}
use busd.Broker.Invariant.Session.{connect_session-IsWellFormed}
use busd.Broker.Invariant.Disconnect.{disconnect_with_events-IsWellFormed}
use busd.Broker.Release.{disconnect_parts}
use busd.Broker.Refusals.{connect-refused}
use busd.Broker.Steps.{Operation, run, run-IsWellFormed}
use busd.Broker.Steps.Fixed.{run-Quiet, connect_session-admit, disconnect-Later}
use busd.Transport.{Connection, Sockets}
use busd.Daemon.System.{
  Phase, welcoming, departing, reporting, System, joined, departs, wakes, delivers, set_phase,
}
use busd.Daemon.System.Moves.{sends-Effect}
use busd.Daemon.System.Invariant.{IsRunning, Effect, still, turn, none-Effect, is_attached, is_live}

-- A connection that was accepted: its identifier, and what it changes among the peers.
record Joined (b c : Broker) (session : ConnectedPeer) : Type 0 where
  pub id : session.id ≡ b.next_peer
  pub next_peer : c.next_peer ≡ b.next_peer + 1
  pub peers :
      (j : PeerId)
      → contains_key j c.peers ≡ (if same j b.next_peer then true else contains_key j b.peers)

connect_session-Joined :
    (credentials : Credentials) (hello : ClientHello) (b : Broker) (session : ConnectedPeer)
    → (connect_session credentials hello b).0 ≡ ok session
    → Joined b (connect_session credentials hello b).1 session
connect_session-Joined credentials hello b session h =
    let a = connect_session-admit credentials hello b session h in
    rw a.1 (record {
      id = a.0;
      next_peer = unfold admit record_monitor in refl;
      peers = λ j. unfold admit record_monitor in contains_key-insert j b.next_peer _ b.peers;
    })

module _ (s : System) (r : IsRunning s) where
  -- No thread stands under the identifier that the next peer gets.
  next_free : get s.broker.next_peer s.threads ≡ none
  next_free = elim (Option-cases (get s.broker.next_peer s.threads)) [
    | inl e ↦ e
    | inr (phase, e) ↦ absurd (omega (arith, r.below s.broker.next_peer (ap is_live e)))
  ]

  accepted-Effect :
      (session : ConnectedPeer) (connection : Connection) (c : Broker)
      → Joined s.broker c session
      → IsWellFormed c
      → Effect s (set_phase session.id (welcoming session connection) (record s { broker = c }))
  accepted-Effect session connection c j w =
      turn session.id (some (welcoming session connection)) (record {
        turns = record {
          threads = λ k. get-insert k session.id _ s.threads;
          sessions = λ k. ground (arith, r.registered k, next_free, same→eq k session.id, j.id);
        };
        broker = w;
        later = omega (arith, j.next_peer);
        others = λ k h. ground (arith, j.peers k, j.id);
        attached = λ h. ground (arith, j.peers session.id, j.id, same_refl session.id);
        live = λ h. omega (arith, j.next_peer, j.id);
        known = inl j.id;
        ended = λ h. cc;
        exact = λ h e. ground (arith, j.peers session.id, j.id, same_refl session.id);
      })

  pub joined-Effect :
      (sockets : Sockets) (limits : FrameLimits) (credentials : Credentials) (hello : ClientHello)
      (connection : Connection)
      → Effect s (joined sockets limits connection s (connect_session credentials hello s.broker))
  joined-Effect sockets limits credentials hello connection =
      let w = connect_session-IsWellFormed credentials hello s.broker r.broker in
      elim (Result-cases (connect_session credentials hello s.broker).0) [
        | inl (session, e) ↦ rw e (
            accepted-Effect session connection _
              (connect_session-Joined credentials hello s.broker session e) w)
        | inr (x, e) ↦
            rw (e, connect-refused credentials hello s.broker x e)
              (still refl refl (refl, refl, refl) r.broker)
      ]

  -- The peer of a thread that is about to disconnect it is connected.
  pub disconnect_succeeds :
      (id : PeerId)
      → get id s.threads ≡ some departing
      → (events : List DeliveryEvent) × ((disconnect_with_events id s.broker).0 ≡ ok events)
  unfolding disconnect_with_events remove_peer fail_waiting
  disconnect_succeeds id e = rw (r.attached id (ap is_attached e)) (_, refl)

  departed-Effect :
      (id : PeerId) (events : List DeliveryEvent)
      → get id s.threads ≡ some departing
      → Effect s (
          set_phase id
            (reporting events)
            (record s { broker = (disconnect_with_events id s.broker).1 }))
  departed-Effect id events e =
      let parts = disconnect_parts id s.broker (r.attached id (ap is_attached e)) in
      let later = (disconnect-Later id s.broker).1 in
      turn id (some (reporting events)) (record {
        turns = record {
          threads = λ k. get-insert k id _ s.threads;
          sessions = λ k. ground (arith, r.registered k, e, same→eq k id);
        };
        broker = disconnect_with_events-IsWellFormed id s.broker r.broker;
        later = later;
        others = λ k h. ground (arith, parts.0, contains_key-remove k id s.broker.peers);
        attached = λ h. cc;
        live = λ h. omega (arith, r.below id (ap is_live e), later);
        known = inr (ap is_live e);
        ended = λ h. cc;
        exact =
            λ h q. ground (arith, parts.0, contains_key-remove id id s.broker.peers, same_refl id);
      })

  pub departs-Effect :
      (sockets : Sockets) (limits : FrameLimits) (id : PeerId) (o : Option Phase)
      → get id s.threads ≡ o
      → Effect s (departs sockets limits id o s)
  departs-Effect sockets limits id (some departing) e =
      let (events, h) = disconnect_succeeds id e in rw h (departed-Effect id events e)
  departs-Effect sockets limits id _ e = none-Effect s r

  pub wakes-Effect :
      (sockets : Sockets) (limits : FrameLimits) (now : ℕ) (events : List DeliveryEvent)
      → Effect s (wakes sockets limits now events s)
  unfolding run
  wakes-Effect sockets limits now [] =
      still refl refl (run-Quiet (Operation.advance now) s.broker refl)
        (run-IsWellFormed (Operation.advance now) s.broker r.broker)
  wakes-Effect sockets limits now (event ∷ events) = none-Effect s r

  pub delivers-Effect :
      (sockets : Sockets) (limits : FrameLimits) (events : List DeliveryEvent)
      → Effect s (delivers sockets limits events s)
  delivers-Effect sockets limits [] = none-Effect s r
  delivers-Effect sockets limits (event ∷ events) =
      sends-Effect (λ t. record t { scheduled = events }) (λ t. record t { scheduled = [] }) _ s
        (λ sent. still refl refl (refl, refl, refl) r.broker)
        (λ sent. still refl refl (refl, refl, refl) r.broker)
