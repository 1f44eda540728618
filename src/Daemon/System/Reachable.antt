-- ===== src/Daemon/System/Reachable.antt =====
-- What holds after any sequence of moves of the daemon's threads.
use busd.Prelude.{
  ok, ◌<◌, ◌≡◌, refl, ap, ◌∙◌, true, false, none, some, List, [], arith, if◌then◌else◌,
}
use busd.Order.{nat_order, bytes_order, same, same→eq}
use busd.Map.{get, contains_key}
use busd.Protocol.Types.{PeerId, FrameLimits}
use busd.Policy.{Policy}
use busd.Broker.Types.{DeliveryEvent, Limits}
use busd.Broker.Disconnect.{disconnect_with_events}
use busd.Broker.Invariant.{empty_broker-IsWellFormed}
use busd.Broker.Release.{Released, disconnect-Released}
use busd.Transport.{Sockets}
use busd.Daemon.System.{
  departing, System, Move, join, greet, register, hang_up, proceed, unregister, depart, report,
  receive, wake, deliver_next, advance, Runs, here, next, started,
}
use busd.Daemon.System.Invariant.{
  IsRunning, Effect, still, turn, Effect-IsRunning, attached-live, is_attached, is_live,
}
use busd.Daemon.System.Moves.{
  greets-Effect, registers-Effect, receives-Effect, hangs_up-Effect, proceeds-Effect,
  unregisters-Effect, reports-Effect,
}
use busd.Daemon.System.Members.{
  joined-Effect, departs-Effect, wakes-Effect, delivers-Effect, disconnect_succeeds,
}

pub started-IsRunning : (policy : Policy) (limits : Limits) → IsRunning (started policy limits)
started-IsRunning policy limits = record {
  broker = empty_broker-IsWellFormed policy limits [];
  attached = λ id h. cc;
  registered = λ id. refl;
  below = λ id h. cc;
}

-- The peer is connected, and no thread is left that would disconnect it.
pub record IsAbandoned (id : PeerId) (s : System) : Type 0 where
  pub connected : contains_key id s.broker.peers ≡ true
  pub no_thread : get id s.threads ≡ none
  pub below : id < s.broker.next_peer

Effect-IsAbandoned : (id : PeerId) (s t : System) → Effect s t → IsAbandoned id s → IsAbandoned id t
Effect-IsAbandoned id s t (still h k q w) a = record {
  connected = ground (arith, q.2, a.connected);
  no_thread = ground (arith, h, a.no_thread);
  below = omega (arith, q.1, a.below);
}
Effect-IsAbandoned id s t (turn j o u) a =
    let other : same id j ≡ false =
      ground (arith, same→eq id j, u.known, ap is_live a.no_thread, a.below) in
    record {
      connected = u.others id other ∙ a.connected;
      no_thread = ground (arith, u.turns.threads id, a.no_thread);
      below = omega (arith, u.later, a.below);
    }

Effect_ends :
    (id : PeerId) (s t : System)
    → Effect s t
    → IsRunning s
    → is_attached (get id s.threads) ≡ true
    → get id t.threads ≡ none
    → IsAbandoned id t
Effect_ends id s t (still h k q w) r a e = absurd (ground (arith, h, ap is_attached e))
Effect_ends id s t (turn j o u) r a e =
    let ends : is_live (if same id j then o else get id s.threads) ≡ false =
      ground (arith, u.turns.threads id, ap is_live e) in
    record {
      connected =
          ground
            (arith, u.others id, u.ended, r.attached id a, same→eq id j, ends, attached-live _ a);
      no_thread = e;
      below = omega (arith, u.later, r.below id (attached-live _ a));
    }

module _ (sockets : Sockets) (limits : FrameLimits) where
  pub advance-Effect : (m : Move) (s : System) → IsRunning s → Effect s (advance sockets limits m s)
  unfolding advance
  advance-Effect (join credentials hello connection) s r =
      joined-Effect s r sockets limits credentials hello connection
  advance-Effect (greet id) s r = greets-Effect sockets limits id s r _ refl
  advance-Effect (register id) s r = registers-Effect sockets limits id s r _ refl
  advance-Effect (receive id bytes now) s r = receives-Effect sockets limits id s r bytes now _ refl
  advance-Effect (hang_up id) s r = hangs_up-Effect sockets limits id s r _ refl
  advance-Effect (proceed id) s r = proceeds-Effect sockets limits id s r _ refl
  advance-Effect (unregister id) s r = unregisters-Effect sockets limits id s r _ refl
  advance-Effect (depart id) s r = departs-Effect s r sockets limits id _ refl
  advance-Effect (report id) s r = reports-Effect sockets limits id s r _ refl
  advance-Effect (wake now) s r = wakes-Effect s r sockets limits now _
  advance-Effect deliver_next s r = delivers-Effect s r sockets limits _

  advance-IsRunning : (m : Move) (s : System) → IsRunning s → IsRunning (advance sockets limits m s)
  advance-IsRunning m s r = Effect-IsRunning s _ (advance-Effect m s r) r

  pub Runs-keeps : {s t : System} → Runs sockets limits s t → IsRunning s → IsRunning t
  Runs-keeps here r = r
  Runs-keeps (next {t} l m) r = advance-IsRunning m t (Runs-keeps l r)

  Runs-IsAbandoned :
      (id : PeerId) {s t : System}
      → Runs sockets limits s t
      → IsRunning s
      → IsAbandoned id s
      → IsAbandoned id t
  Runs-IsAbandoned id here r a = a
  Runs-IsAbandoned id (next {t} l m) r a =
      Effect-IsAbandoned id t _ (advance-Effect m t (Runs-keeps l r)) (Runs-IsAbandoned id l r a)

-- However the threads of the daemon are interleaved, its broker is well formed, a connection is
-- registered exactly while its thread is between the registration and the removal, every thread
-- that has not yet disconnected its peer finds that peer connected, and the identifiers of all
-- threads lie below the next one.
pub Runs-IsRunning :
    (sockets : Sockets) (frame_limits : FrameLimits) (policy : Policy) (limits : Limits)
    {s : System}
    → Runs sockets frame_limits (started policy limits) s
    → IsRunning s
Runs-IsRunning sockets frame_limits policy limits l =
    Runs-keeps sockets frame_limits l (started-IsRunning policy limits)

-- However the threads are interleaved, the disconnection at the end of a session succeeds, and it
-- releases all that the peer owned, subscribed to and was awaited for.
pub Runs-depart :
    (sockets : Sockets) (frame_limits : FrameLimits) (policy : Policy) (limits : Limits)
    (id : PeerId) {s : System}
    → Runs sockets frame_limits (started policy limits) s
    → get id s.threads ≡ some departing
    → ((events : List DeliveryEvent) × ((disconnect_with_events id s.broker).0 ≡ ok events))
      × Released id s.broker (disconnect_with_events id s.broker).1
Runs-depart sockets frame_limits policy limits id {s} l e =
    let r = Runs-IsRunning sockets frame_limits policy limits l in
    (
      disconnect_succeeds s r id e,
      disconnect-Released id s.broker r.broker (r.attached id (ap is_attached e)),
    )

-- A thread that ends before it has disconnected its peer leaves that peer connected for ever,
-- whatever the threads do afterwards.
pub abandoned_stays :
    (sockets : Sockets) (frame_limits : FrameLimits) (id : PeerId) (m : Move) (s : System)
    {t : System}
    → IsRunning s
    → is_attached (get id s.threads) ≡ true
    → get id (advance sockets frame_limits m s).threads ≡ none
    → Runs sockets frame_limits (advance sockets frame_limits m s) t
    → contains_key id t.broker.peers ≡ true
abandoned_stays sockets frame_limits id m s r a e l =
    let v = advance-Effect sockets frame_limits m s r in
    (Runs-IsAbandoned sockets frame_limits id l (Effect-IsRunning s _ v r)
      (Effect_ends id s _ v r a e)).connected
