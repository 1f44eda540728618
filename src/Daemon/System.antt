-- ===== src/Daemon/System.antt =====
-- The threads of the daemon, one for each connection and the scheduler, in any interleaving. A move
-- is what a thread does between two points where others can run: it holds the broker's lock once, or
-- the lock of the sessions once, or sends. Some moves are coarser than the program: the sends of one
-- event follow the choice of its recipients in the same move, although the lock of the sessions is
-- released before them, and a refused client is told so in the move that refuses it.
use busd.Prelude.{ℕ, Bool, true, false, Option, none, some, List, [], ◌∷◌, Result, ok, err}
use busd.Order.{nat_order, bytes_order}
use busd.Map.{Map, get, insert, remove}
use busd.Protocol.Types.{Bytes, PeerId, welcome, FrameLimits, Capabilities, ProtocolErrorCode}
use busd.Policy.{Credentials, Policy}
use busd.Broker.Types.{
  Broker, ClientHello, ConnectedPeer, DeliveryEvent, Error, Limits, with_limits,
}
use busd.Broker.Session.{connect_session}
use busd.Broker.Disconnect.{disconnect_with_events}
use busd.Broker.Tick.{tick}
use busd.Transport.{IoError, Connection, Sent, Sockets}
use busd.Broker.Messages.{error_text}
use busd.Daemon.Events.{Sessions, dispatch_event}
use busd.Daemon.Session.{Reply, answer, dispatch, refuse, handle_packet, send_frame, reject}
pub mod Invariant
pub mod Members
pub mod Reachable
pub mod Orderly
pub mod Moves

-- Where the thread of a connected client is.
pub data Phase : Type 0 where
  -- Before WELCOME is sent, and before the connection is registered.
  welcoming : ConnectedPeer → Connection → Phase
  registering : Connection → Phase
  -- In `dispatch_session`.
  receiving : Connection → Phase
  replying : Connection → Reply → Phase
  -- Before the session is removed, and before the broker disconnects the peer.
  leaving departing : Phase
  reporting : List DeliveryEvent → Phase

-- A thread stands under the identifier of its peer from `connect_session` to its end.
pub record System : Type 0 where
  pub broker : Broker
  pub sessions : Sessions
  pub sent : Sent
  pub threads : Map PeerId Phase
  pub scheduled : List DeliveryEvent

pub data Move : Type 0 where
  join : Credentials → ClientHello → Connection → Move
  greet register hang_up proceed unregister depart report : PeerId → Move
  receive : PeerId → Bytes → ℕ → Move
  wake : ℕ → Move
  deliver_next : Move

abbrev pub set_phase : PeerId → Phase → System → System
set_phase id phase s = record s { threads = insert id phase s.threads }

abbrev pub end_thread : PeerId → System → System
end_thread id s = record s { threads = remove id s.threads }

abbrev registered : PeerId → Connection → System → System
registered id connection s =
    set_phase id (receiving connection) (record s { sessions = insert id connection s.sessions })

-- The outcome of I/O on what was sent: the system after a success, or after an error.
abbrev pub sends :
    (System → System) → (System → System) → Result IoError (Unit {0}) × Sent → System → System
sends good bad (ok u, sent) s = good (record s { sent = sent })
sends good bad (err e, sent) s = bad (record s { sent = sent })

abbrev pub disconnected : PeerId → System → Result Error (List DeliveryEvent) × Broker → System
disconnected id s (ok events, b) = set_phase id (reporting events) (record s { broker = b })
disconnected id s (err e, b) = end_thread id (record s { broker = b })

module _ (sockets : Sockets) (limits : FrameLimits) where
  -- A refused client is told why, and no thread is left.
  abbrev pub joined : Connection → System → Result Error ConnectedPeer × Broker → System
  joined connection s (ok session, b) =
      set_phase session.id (welcoming session connection) (record s { broker = b })
  joined connection s (err e, b) =
      let r = reject sockets connection ProtocolErrorCode.invalid_state (error_text e) s.sent in
      record s { broker = b; sent = r.1 }

  abbrev pub greets : PeerId → Option Phase → System → System
  greets id (some (welcoming session connection)) s =
      sends (set_phase id (registering connection)) (end_thread id)
        (send_frame sockets connection (welcome session.id session.capabilities) limits s.sent) s
  greets id _ s = s

  abbrev pub registers : PeerId → Option Phase → System → System
  registers id (some (registering connection)) s =
      sends (registered id connection) (end_thread id) (sockets.clone s.sent connection, s.sent) s
  registers id _ s = s

  abbrev pub receives : PeerId → Bytes → ℕ → Option Phase → System → System
  receives id bytes now_ms (some (receiving connection)) s =
      let r = handle_packet id limits bytes now_ms s.broker in
      set_phase id (replying connection r.0) (record s { broker = r.1 })
  receives id bytes now_ms _ s = s

  -- `receive_packet` has returned no packet, or an error.
  abbrev pub hangs_up : PeerId → Option Phase → System → System
  hangs_up id (some (receiving connection)) s = set_phase id leaving s
  hangs_up id _ s = s

  abbrev pub replies : PeerId → Connection → Reply → System → System
  replies id connection (answer frame) s =
      sends (set_phase id (receiving connection)) (set_phase id leaving)
        (send_frame sockets connection frame limits s.sent) s
  replies id connection (dispatch []) s = set_phase id (receiving connection) s
  replies id connection (dispatch (event ∷ events)) s =
      sends (set_phase id (replying connection (dispatch events))) (set_phase id leaving)
        (dispatch_event sockets s.sessions limits event s.sent) s
  replies id connection (refuse code diagnostic) s =
      sends (set_phase id leaving) (set_phase id leaving)
        (reject sockets connection code diagnostic s.sent) s

  abbrev pub proceeds : PeerId → Option Phase → System → System
  proceeds id (some (replying connection reply)) s = replies id connection reply s
  proceeds id _ s = s

  abbrev pub unregisters : PeerId → Option Phase → System → System
  unregisters id (some leaving) s =
      set_phase id departing (record s { sessions = remove id s.sessions })
  unregisters id _ s = s

  abbrev pub departs : PeerId → Option Phase → System → System
  departs id (some departing) s = disconnected id s (disconnect_with_events id s.broker)
  departs id _ s = s

  abbrev pub reports : PeerId → Option Phase → System → System
  reports id (some (reporting [])) s = end_thread id s
  reports id (some (reporting (event ∷ events))) s =
      sends (set_phase id (reporting events)) (end_thread id)
        (dispatch_event sockets s.sessions limits event s.sent) s
  reports id _ s = s

  -- The scheduler calls `tick` when it has dispatched the last events, and drops the rest of them
  -- at an error.
  abbrev pub wakes : ℕ → List DeliveryEvent → System → System
  wakes now_ms [] s = let r = tick now_ms s.broker in record s { broker = r.1; scheduled = r.0 }
  wakes now_ms (event ∷ events) s = s

  abbrev pub delivers : List DeliveryEvent → System → System
  delivers [] s = s
  delivers (event ∷ events) s =
      sends (λ t. record t { scheduled = events }) (λ t. record t { scheduled = [] })
        (dispatch_event sockets s.sessions limits event s.sent) s

  unfoldable pub advance : Move → System → System
  unfolding dispatch_event reject
  advance (join credentials hello connection) s =
      joined connection s (connect_session credentials hello s.broker)
  advance (greet id) s = greets id (get id s.threads) s
  advance (register id) s = registers id (get id s.threads) s
  advance (receive id bytes now_ms) s = receives id bytes now_ms (get id s.threads) s
  advance (hang_up id) s = hangs_up id (get id s.threads) s
  advance (proceed id) s = proceeds id (get id s.threads) s
  advance (unregister id) s = unregisters id (get id s.threads) s
  advance (depart id) s = departs id (get id s.threads) s
  advance (report id) s = reports id (get id s.threads) s
  advance (wake now_ms) s = wakes now_ms s.scheduled s
  advance deliver_next s = delivers s.scheduled s

  pub data Runs (s : System) : System → Type 0 where
    here : Runs s s
    next : {t : System} → Runs s t → (m : Move) → Runs s (advance m t)

-- `run_daemon`, before the first connection.
abbrev pub started : Policy → Limits → System
started policy limits = record {
  broker = with_limits policy limits;
  sessions = [];
  sent = [];
  threads = [];
  scheduled = [];
}
