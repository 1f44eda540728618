-- ===== src/Broker/Steps.antt =====
-- The broker as a transition system: a step is a call of one of its `&mut self` methods, whether it
-- succeeds or fails.
use busd.Prelude.{
  ℕ, ◌+◌, ◌≤◌, ◌<◌, ◌≡◌, refl, List, [], ◌∷◌, arith, ok, err, Bool-cases, inl, inr, leb,
}
use busd.Order.{nat_order, bytes_order}
use busd.Protocol.Types.{
  Text, PeerId, MessageId, Namespace, Channel, HeaderFilter, Frame, AckPolicy, Capabilities,
}
use busd.Policy.{Credentials, Policy}
use busd.Broker.Types.{ClientHello, Broker, Limits, empty_broker}
use busd.Broker.Session.{connect_session}
use busd.Broker.Registry.{claim, subscribe_with_filters, unsubscribe, register_dbus_name}
use busd.Broker.Responses.{begin_delivery}
use busd.Broker.Acknowledge.{acknowledge}
use busd.Broker.Tick.{tick}
use busd.Broker.Disconnect.{disconnect_with_events}
use busd.Broker.Views.{drain_events}
use busd.Broker.Invariant.{IsWellFormed, empty_broker-IsWellFormed}
use busd.Broker.Invariant.Session.{connect_session-IsWellFormed}
use busd.Broker.Invariant.Registry.{
  claim-IsWellFormed, subscribe_with_filters-IsWellFormed, unsubscribe-IsWellFormed,
  register_dbus_name-IsWellFormed,
}
use busd.Broker.Invariant.Delivery.{begin_delivery-IsWellFormed}
use busd.Broker.Invariant.Acknowledge.{acknowledge-IsWellFormed}
use busd.Broker.Invariant.Tick.{tick-IsWellFormed}
use busd.Broker.Invariant.Disconnect.{disconnect_with_events-IsWellFormed}
pub mod Fixed

pub data Operation : Type 0 where
  connect : Credentials → ClientHello → Operation
  disconnect : PeerId → Operation
  claim_namespace : PeerId → Namespace → Operation
  add_subscription : PeerId → Channel → List HeaderFilter → Operation
  remove_subscription : PeerId → Channel → Operation
  register_name : PeerId → Text → Operation
  send : PeerId → Frame → ℕ → Operation
  confirm : PeerId → MessageId → AckPolicy → Operation
  advance : ℕ → Operation
  drain : Operation

-- The state after a call.
unfoldable pub run : Operation → Broker → Broker
run (connect credentials hello) b = (connect_session credentials hello b).1
run (disconnect peer) b = (disconnect_with_events peer b).1
run (claim_namespace peer namespace) b = (claim peer namespace b).1
run (add_subscription peer channel filters) b = (subscribe_with_filters peer channel filters b).1
run (remove_subscription peer channel) b = (unsubscribe peer channel b).1
run (register_name peer name) b = (register_dbus_name peer name b).1
run (send sender frame now_ms) b = (begin_delivery sender frame now_ms b).1
run (confirm peer id policy) b = (acknowledge peer id policy b).1
run (advance now_ms) b = (tick now_ms b).1
run drain b = (drain_events b).1

pub data Step : Broker → Broker → Type 0 where
  call : (o : Operation) (b : Broker) → Step b (run o b)

pub data Reach (b : Broker) : Broker → Type 0 where
  here : Reach b b
  next : {c d : Broker} → Reach b c → Step c d → Reach b d

drain_events-IsWellFormed : (b : Broker) → IsWellFormed b → IsWellFormed (drain_events b).1
unfolding drain_events
drain_events-IsWellFormed b w = record {
  next_low = w.next_low;
  next_high = w.next_high;
  peers = w.peers;
  ascending = w.ascending;
  owners = w.owners;
  dbus_owners = w.dbus_owners;
  subscriptions = w.subscriptions;
  deliveries = w.deliveries;
  sorted = w.sorted;
  monitored = w.monitored;
}

pub run-IsWellFormed : (o : Operation) (b : Broker) → IsWellFormed b → IsWellFormed (run o b)
unfolding run
run-IsWellFormed (connect c h) b w = connect_session-IsWellFormed c h b w
run-IsWellFormed (disconnect p) b w = disconnect_with_events-IsWellFormed p b w
run-IsWellFormed (claim_namespace p n) b w = claim-IsWellFormed p n b w
run-IsWellFormed (add_subscription p c f) b w = subscribe_with_filters-IsWellFormed p c f b w
run-IsWellFormed (remove_subscription p c) b w = unsubscribe-IsWellFormed p c b w
run-IsWellFormed (register_name p n) b w = register_dbus_name-IsWellFormed p n b w
run-IsWellFormed (send p f now) b w = begin_delivery-IsWellFormed p f now b w
run-IsWellFormed (confirm p id a) b w = acknowledge-IsWellFormed p id a b w
run-IsWellFormed (advance now) b w = tick-IsWellFormed now b w
run-IsWellFormed drain b w = drain_events-IsWellFormed b w

pub Reach-keeps : {b c : Broker} → Reach b c → IsWellFormed b → IsWellFormed c
Reach-keeps here w = w
Reach-keeps (next r (call o d)) w = run-IsWellFormed o d (Reach-keeps r w)

-- Whatever calls are made of a new broker, in whatever order and with whatever results, every
-- namespace, D-Bus name and subscription belongs to a connected peer, no channel is kept without a
-- subscriber, every retained delivery is of a tracked message, waits for connected recipients only
-- and was acknowledged or answered by its recipients only, peers, subscribers and deliveries are in
-- strict order of their keys, peer identifiers lie below the next one, and at most 1024 monitoring
-- records are kept.
pub Reach-IsWellFormed :
    (policy : Policy) (limits : Limits) (capabilities : Capabilities) {b : Broker}
    → Reach (empty_broker policy limits capabilities) b
    → IsWellFormed b
Reach-IsWellFormed policy limits capabilities r =
    Reach-keeps r (empty_broker-IsWellFormed policy limits capabilities)
