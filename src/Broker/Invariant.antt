-- ===== src/Broker/Invariant.antt =====
-- The invariant of the broker's state.
use busd.Prelude.{ℕ, ◌≤◌, ◌<◌, ◌≡◌, Bool, true, false, List, [], ◌∷◌, length, All, refl, arith}
use busd.Order.{nat_order, bytes_order}
use busd.Map.{Map, contains_key, contains, keys}
use busd.Map.Keys.{IsAscending, Entries}
use busd.Protocol.Types.{
  PeerId, MessageId, Namespace, Channel, Message, Frame, message, Capabilities,
}
use busd.Policy.{Policy}
use busd.Broker.Types.{Peer, PendingDelivery, Broker, Limits, empty_broker}
use busd.Broker.Reliability.{u64_max}
use busd.Broker.Session.{max_monitor_events}
use busd.Broker.Registry.{Subscribers}
use busd.Broker.Delivery.{is_tracked}
pub mod Session
pub mod Registry
pub mod Routing
pub mod Delivery
pub mod Acknowledge
pub mod Tick
pub mod Disconnect

abbrev pub Peers : Type 0
Peers = Map PeerId Peer

abbrev pub IsConnected : Peers → PeerId → Type 0
IsConnected peers peer = contains_key peer peers ≡ true

abbrev pub IsTrackedFrame : MessageId → Frame → Type 0
IsTrackedFrame id (message m) = (is_tracked m ≡ true) × (m.message_id ≡ id)
IsTrackedFrame id _ = ⊥

-- A retained delivery: its recipients are connected, acknowledgements and responses come from
-- recipients, and its message is one that is tracked, under its own identifier.
pub record IsPending (peers : Peers) (id : MessageId) (d : PendingDelivery) : Type 0 where
  pub recipients : All (IsConnected peers) d.recipients
  pub acknowledgements : All (λ a. contains a d.recipients ≡ true) d.acknowledgements
  pub responses : Entries (λ r frame. contains r d.recipients ≡ true) d.responses
  pub tracked : IsTrackedFrame id d.message

abbrev pub IsSubscribed : Peers → Channel → Subscribers → Type 0
IsSubscribed peers channel subscribers =
    Entries (λ peer filters. IsConnected peers peer) subscribers
    × (0 < length subscribers)
    × IsAscending (keys subscribers)

abbrev pub IsPeer : ℕ → PeerId → Peer → Type 0
IsPeer next_peer id peer = (0 < id) × (id < next_peer) × (peer.id ≡ id)

pub record IsWellFormed (b : Broker) : Type 0 where
  pub next_low : 0 < b.next_peer
  pub next_high : b.next_peer ≤ u64_max
  pub peers : Entries (IsPeer b.next_peer) b.peers
  pub ascending : IsAscending (keys b.peers)
  pub owners : Entries (λ namespace owner. IsConnected b.peers owner) b.namespaces
  pub dbus_owners : Entries (λ name owner. IsConnected b.peers owner) b.dbus_names
  pub subscriptions : Entries (IsSubscribed b.peers) b.subscriptions
  pub deliveries : Entries (IsPending b.peers) b.deliveries
  pub sorted : IsAscending (keys b.deliveries)
  pub monitored : length b.monitor_events ≤ max_monitor_events

pub empty_broker-IsWellFormed :
    (policy : Policy) (limits : Limits) (capabilities : Capabilities)
    → IsWellFormed (empty_broker policy limits capabilities)
empty_broker-IsWellFormed policy limits capabilities = record {
  next_low = omega arith;
  next_high = omega arith;
  peers = tt;
  ascending = tt;
  owners = tt;
  dbus_owners = tt;
  subscriptions = tt;
  deliveries = tt;
  sorted = tt;
  monitored = omega arith;
}
