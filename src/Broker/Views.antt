-- ===== src/Broker/Views.antt =====
-- The queries, and `drain_events`.
use busd.Prelude.{ℕ, ◌+◌, Option, List, [], ◌∷◌, length, Result, ok, ◌>>=◌}
use busd.Order.{nat_order, bytes_order}
use busd.Map.{Map, get, keys}
use busd.Protocol.Types.{Text, PeerId, Namespace, Channel}
use busd.Policy.{Action}
use busd.Broker.Types.{
  Peer, PeerInfo, SubscriptionInfo, LifecycleEvent, MonitorEvent, MetricsSnapshot, Error, Broker,
}
use busd.Broker.Session.{authorize}
use busd.Broker.Registry.{Subscribers, subscribers_of}

unfoldable pub dbus_name_owner : Broker → Text → Option PeerId
dbus_name_owner b name = get name b.dbus_names

unfoldable pub subscribers : Broker → Channel → List PeerId
subscribers b channel = keys (subscribers_of (get channel b.subscriptions))

unfoldable pub peer : Broker → PeerId → Option Peer
peer b id = get id b.peers

abbrev pub peer_info : Peer → PeerInfo
peer_info p = record {
  id = p.id;
  client_id = p.hello.client_id;
  claimed_headers = p.hello.headers;
  credentials = p.credentials;
  capabilities = p.capabilities;
}

unfoldable pub peer_infos : Map PeerId Peer → List PeerInfo
peer_infos [] = []
peer_infos ((id, p) ∷ peers) = peer_info p ∷ peer_infos peers

-- `peers`
unfoldable pub peers : Broker → List PeerInfo
unfolding peer_infos
peers b = peer_infos b.peers

unfoldable pub namespaces : Broker → List (Namespace × PeerId)
namespaces b = b.namespaces

unfoldable pub subscription_infos : Map Channel Subscribers → List SubscriptionInfo
subscription_infos [] = []
subscription_infos ((channel, subscribers) ∷ rest) =
    (record { channel = channel; subscribers = subscribers }) ∷ subscription_infos rest

unfoldable pub subscriptions : Broker → List SubscriptionInfo
unfolding subscription_infos
subscriptions b = subscription_infos b.subscriptions

unfoldable pub drain_events : Broker → List LifecycleEvent × Broker
drain_events b = (b.events, record b { events = [] })

unfoldable pub monitor_events : Broker → PeerId → Result Error (List MonitorEvent)
monitor_events b id = do _ ← authorize b id Action.monitor; ok b.monitor_events

unfoldable pub subscription_count : Map Channel Subscribers → ℕ
subscription_count [] = 0
subscription_count ((channel, subscribers) ∷ rest) = length subscribers + subscription_count rest

unfoldable pub metrics : Broker → MetricsSnapshot
unfolding subscription_count
metrics b = record {
  connected_peers = length b.peers;
  namespaces = length b.namespaces;
  subscriptions = subscription_count b.subscriptions;
  totals = b.metrics;
}
