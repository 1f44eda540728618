-- ===== src/Broker/Disconnect.antt =====
-- `remove_peer`, `disconnect_with_events` and `disconnect`.
use busd.Prelude.{not, none, some, List, [], ◌∷◌, ◌++◌, ◌==◌, ok, err, if◌then◌else◌}
use busd.Order.{nat_order, bytes_order}
use busd.Map.{Map, remove, contains_key, contains}
use busd.Protocol.Types.{Text, PeerId, MessageId, Namespace, Channel, DeliveryOutcome}
use busd.Broker.Types.{
  MonitorKind, PendingDelivery, DeliveryEvent, result, LifecycleEvent, peer_disconnected,
  namespace_owner_changed, unknown_peer, Broker,
}
use busd.Broker.Exec.{Exec, ◌>>=◌, ◌>>◌, pure}
use busd.Broker.Session.{record_monitor}
use busd.Broker.Registry.{Subscribers}
use busd.Broker.Acknowledge.{drop_delivery}

-- The `NamespaceOwnerChanged` events of the namespaces of `peer`, in key order.
unfoldable pub released : PeerId → Map Namespace PeerId → List LifecycleEvent
released peer [] = []
released peer ((namespace, owner) ∷ namespaces) =
    let rest = released peer namespaces in
    if owner == peer then namespace_owner_changed namespace (some peer) none ∷ rest else rest

-- `retain(|_, owner| *owner != peer)`
unfoldable pub retain_others : PeerId → Map Text PeerId → Map Text PeerId
retain_others peer [] = []
retain_others peer ((name, owner) ∷ names) =
    let rest = retain_others peer names in if owner == peer then rest else (name, owner) ∷ rest

abbrev pub keep_subscribed :
    Channel → Subscribers → Map Channel Subscribers → Map Channel Subscribers
keep_subscribed channel [] rest = rest
keep_subscribed channel (s ∷ ss) rest = (channel, s ∷ ss) ∷ rest

unfoldable pub unsubscribe_all : PeerId → Map Channel Subscribers → Map Channel Subscribers
unsubscribe_all peer [] = []
unsubscribe_all peer ((channel, subscribers) ∷ subscriptions) =
    keep_subscribed channel (remove peer subscribers) (unsubscribe_all peer subscriptions)

unfoldable pub remove_peer : PeerId → Exec (Unit {0})
remove_peer peer b = if not (contains_key peer b.peers) then (err (unknown_peer peer), b) else (
  ok tt,
  record_monitor MonitorKind.disconnected peer none none 0 (record b {
    peers = remove peer b.peers;
    namespaces = retain_others peer b.namespaces;
    dbus_names = retain_others peer b.dbus_names;
    subscriptions = unsubscribe_all peer b.subscriptions;
    events = b.events ++ (released peer b.namespaces ++ peer_disconnected peer ∷ []);
  }),
)

-- The deliveries that wait for `peer`, with their senders.
unfoldable pub affected : PeerId → Map MessageId PendingDelivery → List (MessageId × PeerId)
affected peer [] = []
affected peer ((id, pending) ∷ deliveries) =
    let rest = affected peer deliveries in
    if contains peer pending.recipients then (id, pending.sender) ∷ rest else rest

unfoldable pub drop_all : List (MessageId × PeerId) → Broker → Broker
drop_all [] b = b
drop_all ((id, sender) ∷ rest) b = drop_all rest (drop_delivery id b)

unfoldable pub failures : List (MessageId × PeerId) → List DeliveryEvent
failures [] = []
failures ((id, sender) ∷ rest) =
    result sender id DeliveryOutcome.recipient_disconnected ∷ failures rest

unfoldable pub fail_waiting : PeerId → Exec (List DeliveryEvent)
unfolding affected drop_all failures
fail_waiting peer b = let gone = affected peer b.deliveries in (ok (failures gone), drop_all gone b)

unfoldable pub disconnect_with_events : PeerId → Exec (List DeliveryEvent)
disconnect_with_events peer = do remove_peer peer; fail_waiting peer

unfoldable pub disconnect : PeerId → Exec (Unit {0})
disconnect peer = do events ← disconnect_with_events peer; pure tt
