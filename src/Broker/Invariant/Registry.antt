-- ===== src/Broker/Invariant/Registry.antt =====
-- Claims, subscriptions, D-Bus names and the invariant.
use busd.Prelude.{
  ◌<◌, none, some, List, [], ◌∷◌, length, ok, err, arith, Option-cases, inl, inr, if◌then◌else◌,
}
use busd.Order.{nat_order, bytes_order}
use busd.Map.{keys, Map, get, insert, remove}
use busd.Map.Keys.{
  IsAscending, IsAscending-insert, IsAscending-remove, Entries, Entries-insert, Entries-remove,
  Entries-get,
}
use busd.Protocol.Types.{Text, PeerId, Namespace, Channel, HeaderFilter}
use busd.Policy.{Action}
use busd.Broker.Types.{
  Broker, LifecycleEvent, MonitorKind, namespace_already_owned, dbus_name_already_owned,
  invalid_dbus_name,
}
use busd.Broker.Checks.{validate_dbus_name}
use busd.Broker.Session.{credentials, authorize}
use busd.Broker.Registry.{
  unowned, claim_quota, add_claim, claim, Subscribers, subscribers_of, subscription_quota,
  add_subscription, subscribe_with_filters, set_subscribers, drop_subscription, unsubscribe,
  register_dbus_name,
}
use busd.Broker.Invariant.{Peers, IsConnected, IsSubscribed, IsWellFormed}
use busd.Broker.Invariant.Session.{after, record_monitor-IsWellFormed, authorize-IsConnected}

-- New maps of owners and subscriptions, over the same peers.
module _ (b : Broker) (w : IsWellFormed b) where
  namespaces-IsWellFormed :
      (namespaces : Map Namespace PeerId) (events : List LifecycleEvent)
      → Entries (λ n p. IsConnected b.peers p) namespaces
      → IsWellFormed (record b { namespaces = namespaces; events = events })
  namespaces-IsWellFormed namespaces events h = record {
    next_low = w.next_low;
    next_high = w.next_high;
    peers = w.peers;
    ascending = w.ascending;
    owners = h;
    dbus_owners = w.dbus_owners;
    subscriptions = w.subscriptions;
    deliveries = w.deliveries;
    sorted = w.sorted;
    monitored = w.monitored;
  }

  dbus_names-IsWellFormed :
      (names : Map Text PeerId)
      → Entries (λ n p. IsConnected b.peers p) names
      → IsWellFormed (record b { dbus_names = names })
  dbus_names-IsWellFormed names h = record {
    next_low = w.next_low;
    next_high = w.next_high;
    peers = w.peers;
    ascending = w.ascending;
    owners = w.owners;
    dbus_owners = h;
    subscriptions = w.subscriptions;
    deliveries = w.deliveries;
    sorted = w.sorted;
    monitored = w.monitored;
  }

  subscriptions-IsWellFormed :
      (subscriptions : Map Channel Subscribers)
      → Entries (IsSubscribed b.peers) subscriptions
      → IsWellFormed (record b { subscriptions = subscriptions })
  subscriptions-IsWellFormed subscriptions h = record {
    next_low = w.next_low;
    next_high = w.next_high;
    peers = w.peers;
    ascending = w.ascending;
    owners = w.owners;
    dbus_owners = w.dbus_owners;
    subscriptions = h;
    deliveries = w.deliveries;
    sorted = w.sorted;
    monitored = w.monitored;
  }

pub claim-IsWellFormed :
    (peer : PeerId) (namespace : Namespace) (b : Broker)
    → IsWellFormed b
    → IsWellFormed (claim peer namespace b).1
unfolding claim add_claim
claim-IsWellFormed peer namespace b w =
    after IsWellFormed (authorize b peer (Action.claim_namespace namespace)) _ b w λ _ known.
      after IsWellFormed (claim_quota peer b) _ b w λ _ _.
        after IsWellFormed
          (unowned (get namespace b.namespaces) (namespace_already_owned namespace)) _ b w
          λ _ _.
            record_monitor-IsWellFormed MonitorKind.namespace_claimed peer (some namespace) none 0 _
              (namespaces-IsWellFormed b w (insert namespace peer b.namespaces) _ (
                Entries-insert (λ n p. IsConnected b.peers p) namespace peer b.namespaces
                  (authorize-IsConnected b peer (Action.claim_namespace namespace) known) w.owners))

pub register_dbus_name-IsWellFormed :
    (peer : PeerId) (name : Text) (b : Broker)
    → IsWellFormed b
    → IsWellFormed (register_dbus_name peer name b).1
unfolding register_dbus_name
register_dbus_name-IsWellFormed peer name b w =
    after IsWellFormed (if validate_dbus_name name then ok tt else err (invalid_dbus_name name)) _ b
      w
      λ _ _. after IsWellFormed (authorize b peer (Action.register_dbus_name name)) _ b w λ _ known.
        after IsWellFormed (unowned (get name b.dbus_names) (dbus_name_already_owned name)) _ b w
          λ _ _. dbus_names-IsWellFormed b w (insert name peer b.dbus_names) (
            Entries-insert (λ n p. IsConnected b.peers p) name peer b.dbus_names
              (authorize-IsConnected b peer (Action.register_dbus_name name) known) w.dbus_owners)

-- The subscribers of a channel with no entry are none, and so are connected too.
pub subscribers_of-IsConnected :
    (b : Broker) (channel : Channel)
    → IsWellFormed b
    → Entries (λ p f. IsConnected b.peers p) (subscribers_of (get channel b.subscriptions))
subscribers_of-IsConnected b channel w = elim (Option-cases (get channel b.subscriptions)) [
  | inl e ↦ rw e tt
  | inr (s, e) ↦
      rw e (Entries-get (IsSubscribed b.peers) channel s b.subscriptions e w.subscriptions).0
]

pub subscribers_of-IsAscending :
    (b : Broker) (channel : Channel)
    → IsWellFormed b
    → IsAscending (keys (subscribers_of (get channel b.subscriptions)))
subscribers_of-IsAscending b channel w = elim (Option-cases (get channel b.subscriptions)) [
  | inl e ↦ rw e tt
  | inr (s, e) ↦
      rw e (Entries-get (IsSubscribed b.peers) channel s b.subscriptions e w.subscriptions).2
]

length-insert_pos :
    (peer : PeerId) (filters : List HeaderFilter) (s : Subscribers)
    → 0 < length (insert peer filters s)
unfolding insert
length-insert_pos peer filters [] = omega arith
length-insert_pos peer filters ((p, f) ∷ s) = ground arith

pub subscribe_with_filters-IsWellFormed :
    (peer : PeerId) (channel : Channel) (filters : List HeaderFilter) (b : Broker)
    → IsWellFormed b
    → IsWellFormed (subscribe_with_filters peer channel filters b).1
unfolding subscribe_with_filters add_subscription
subscribe_with_filters-IsWellFormed peer channel filters b w =
    after IsWellFormed (authorize b peer (Action.subscribe channel)) _ b w λ _ known.
      after IsWellFormed (subscription_quota peer channel b) _ b w λ _ _.
        record_monitor-IsWellFormed MonitorKind.subscribed peer (some channel) none 0 _ (
          subscriptions-IsWellFormed b w _ (
            Entries-insert (IsSubscribed b.peers) channel _ b.subscriptions
              (
                Entries-insert (λ p f. IsConnected b.peers p) peer filters _
                    (authorize-IsConnected b peer (Action.subscribe channel) known)
                    (subscribers_of-IsConnected b channel w),
                length-insert_pos peer filters _,
                IsAscending-insert peer filters _ (subscribers_of-IsAscending b channel w),
              )
              w.subscriptions))

set_subscribers-IsSubscribed :
    (ps : Peers) (channel : Channel) (s : Subscribers) (m : Map Channel Subscribers)
    → Entries (λ p f. IsConnected ps p) s
    → IsAscending (keys s)
    → Entries (IsSubscribed ps) m
    → Entries (IsSubscribed ps) (set_subscribers channel s m)
set_subscribers-IsSubscribed ps channel [] m h a e = Entries-remove (IsSubscribed ps) channel m e
set_subscribers-IsSubscribed ps channel (x ∷ s) m h a e =
    Entries-insert (IsSubscribed ps) channel (x ∷ s) m (h, omega arith, a) e

drop_subscription-IsSubscribed :
    (b : Broker) (peer : PeerId) (channel : Channel)
    → IsWellFormed b
    → Entries
        (IsSubscribed b.peers)
        (drop_subscription peer channel (get channel b.subscriptions) b.subscriptions)
drop_subscription-IsSubscribed b peer channel w =
    elim (Option-cases (get channel b.subscriptions)) [
      | inl e ↦ rw e w.subscriptions
      | inr (s, e) ↦ rw e (
          set_subscribers-IsSubscribed b.peers channel (remove peer s) b.subscriptions
            (Entries-remove (λ p f. IsConnected b.peers p) peer s
              (Entries-get (IsSubscribed b.peers) channel s b.subscriptions e w.subscriptions).0)
            (IsAscending-remove peer s
              (Entries-get (IsSubscribed b.peers) channel s b.subscriptions e w.subscriptions).2)
            w.subscriptions)
    ]

pub unsubscribe-IsWellFormed :
    (peer : PeerId) (channel : Channel) (b : Broker)
    → IsWellFormed b
    → IsWellFormed (unsubscribe peer channel b).1
unfolding unsubscribe
unsubscribe-IsWellFormed peer channel b w =
    after IsWellFormed (credentials b peer) _ b w
      λ _ _. subscriptions-IsWellFormed b w _ (drop_subscription-IsSubscribed b peer channel w)
