-- ===== src/Broker/Registry.antt =====
-- Namespace claims, subscriptions and D-Bus names.
use busd.Prelude.{
  ℕ, not, ◌&&◌, Option, none, some, List, [], ◌∷◌, ◌++◌, leb, ◌==◌, length, Result, ok, err, filter,
  if◌then◌else◌,
}
use busd.Order.{nat_order, bytes_order}
use busd.Map.{Map, get, insert, remove, contains_key, values}
use busd.Protocol.Types.{Text, PeerId, Namespace, Channel, HeaderFilter}
use busd.Policy.{Action}
use busd.Broker.Types.{
  MonitorKind, Error, namespace_already_owned, dbus_name_already_owned, invalid_dbus_name, Limit,
  limit_exceeded, namespace_owner_changed, Broker,
}
use busd.Broker.Exec.{Exec, ◌>>=◌, ◌>>◌, reads, modify}
use busd.Broker.Checks.{validate_dbus_name}
use busd.Broker.Session.{record_monitor, authorize, credentials}

-- `if let Some(owner) = ... { return Err(...) }`
abbrev pub unowned : Option PeerId → (PeerId → Error) → Result Error (Unit {0})
unowned none e = ok tt
unowned (some owner) e = err (e owner)

unfoldable pub claims_of : PeerId → Map Namespace PeerId → ℕ
claims_of peer namespaces = length (filter (λ owner. owner == peer) (values namespaces))

unfoldable pub claim_quota : PeerId → Broker → Result Error (Unit {0})
claim_quota peer b =
    if leb b.limits.maximum_namespace_claims (claims_of peer b.namespaces)
    then err (limit_exceeded Limit.namespace_claims)
    else ok tt

unfoldable pub add_claim : PeerId → Namespace → Broker → Broker
add_claim peer namespace b =
    record_monitor MonitorKind.namespace_claimed peer (some namespace) none 0 (record b {
      namespaces = insert namespace peer b.namespaces;
      events = b.events ++ namespace_owner_changed namespace none (some peer) ∷ [];
    })

unfoldable pub claim : PeerId → Namespace → Exec (Unit {0})
claim peer namespace = do
  reads (λ b. authorize b peer (Action.claim_namespace namespace))
  reads (claim_quota peer)
  reads (λ b. unowned (get namespace b.namespaces) (namespace_already_owned namespace))
  modify (add_claim peer namespace)

abbrev pub Subscribers : Type 0
Subscribers = Map PeerId (List HeaderFilter)

-- The subscribers of a channel; none where the channel has no entry.
abbrev pub subscribers_of : Option Subscribers → Subscribers
subscribers_of none = []
subscribers_of (some subscribers) = subscribers

unfoldable pub subscriptions_of : PeerId → Map Channel Subscribers → ℕ
subscriptions_of peer subscriptions =
    length (filter (λ subscribers. contains_key peer subscribers) (values subscriptions))

unfoldable pub subscription_quota : PeerId → Channel → Broker → Result Error (Unit {0})
subscription_quota peer channel b =
    if not (contains_key peer (subscribers_of (get channel b.subscriptions)))
      && leb b.limits.maximum_subscriptions (subscriptions_of peer b.subscriptions)
    then err (limit_exceeded Limit.subscriptions)
    else ok tt

-- `entry(channel).or_default().insert(peer, filters)`
unfoldable pub add_subscription : PeerId → Channel → List HeaderFilter → Broker → Broker
add_subscription peer channel filters b =
    record_monitor MonitorKind.subscribed peer (some channel) none 0 (record b {
      subscriptions =
          insert channel (insert peer filters (subscribers_of (get channel b.subscriptions)))
            b.subscriptions;
    })

unfoldable pub subscribe_with_filters : PeerId → Channel → List HeaderFilter → Exec (Unit {0})
subscribe_with_filters peer channel filters = do
  reads (λ b. authorize b peer (Action.subscribe channel))
  reads (subscription_quota peer channel)
  modify (add_subscription peer channel filters)

unfoldable pub subscribe : PeerId → Channel → Exec (Unit {0})
unfolding subscribe_with_filters
subscribe peer channel = subscribe_with_filters peer channel []

-- A channel with no subscriber left has no entry.
abbrev pub set_subscribers :
    Channel → Subscribers → Map Channel Subscribers → Map Channel Subscribers
set_subscribers channel [] subscriptions = remove channel subscriptions
set_subscribers channel (s ∷ ss) subscriptions = insert channel (s ∷ ss) subscriptions

abbrev pub drop_subscription :
    PeerId → Channel → Option Subscribers → Map Channel Subscribers → Map Channel Subscribers
drop_subscription peer channel none subscriptions = subscriptions
drop_subscription peer channel (some subscribers) subscriptions =
    set_subscribers channel (remove peer subscribers) subscriptions

unfoldable pub unsubscribe : PeerId → Channel → Exec (Unit {0})
unsubscribe peer channel = do
  known ← reads (λ b. credentials b peer)
  modify (λ b. record b {
    subscriptions = drop_subscription peer channel (get channel b.subscriptions) b.subscriptions;
  })

unfoldable pub register_dbus_name : PeerId → Text → Exec (Unit {0})
register_dbus_name peer name = do
  reads (λ b. if validate_dbus_name name then ok tt else err (invalid_dbus_name name))
  reads (λ b. authorize b peer (Action.register_dbus_name name))
  reads (λ b. unowned (get name b.dbus_names) (dbus_name_already_owned name))
  modify (λ b. record b { dbus_names = insert name peer b.dbus_names })
