-- ===== src/Broker/Routing.antt =====
-- `route`: the recipients of a message, chosen without looking at its payload.
use busd.Prelude.{
  Bool, true, false, not, Option, none, some, List, [], ◌∷◌, ◌==◌, take, Result, ok, err, ◌>>=◌,
  filter, if◌then◌else◌,
}
use busd.Order.{same, nat_order, bytes_order}
use busd.Map.{Map, get, contains_key, keys}
use busd.Protocol.Types.{PeerId, ClientId, Namespace, Headers, Destination, ClientSelection}
use busd.Policy.{Action}
use busd.Broker.Types.{Peer, Error, no_recipient, Broker}
use busd.Broker.Checks.{filters_match}
use busd.Broker.Session.{authorize, credentials}
use busd.Broker.Registry.{Subscribers, subscribers_of}

unfoldable pub namespace_owner : Broker → Namespace → Option PeerId
namespace_owner b namespace = get namespace b.namespaces

-- `into_iter().collect()` of an option.
abbrev pub to_list : Option PeerId → List PeerId
to_list none = []
to_list (some peer) = peer ∷ []

-- The subscribers whose filters match.
unfoldable pub matching_subscribers : Headers → Subscribers → List PeerId
matching_subscribers headers [] = []
matching_subscribers headers ((peer, filters) ∷ subscribers) =
    let rest = matching_subscribers headers subscribers in
    if filters_match filters headers then peer ∷ rest else rest

abbrev pub is_client : ClientId → Option ClientId → Bool
is_client client_id none = false
is_client client_id (some id) = same id client_id

unfoldable pub matching_clients : ClientId → Map PeerId Peer → List PeerId
matching_clients client_id [] = []
matching_clients client_id ((k, peer) ∷ peers) =
    let rest = matching_clients client_id peers in
    if is_client client_id peer.hello.client_id then peer.id ∷ rest else rest

abbrev pub select : ClientSelection → List PeerId → List PeerId
select ClientSelection.first matching = take 1 matching
select ClientSelection.any_of matching = take 1 matching
select ClientSelection.all_of matching = matching

-- The first match of `route`.
unfoldable pub candidates : Broker → PeerId → Destination → Headers → Result Error (List PeerId)
unfolding namespace_owner matching_subscribers matching_clients
candidates b sender Destination.broker headers = err no_recipient
candidates b sender (Destination.peer peer) headers = do
  _ ← authorize b sender (Action.send_peer peer)
  ok (if contains_key peer b.peers then peer ∷ [] else [])
candidates b sender (Destination.namespace namespace) headers = do
  _ ← authorize b sender (Action.send_namespace namespace)
  ok (to_list (namespace_owner b namespace))
candidates b sender (Destination.channel channel) headers = do
  _ ← authorize b sender (Action.publish channel)
  ok (matching_subscribers headers (subscribers_of (get channel b.subscriptions)))
candidates b sender (Destination.client_id client_id selection) headers = do
  _ ← authorize b sender (Action.send_client client_id)
  ok (select selection (matching_clients client_id b.peers))
candidates b sender Destination.broadcast headers = do
  _ ← authorize b sender Action.broadcast
  ok (filter (λ peer. not (peer == sender)) (keys b.peers))

-- The second match: only a multicast may go to nobody.
abbrev pub is_multicast : Destination → Bool
is_multicast Destination.broker = false
is_multicast (Destination.peer peer) = false
is_multicast (Destination.namespace namespace) = false
is_multicast (Destination.channel channel) = true
is_multicast (Destination.client_id client_id selection) = false
is_multicast Destination.broadcast = true

abbrev pub some_recipient : Bool → List PeerId → Result Error (List PeerId)
some_recipient multicast (r ∷ rs) = ok (r ∷ rs)
some_recipient multicast [] = if multicast then ok [] else err no_recipient

unfoldable pub route : Broker → PeerId → Destination → Headers → Result Error (List PeerId)
route b sender destination headers = do
  known ← credentials b sender
  recipients ← candidates b sender destination headers
  some_recipient (is_multicast destination) recipients
