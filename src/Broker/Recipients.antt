-- ===== src/Broker/Recipients.antt =====
-- Whom a route addresses, told one peer at a time.
use busd.Prelude.{
  all, ℕ, ◌≡◌, refl, Bool, true, false, not, ◌&&◌, Option, none, some, List, [], ◌∷◌, arith, filter,
  ok, Option-cases, inl, inr, ◌==◌, bind-value, ◌∙◌, sym, take,
}
use busd.Order.{nat_order, bytes_order, same_refl, same→eq}
use busd.Map.{Map, get, contains_key, contains, keys}
use busd.Map.Keys.{Entries, Above, Above-weaken, Above-IsAscending, IsAscending}
use busd.Protocol.Types.{PeerId, ClientId, Headers, HeaderFilter, Destination, ClientSelection}
use busd.Policy.{Action}
use busd.Broker.Invariant.Registry.{subscribers_of-IsAscending}
use busd.Broker.Types.{Broker, Peer}
use busd.Broker.Checks.{filter_matches, filters_match}
use busd.Broker.Session.{authorize}
use busd.Broker.Registry.{Subscribers, subscribers_of}
use busd.Broker.Routing.{
  namespace_owner, matching_subscribers, matching_clients, is_client, select, candidates, route,
  some_recipient,
}
use busd.Broker.Invariant.{Peers, IsPeer, IsWellFormed}
use busd.Broker.Invariant.Routing.{route_parts}

abbrev pub subscribed_to : Headers → Option (List HeaderFilter) → Bool
subscribed_to headers none = false
subscribed_to headers (some filters) = all (filter_matches headers) filters

abbrev pub announced : ClientId → Option Peer → Bool
announced client_id none = false
announced client_id (some peer) = is_client client_id peer.hello.client_id

abbrev pub owns : PeerId → Option PeerId → Bool
owns r none = false
owns r (some owner) = r == owner

-- `destination` addresses `r`.
abbrev pub is_addressed : Broker → PeerId → Destination → Headers → PeerId → Bool
is_addressed b sender Destination.broker headers r = false
is_addressed b sender (Destination.peer p) headers r = (r == p) && contains_key r b.peers
is_addressed b sender (Destination.namespace n) headers r = owns r (get n b.namespaces)
is_addressed b sender (Destination.channel c) headers r =
    subscribed_to headers (get r (subscribers_of (get c b.subscriptions)))
is_addressed b sender (Destination.client_id client_id selection) headers r =
    announced client_id (get r b.peers)
is_addressed b sender Destination.broadcast headers r = contains_key r b.peers && not (r == sender)

-- The destination is for one of those that it addresses.
abbrev pub is_selective : Destination → Bool
is_selective (Destination.client_id client_id ClientSelection.first) = true
is_selective (Destination.client_id client_id ClientSelection.any_of) = true
is_selective _ = false

-- Nothing before the first key is found.
Above-get : {V : Type 0} (r : PeerId) (m : Map PeerId V) → Above r (keys m) → get r m ≡ none
Above-get r [] a = refl
Above-get r ((p, v) ∷ m) a = ground (arith, Above-get r m (Above-weaken r p (keys m) a.0 a.1))

contains-matching_subscribers :
    (headers : Headers) (s : Subscribers) (r : PeerId)
    → IsAscending (keys s)
    → contains r (matching_subscribers headers s) ≡ subscribed_to headers (get r s)
unfolding matching_subscribers filters_match
contains-matching_subscribers headers [] r a = refl
contains-matching_subscribers headers ((p, f) ∷ s) r a =
    let before : contains p (matching_subscribers headers s) ≡ subscribed_to headers (get p s) =
      contains-matching_subscribers headers s p (Above-IsAscending p (keys s) a) in
    let here : get p s ≡ none = Above-get p s a in
    ground (
      arith,
      contains-matching_subscribers headers s r (Above-IsAscending p (keys s) a),
      before,
      here,
      same→eq r p,
    )

contains-matching_clients :
    (n : ℕ) (client_id : ClientId) (m : Peers) (r : PeerId)
    → Entries (IsPeer n) m
    → IsAscending (keys m)
    → contains r (matching_clients client_id m) ≡ announced client_id (get r m)
unfolding matching_clients
contains-matching_clients n client_id [] r e a = refl
contains-matching_clients n client_id ((p, v) ∷ m) r e a =
    let before : contains p (matching_clients client_id m) ≡ announced client_id (get p m) =
      contains-matching_clients n client_id m p e.1 (Above-IsAscending p (keys m) a) in
    let here : get p m ≡ none = Above-get p m a in
    ground (
      arith,
      contains-matching_clients n client_id m r e.1 (Above-IsAscending p (keys m) a),
      before,
      here,
      same→eq r p,
    )

contains-others :
    (sender r : PeerId) (m : Peers)
    → contains r (filter (λ p. not (p == sender)) (keys m))
      ≡ (contains_key r m && not (r == sender))
contains-others sender r [] = refl
contains-others sender r ((p, v) ∷ m) = ground (arith, contains-others sender r m)

contains-candidates :
    (b : Broker) (sender : PeerId) (d : Destination) (headers : Headers) (l : List PeerId)
    (r : PeerId)
    → IsWellFormed b
    → candidates b sender d headers ≡ ok l
    → is_selective d ≡ false
    → contains r l ≡ is_addressed b sender d headers r
unfolding candidates namespace_owner
contains-candidates b sender Destination.broker headers l r w h k = cc
contains-candidates b sender (Destination.peer p) headers l r w h k =
    rw (bind-value (authorize b sender (Action.send_peer p)) _ l h) (ground arith)
contains-candidates b sender (Destination.namespace n) headers l r w h k =
    rw (bind-value (authorize b sender (Action.send_namespace n)) _ l h)
      (elim (Option-cases (get n b.namespaces)) [
        | inl e ↦ rw e refl
        | inr (p, e) ↦ rw e (ground arith)
      ])
contains-candidates b sender (Destination.channel c) headers l r w h k =
    rw (bind-value (authorize b sender (Action.publish c)) _ l h)
      (contains-matching_subscribers headers _ r (subscribers_of-IsAscending b c w))
contains-candidates b sender (Destination.client_id c ClientSelection.first) headers l r w h k = cc
contains-candidates b sender (Destination.client_id c ClientSelection.any_of) headers l r w h k = cc
contains-candidates b sender (Destination.client_id c ClientSelection.all_of) headers l r w h k =
    rw (bind-value (authorize b sender (Action.send_client c)) _ l h)
      (contains-matching_clients b.next_peer c b.peers r w.peers w.ascending)
contains-candidates b sender Destination.broadcast headers l r w h k =
    rw (bind-value (authorize b sender Action.broadcast) _ l h) (contains-others sender r b.peers)

-- In a well-formed state the recipients of a route that is not to choose one client are exactly the connected peers that
-- the destination addresses: the owner of the namespace, the subscribers whose filters the headers
-- match, the clients of that name, or, of a broadcast, all but the sender.
pub route-contains :
    (b : Broker) (sender : PeerId) (d : Destination) (headers : Headers) (l : List PeerId)
    (r : PeerId)
    → IsWellFormed b
    → route b sender d headers ≡ ok l
    → is_selective d ≡ false
    → contains r l ≡ is_addressed b sender d headers r
route-contains b sender d headers l r w h k =
    contains-candidates b sender d headers l r w (route_parts b sender d headers l h).1 k

take_one :
    (l m : List PeerId)
    → m ≡ take 1 l
    → some_recipient false m ≡ ok m
    → (r : PeerId) × (m ≡ r ∷ []) × (contains r l ≡ true)
take_one [] m e h = cc
take_one (r ∷ l) m e h = (r, e, rw same_refl refl)

-- In a well-formed state a successful route to the first or to any client of a name finds one
-- recipient, a connected peer of that name.
pub route_selects :
    (b : Broker) (sender : PeerId) (client_id : ClientId) (selection : ClientSelection)
    (headers : Headers) (l : List PeerId)
    → IsWellFormed b
    → is_selective (Destination.client_id client_id selection) ≡ true
    → route b sender (Destination.client_id client_id selection) headers ≡ ok l
    → (r : PeerId) × (l ≡ r ∷ []) × (announced client_id (get r b.peers) ≡ true)
unfolding candidates
route_selects b sender c selection headers l w k h =
    let parts = route_parts b sender (Destination.client_id c selection) headers l h in
    let e : l ≡ select selection (matching_clients c b.peers) =
      bind-value (authorize b sender (Action.send_client c)) _ l parts.1 in
    let f : l ≡ take 1 (matching_clients c b.peers) = ground arith in
    let (r, q, m) = take_one (matching_clients c b.peers) l f parts.2 in
    (r, q, sym (contains-matching_clients b.next_peer c b.peers r w.peers w.ascending) ∙ m)
