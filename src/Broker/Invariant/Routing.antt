-- ===== src/Broker/Invariant/Routing.antt =====
-- `route` and the connected peers.
use busd.Prelude.{
  ℕ, ◌≡◌, Bool, not, List, [], ◌∷◌, ok, arith, Option-cases, Bool-cases, Result-cases, inl, inr,
  if◌then◌else◌, All, bind-value, All-filter, ◌==◌,
}
use busd.Order.{nat_order, bytes_order}
use busd.Map.{get, contains_key, keys}
use busd.Map.Keys.{Entries, Entries-get}
use busd.Protocol.Types.{PeerId, Namespace, Headers, Destination, ClientId, ClientSelection}
use busd.Policy.{Action}
use busd.Broker.Types.{Broker}
use busd.Broker.Session.{credentials, authorize}
use busd.Broker.Registry.{Subscribers}
use busd.Broker.Routing.{
  namespace_owner, to_list, matching_subscribers, matching_clients, select, candidates,
  is_multicast, some_recipient, route,
}
use busd.Broker.Invariant.{Peers, IsConnected, IsPeer, IsWellFormed}
use busd.Broker.Invariant.Session.{credentials-IsConnected}
use busd.Broker.Invariant.Registry.{subscribers_of-IsConnected}

abbrev pub AllConnected : Peers → List PeerId → Type 0
AllConnected ps l = All (IsConnected ps) l

matching_subscribers-connected :
    (ps : Peers) (headers : Headers) (s : Subscribers)
    → Entries (λ p f. IsConnected ps p) s
    → AllConnected ps (matching_subscribers headers s)
unfolding matching_subscribers
matching_subscribers-connected ps headers [] h = tt
matching_subscribers-connected ps headers ((p, f) ∷ s) h =
    ground (arith, matching_subscribers-connected ps headers s h.1)

select-connected :
    (ps : Peers) (s : ClientSelection) (l : List PeerId)
    → AllConnected ps l
    → AllConnected ps (select s l)
select-connected ps ClientSelection.first [] h = tt
select-connected ps ClientSelection.first (x ∷ l) h = (h.0, tt)
select-connected ps ClientSelection.any_of [] h = tt
select-connected ps ClientSelection.any_of (x ∷ l) h = (h.0, tt)
select-connected ps ClientSelection.all_of l h = h

matching_clients-connected :
    (ps : Peers) (c : ClientId) (m : Peers)
    → Entries (λ k p. IsConnected ps p.id) m
    → AllConnected ps (matching_clients c m)
unfolding matching_clients
matching_clients-connected ps c [] h = tt
matching_clients-connected ps c ((k, p) ∷ m) h =
    ground (arith, matching_clients-connected ps c m h.1)

-- Every key of a map, and so every peer's own identifier, is connected.
keys-IsConnected :
    (n : ℕ) (ps m : Peers)
    → ((k : PeerId) → IsConnected m k → IsConnected ps k)
    → Entries (IsPeer n) m
    → Entries (λ k p. IsConnected ps p.id) m × AllConnected ps (keys m)
keys-IsConnected n ps [] grow h = (tt, tt)
keys-IsConnected n ps ((k, p) ∷ m) grow h =
    let rest = keys-IsConnected n ps m (λ j c. grow j (ground arith)) h.1 in
    let here : IsConnected ps k = grow k (ground arith) in ((ground arith, rest.0), (here, rest.1))

if_connected :
    (ps : Peers) (p : PeerId) → AllConnected ps (if contains_key p ps then p ∷ [] else [])
if_connected ps p = elim (Bool-cases (contains_key p ps)) [ inl e ↦ rw e (e, tt) | inr e ↦ rw e tt ]

owner-connected :
    (b : Broker) (n : Namespace)
    → IsWellFormed b
    → AllConnected b.peers (to_list (namespace_owner b n))
unfolding namespace_owner
owner-connected b n w = elim (Option-cases (get n b.namespaces)) [
  | inl e ↦ rw e tt
  | inr (p, e) ↦ rw e (Entries-get (λ n p. IsConnected b.peers p) n p b.namespaces e w.owners, tt)
]

own_keys-IsConnected :
    (b : Broker)
    → IsWellFormed b
    → Entries (λ k p. IsConnected b.peers p.id) b.peers × AllConnected b.peers (keys b.peers)
own_keys-IsConnected b w = keys-IsConnected b.next_peer b.peers b.peers (λ k h. h) w.peers

pub candidates-connected :
    (b : Broker) (sender : PeerId) (d : Destination) (headers : Headers) (l : List PeerId)
    → IsWellFormed b
    → candidates b sender d headers ≡ ok l
    → AllConnected b.peers l
unfolding candidates
candidates-connected b sender Destination.broker headers l w h = cc
candidates-connected b sender (Destination.peer p) headers l w h =
    rw (bind-value (authorize b sender (Action.send_peer p)) _ l h) (if_connected b.peers p)
candidates-connected b sender (Destination.namespace n) headers l w h =
    rw (bind-value (authorize b sender (Action.send_namespace n)) _ l h) (owner-connected b n w)
candidates-connected b sender (Destination.channel c) headers l w h =
    rw (bind-value (authorize b sender (Action.publish c)) _ l h)
      (matching_subscribers-connected b.peers headers _ (subscribers_of-IsConnected b c w))
candidates-connected b sender (Destination.client_id c s) headers l w h =
    rw (bind-value (authorize b sender (Action.send_client c)) _ l h) (
      select-connected b.peers s _
        (matching_clients-connected b.peers c b.peers (own_keys-IsConnected b w).0))
candidates-connected b sender Destination.broadcast headers l w h =
    rw (bind-value (authorize b sender Action.broadcast) _ l h) (
      All-filter (IsConnected b.peers) (λ p. not (p == sender)) (keys b.peers)
        (own_keys-IsConnected b w).1)

some_recipient-eq :
    (multicast : Bool) (found l : List PeerId) → some_recipient multicast found ≡ ok l → l ≡ found
some_recipient-eq multicast [] l h = ground arith
some_recipient-eq multicast (r ∷ rs) l h = cc

-- What a successful route passed on the way.
pub route_parts :
    (b : Broker) (sender : PeerId) (d : Destination) (headers : Headers) (l : List PeerId)
    → route b sender d headers ≡ ok l
    → (IsConnected b.peers sender)
      × (candidates b sender d headers ≡ ok l)
      × (some_recipient (is_multicast d) l ≡ ok l)
unfolding route
route_parts b sender d headers l h = elim (Result-cases (credentials b sender)) [
  | inr (e, q) ↦ absurd (ground arith)
  | inl (c, q) ↦ elim (Result-cases (candidates b sender d headers)) [
    | inr (e, r) ↦ absurd (ground arith)
    | inl (found, r) ↦
        let s : some_recipient (is_multicast d) found ≡ ok l = ground arith in
        let same : l ≡ found = some_recipient-eq (is_multicast d) found l s in
        (credentials-IsConnected b sender c q, rw same r, rw (← same) at s)
  ]
]

-- Every recipient that a route finds is connected, in a well-formed state.
pub route-connected :
    (b : Broker) (sender : PeerId) (d : Destination) (headers : Headers) (l : List PeerId)
    → IsWellFormed b
    → route b sender d headers ≡ ok l
    → AllConnected b.peers l
route-connected b sender d headers l w h =
    candidates-connected b sender d headers l w (route_parts b sender d headers l h).1
