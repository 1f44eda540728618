-- ===== src/Broker/Release.antt =====
-- What `disconnect_with_events` releases, and what it leaves alone.
use busd.Prelude.{◌≡◌, ◌≢◌, refl, false, some, List, [], ◌∷◌, arith, ◌==◌, All}
use busd.Order.{nat_order, bytes_order}
use busd.Map.{Map, get, remove, contains_key, contains}
use busd.Map.Laws.{get-remove, contains_key-remove}
use busd.Map.Keys.{Entries, Entries-get}
use busd.Protocol.Types.{Text, PeerId, MessageId, Namespace, Channel}
use busd.Broker.Types.{Broker, PendingDelivery}
use busd.Broker.Session.{record_monitor}
use busd.Broker.Registry.{Subscribers, subscribers_of}
use busd.Broker.Disconnect.{retain_others, remove_peer, fail_waiting, disconnect_with_events}
use busd.Broker.Invariant.{Peers, IsConnected, IsPending, IsWellFormed}
use busd.Broker.Invariant.Disconnect.{drop_all-remove_all, disconnect_with_events-IsWellFormed}
use busd.Broker.Invariant.Registry.{subscribers_of-IsConnected}

-- `c` is `b` after `peer` has left.
pub record Released (peer : PeerId) (b c : Broker) : Type 0 where
  pub gone : contains_key peer c.peers ≡ false
  pub others : (p : PeerId) → (p == peer) ≡ false → get p c.peers ≡ get p b.peers
  pub unowned : (n : Namespace) → get n c.namespaces ≢ some peer
  pub owners_kept :
      (n : Namespace) (p : PeerId)
      → get n b.namespaces ≡ some p
      → (p == peer) ≡ false
      → get n c.namespaces ≡ some p
  pub dbus_unowned : (n : Text) → get n c.dbus_names ≢ some peer
  pub dbus_kept :
      (n : Text) (p : PeerId)
      → get n b.dbus_names ≡ some p
      → (p == peer) ≡ false
      → get n c.dbus_names ≡ some p
  pub unsubscribed :
      (channel : Channel) → contains_key peer (subscribers_of (get channel c.subscriptions)) ≡ false
  pub not_awaited :
      (id : MessageId) (d : PendingDelivery)
      → get id c.deliveries ≡ some d
      → contains peer d.recipients ≡ false

get-retain_others :
    (peer : PeerId) (n : Text) (p : PeerId) (m : Map Text PeerId)
    → get n m ≡ some p
    → (p == peer) ≡ false
    → get n (retain_others peer m) ≡ some p
unfolding retain_others
get-retain_others peer n p [] h k = cc
get-retain_others peer n p ((j, q) ∷ m) h k = ground (arith, get-retain_others peer n p m)

-- The parts of the state after the disconnection of a connected peer.
pub disconnect_parts :
    (peer : PeerId) (b : Broker)
    → IsConnected b.peers peer
    → let c = (disconnect_with_events peer b).1 in
      (c.peers ≡ remove peer b.peers)
      × (c.namespaces ≡ retain_others peer b.namespaces)
      × (c.dbus_names ≡ retain_others peer b.dbus_names)
unfolding disconnect_with_events remove_peer fail_waiting record_monitor
disconnect_parts peer b h = rw (h, drop_all-remove_all) (refl, refl, refl)

-- Nobody among connected peers is one that is not connected.
contains-connected :
    (ps : Peers) (peer : PeerId) (l : List PeerId)
    → All (IsConnected ps) l
    → contains_key peer ps ≡ false
    → contains peer l ≡ false
contains-connected ps peer [] a h = refl
contains-connected ps peer (r ∷ l) a h = ground (arith, contains-connected ps peer l a.1 h)

contains_key-connected :
    (ps : Peers) (peer : PeerId) (s : Subscribers)
    → Entries (λ p f. IsConnected ps p) s
    → contains_key peer ps ≡ false
    → contains_key peer s ≡ false
contains_key-connected ps peer [] a h = refl
contains_key-connected ps peer ((p, f) ∷ s) a h =
    ground (arith, contains_key-connected ps peer s a.1 h)

-- After the disconnection of a connected peer from a well-formed state it is no peer any more, owns
-- no namespace and no D-Bus name, subscribes to no channel and is awaited by no delivery; the other
-- peers, and what they own, are as before.
pub disconnect-Released :
    (peer : PeerId) (b : Broker)
    → IsWellFormed b
    → IsConnected b.peers peer
    → Released peer b (disconnect_with_events peer b).1
disconnect-Released peer b w h =
    let c = (disconnect_with_events peer b).1 in
    let (ps, ns, ds) = disconnect_parts peer b h in
    let v : IsWellFormed c = disconnect_with_events-IsWellFormed peer b w in
    let left : contains_key peer c.peers ≡ false =
      ground (arith, ps, contains_key-remove peer peer b.peers) in
    record {
      gone = left;
      others = λ p k. rw (ps, get-remove) (ground arith);
      unowned = λ n e.
          cc (left, Entries-get (λ n p. IsConnected c.peers p) n peer c.namespaces e v.owners);
      owners_kept = λ n p e k. rw ns (get-retain_others peer n p b.namespaces e k);
      dbus_unowned = λ n e.
          cc (left, Entries-get (λ n p. IsConnected c.peers p) n peer c.dbus_names e v.dbus_owners);
      dbus_kept = λ n p e k. rw ds (get-retain_others peer n p b.dbus_names e k);
      unsubscribed = λ channel.
          contains_key-connected c.peers peer _ (subscribers_of-IsConnected c channel v) left;
      not_awaited = λ id d e.
          contains-connected c.peers peer d.recipients
            (Entries-get (IsPending c.peers) id d c.deliveries e v.deliveries).recipients left;
    }
