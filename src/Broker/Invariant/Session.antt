-- ===== src/Broker/Invariant/Session.antt =====
-- `connect_session`, `record_monitor` and the invariant.
use busd.Prelude.{
  ℕ, ◌+◌, ◌-◌, ◌≤◌, ◌<◌, ◌≡◌, refl, Option, List, [], ◌∷◌, ◌++◌, length, length-append, All-mono,
  Result, ok, err, arith, if◌then◌else◌, ◌==◌,
}
use busd.Order.{nat_order, bytes_order}
use busd.Map.{insert}
use busd.Map.Laws.{contains_key-get, contains_key-insert}
use busd.Map.Keys.{Entries_mono, Entries-insert, IsAscending-insert}
use busd.Protocol.Types.{Text, PeerId, MessageId, Channel}
use busd.Policy.{Credentials, Action}
use busd.Broker.Types.{ClientHello, MonitorKind, MonitorEvent, Error, Peer, PendingDelivery, Broker}
use busd.Broker.Checks.{validate_claimed_headers}
use busd.Broker.Exec.{Exec, continue}
use busd.Broker.Reliability.{u64_max}
use busd.Broker.Session.{
  tail, max_monitor_events, record_monitor, credentials, authorize, authorize_hello, admit,
  next_id_check, connect_session, intersection,
}
use busd.Broker.Registry.{Subscribers}
use busd.Broker.Invariant.{Peers, IsConnected, IsPending, IsSubscribed, IsPeer, IsWellFormed}

-- A property that holds before a step that only reads, and after what follows a success.
pub after {ℓ} :
    {A B : Type ℓ} (P : Broker → Type 0) (r : Result Error A) (f : A → Exec B) (b : Broker)
    → P b
    → ((a : A) → r ≡ ok a → P (f a b).1)
    → P (continue r f b).1
after P (ok a) f b p h = h a refl
after P (err e) f b p h = p

length-tail : (l : List MonitorEvent) → length (tail l) ≡ length l - 1
length-tail [] = refl
length-tail (e ∷ es) = omega arith

pub ring_bound :
    (l : List MonitorEvent) (e : MonitorEvent)
    → length l ≤ max_monitor_events
    → length ((if length l == max_monitor_events then tail l else l) ++ e ∷ []) ≤ max_monitor_events
ring_bound l e h =
    ground (arith, length-append l (e ∷ []), length-append (tail l) (e ∷ []), length-tail l)

pub record_monitor-IsWellFormed :
    (kind : MonitorKind) (peer : PeerId) (target : Option Text) (id : Option MessageId) (bytes : ℕ)
    (b : Broker)
    → IsWellFormed b
    → IsWellFormed (record_monitor kind peer target id bytes b)
unfolding record_monitor
record_monitor-IsWellFormed kind peer target id bytes b w = record {
  next_low = w.next_low;
  next_high = w.next_high;
  peers = w.peers;
  ascending = w.ascending;
  owners = w.owners;
  dbus_owners = w.dbus_owners;
  subscriptions = w.subscriptions;
  deliveries = w.deliveries;
  sorted = w.sorted;
  monitored = ring_bound b.monitor_events _ w.monitored;
}

-- Only connected peers are authorized.
pub authorize-IsConnected :
    (b : Broker) (peer : PeerId) (action : Action)
    → authorize b peer action ≡ ok tt
    → IsConnected b.peers peer
unfolding authorize
authorize-IsConnected b peer action h = ground (arith, contains_key-get peer b.peers)

pub credentials-IsConnected :
    (b : Broker) (peer : PeerId) (c : Credentials)
    → credentials b peer ≡ ok c
    → IsConnected b.peers peer
unfolding credentials
credentials-IsConnected b peer c h = ground (arith, contains_key-get peer b.peers)

-- More peers connected: what was connected stays so.
module _ (ps qs : Peers) (grow : (p : PeerId) → IsConnected ps p → IsConnected qs p) where
  pub IsPending-grow :
      (id : MessageId) (d : PendingDelivery) → IsPending ps id d → IsPending qs id d
  IsPending-grow id d h = record {
    recipients = All-mono (IsConnected ps) (IsConnected qs) grow d.recipients h.recipients;
    acknowledgements = h.acknowledgements;
    responses = h.responses;
    tracked = h.tracked;
  }

  pub IsSubscribed_grow :
      (channel : Channel) (s : Subscribers) → IsSubscribed ps channel s → IsSubscribed qs channel s
  IsSubscribed_grow channel s h = (
    Entries_mono (λ p filters. IsConnected ps p) (λ p filters. IsConnected qs p)
        (λ p filters. grow p) s h.0,
    h.1,
    h.2,
  )

IsPeer_later : (n : ℕ) (id : PeerId) (p : Peer) → IsPeer n id p → IsPeer (n + 1) id p
IsPeer_later n id p h = (h.0, omega arith, h.2)

insert_grows :
    (id : PeerId) (peer : Peer) (ps : Peers) (p : PeerId)
    → IsConnected ps p
    → IsConnected (insert id peer ps) p
insert_grows id peer ps p h = ground (arith, contains_key-insert p id peer ps)

pub admit-IsWellFormed :
    (c : Credentials) (hello : ClientHello) (b : Broker)
    → IsWellFormed b
    → b.next_peer < u64_max
    → IsWellFormed (admit c hello b).1
unfolding admit
admit-IsWellFormed c hello b w room =
    let id = b.next_peer in
    let peer : Peer = record {
      id = id;
      credentials = c;
      hello = hello;
      capabilities = intersection b.capabilities hello.capabilities;
    } in
    let ps = insert id peer b.peers in
    let grow = insert_grows id peer b.peers in
    record {
      next_low = omega arith;
      next_high = omega arith;
      peers =
          Entries-insert (IsPeer (id + 1)) id peer b.peers (w.next_low, omega arith, refl)
            (Entries_mono (IsPeer id) (IsPeer (id + 1)) (IsPeer_later id) b.peers w.peers);
      ascending = IsAscending-insert id peer b.peers w.ascending;
      owners =
          Entries_mono (λ n p. IsConnected b.peers p) (λ n p. IsConnected ps p) (λ n. grow)
            b.namespaces w.owners;
      dbus_owners =
          Entries_mono (λ n p. IsConnected b.peers p) (λ n p. IsConnected ps p) (λ n. grow)
            b.dbus_names w.dbus_owners;
      subscriptions =
          Entries_mono (IsSubscribed b.peers) (IsSubscribed ps) (IsSubscribed_grow b.peers ps grow)
            b.subscriptions w.subscriptions;
      deliveries =
          Entries_mono (IsPending b.peers) (IsPending ps) (IsPending-grow b.peers ps grow)
            b.deliveries w.deliveries;
      sorted = w.sorted;
      monitored = ring_bound b.monitor_events _ w.monitored;
    }

next_id_check-room : (b : Broker) → next_id_check b ≡ ok tt → b.next_peer < u64_max
next_id_check-room b h = ground arith

pub connect_session-IsWellFormed :
    (c : Credentials) (hello : ClientHello) (b : Broker)
    → IsWellFormed b
    → IsWellFormed (connect_session c hello b).1
unfolding connect_session
connect_session-IsWellFormed c hello b w =
    after IsWellFormed (validate_claimed_headers hello.headers) _ b w λ _ _.
      after IsWellFormed (authorize_hello b c hello Action.connect) _ b w λ _ _.
        after IsWellFormed (next_id_check b) _ b w
          λ _ room. admit-IsWellFormed c hello b w (next_id_check-room b room)
