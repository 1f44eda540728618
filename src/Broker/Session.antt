-- ===== src/Broker/Session.antt =====
-- Authorization, monitoring records and the start of a session.
use busd.Prelude.{
  ℕ, ◌+◌, Option, none, some, List, [], ◌∷◌, ◌++◌, leb, ◌==◌, length, Result, ok, err, filter,
  if◌then◌else◌,
}
use busd.Order.{nat_order, bytes_order}
use busd.Map.{get, insert, contains}
use busd.Protocol.Types.{Text, PeerId, MessageId, Capabilities}
use busd.Policy.{Credentials, Action}
use busd.Broker.Types.{
  ClientHello, Peer, ConnectedPeer, MonitorKind, MonitorEvent, Error, unknown_peer, denied,
  peer_id_exhausted, peer_connected, Broker,
}
use busd.Broker.Exec.{Exec, ◌>>=◌, ◌>>◌, pure, reads}
use busd.Broker.Checks.{validate_claimed_headers}
use busd.Broker.Reliability.{saturating_add, u64_max}

abbrev pub max_monitor_events : ℕ
max_monitor_events = 1024

-- `pop_front`
abbrev pub tail : List MonitorEvent → List MonitorEvent
tail [] = []
tail (e ∷ es) = es

unfoldable pub record_monitor :
    MonitorKind → PeerId → Option Text → Option MessageId → ℕ → Broker → Broker
record_monitor kind peer target message_id payload_bytes b =
    let kept =
      (if length b.monitor_events == max_monitor_events
        then tail b.monitor_events
        else b.monitor_events) in
    let event : MonitorEvent = record {
      sequence = b.next_monitor_sequence;
      kind = kind;
      peer = peer;
      target = target;
      message_id = message_id;
      payload_bytes = payload_bytes;
    } in
    record b {
      monitor_events = kept ++ event ∷ [];
      next_monitor_sequence = saturating_add b.next_monitor_sequence 1;
    }

-- `credentials`
credentials_of : PeerId → Option Peer → Result Error Credentials
credentials_of peer none = err (unknown_peer peer)
credentials_of peer (some p) = ok p.credentials

unfoldable pub credentials : Broker → PeerId → Result Error Credentials
unfolding credentials_of
credentials b peer = credentials_of peer (get peer b.peers)

-- `authorize_hello`
unfoldable pub authorize_hello :
    Broker → Credentials → ClientHello → Action → Result Error (Unit {0})
authorize_hello b credentials hello action =
    if b.policy (record {
      credentials = credentials;
      client_id = hello.client_id;
      claimed_headers = hello.headers;
      action = action;
    })
    then ok tt
    else err (denied action)

authorize_peer : Broker → Action → PeerId → Option Peer → Result Error (Unit {0})
unfolding authorize_hello
authorize_peer b action peer none = err (unknown_peer peer)
authorize_peer b action peer (some p) = authorize_hello b p.credentials p.hello action

-- `authorize`
unfoldable pub authorize : Broker → PeerId → Action → Result Error (Unit {0})
unfolding authorize_peer
authorize b peer action = authorize_peer b action peer (get peer b.peers)

-- `self.capabilities.intersection(&hello.capabilities)`
unfoldable pub intersection : Capabilities → Capabilities → Capabilities
intersection offered wanted = filter (λ c. contains c wanted) offered

-- The insertion of a peer with the next identifier.
unfoldable pub admit : Credentials → ClientHello → Exec ConnectedPeer
unfolding record_monitor intersection
admit credentials hello b =
    let id = b.next_peer in
    let capabilities = intersection b.capabilities hello.capabilities in
    let peer : Peer = record {
      id = id;
      credentials = credentials;
      hello = hello;
      capabilities = capabilities;
    } in
    let b' = record b {
      next_peer = b.next_peer + 1;
      peers = insert id peer b.peers;
      events = b.events ++ peer_connected id ∷ [];
    } in
    (
      ok (record { id = id; capabilities = capabilities }),
      record_monitor MonitorKind.connected id none none 0 b',
    )

-- `self.next_peer.checked_add(1).ok_or(Error::PeerIdExhausted)?`
abbrev pub next_id_check : Broker → Result Error (Unit {0})
next_id_check b = if leb u64_max b.next_peer then err peer_id_exhausted else ok tt

unfoldable pub connect_session : Credentials → ClientHello → Exec ConnectedPeer
connect_session credentials hello = do
  reads (λ b. validate_claimed_headers hello.headers)
  reads (λ b. authorize_hello b credentials hello Action.connect)
  reads next_id_check
  admit credentials hello

unfoldable pub connect : Credentials → ClientHello → Exec PeerId
connect credentials hello = do session ← connect_session credentials hello; pure session.id
