-- ===== src/Broker/Admission.antt =====
-- Who is connected, and with which capabilities.
use busd.Prelude.{
  ◌<◌, ◌≡◌, refl, Bool, true, false, not, ◌&&◌, some, List, [], ◌∷◌, arith, ok, leb, filter, all,
  Bool-cases, Result-cases, inl, inr,
}
use busd.Order.{nat_order, bytes_order, same_refl, same→eq}
use busd.Map.{get, contains, keys}
use busd.Map.Laws.{get-insert}
use busd.Protocol.Types.{Text, Headers}
use busd.Policy.{Credentials, Action}
use busd.Broker.Types.{Broker, ClientHello, ConnectedPeer, Peer}
use busd.Broker.Checks.{is_reserved_claim, validate_claimed_headers}
use busd.Broker.Reliability.{u64_max}
use busd.Broker.Session.{record_monitor, authorize_hello, intersection, admit, connect_session}

-- A client may connect: it claims no reserved header, the policy permits it, and an identifier is
-- left.
pub record MayConnect (credentials : Credentials) (hello : ClientHello) (b : Broker) : Type 0 where
  pub unreserved : all (λ name. not (is_reserved_claim name)) (keys hello.headers) ≡ true
  pub permitted :
      b.policy (record {
        credentials = credentials;
        client_id = hello.client_id;
        claimed_headers = hello.headers;
        action = Action.connect;
      })
      ≡ true
  pub identifier_left : b.next_peer < u64_max

abbrev none_reserved : Headers → Bool
none_reserved headers = all (λ name. not (is_reserved_claim name)) (keys headers)

validated :
    (headers : Headers) → validate_claimed_headers headers ≡ ok tt → none_reserved headers ≡ true
unfolding validate_claimed_headers
validated [] h = refl
validated ((name, value) ∷ headers) h = elim (Bool-cases (is_reserved_claim name)) [
  | inl e ↦ absurd (ground arith)
  | inr e ↦ rw e (validated headers (rw e at h))
]

validates :
    (headers : Headers) → none_reserved headers ≡ true → validate_claimed_headers headers ≡ ok tt
unfolding validate_claimed_headers
validates [] h = refl
validates ((name, value) ∷ headers) h = elim (Bool-cases (is_reserved_claim name)) [
  | inl e ↦ absurd (ground arith)
  | inr e ↦ rw e (validates headers (rw e at h))
]

contains-filter :
    (p : Text → Bool) (c : Text) (l : List Text) → contains c (filter p l) ≡ (contains c l && p c)
contains-filter p c [] = refl
contains-filter p c (d ∷ l) = ground (arith, contains-filter p c l, same→eq c d)

-- The session of a connected client: a peer with the credentials and the hello that were given, and
-- with those capabilities that both the broker and the client offer.
pub record Connected (credentials : Credentials) (hello : ClientHello) (b c : Broker)
    (session : ConnectedPeer) : Type 0 where
  pub kept :
      get session.id c.peers
      ≡ some (record {
        id = session.id;
        credentials = credentials;
        hello = hello;
        capabilities = session.capabilities;
      })
  pub capabilities :
      (name : Text)
      → contains name session.capabilities
        ≡ (contains name b.capabilities && contains name hello.capabilities)

abbrev session_of : ClientHello → Broker → ConnectedPeer
session_of hello b = record {
  id = b.next_peer;
  capabilities = intersection b.capabilities hello.capabilities;
}

abbrev peer_of : Credentials → ClientHello → Broker → Peer
peer_of credentials hello b = record {
  id = b.next_peer;
  credentials = credentials;
  hello = hello;
  capabilities = intersection b.capabilities hello.capabilities;
}

connected_parts :
    (credentials : Credentials) (hello : ClientHello) (b : Broker) (s : ConnectedPeer)
    → (connect_session credentials hello b).0 ≡ ok s
    → (s ≡ session_of hello b)
      × ((connect_session credentials hello b).1 ≡ (admit credentials hello b).1)
unfolding connect_session admit
connected_parts credentials hello b s h = ground arith

-- A connection is accepted exactly when the client claims no reserved header, the policy permits it
-- and an identifier is left.
pub connect_session_accepts :
    (credentials : Credentials) (hello : ClientHello) (b : Broker)
    → (MayConnect credentials hello b
        → (s : ConnectedPeer) × ((connect_session credentials hello b).0 ≡ ok s))
      × ((s : ConnectedPeer)
          → (connect_session credentials hello b).0 ≡ ok s
          → MayConnect credentials hello b)
unfolding connect_session authorize_hello
connect_session_accepts credentials hello b = (
  λ m.
      let v : validate_claimed_headers hello.headers ≡ ok tt =
        validates hello.headers m.unreserved in
      let n : leb u64_max b.next_peer ≡ false = ground (arith, m.identifier_left) in
      (session_of hello b, unfold admit in rw (v, m.permitted, n) refl),
  λ s h. elim (Result-cases (validate_claimed_headers hello.headers)) [
    | inr (e, q) ↦ absurd (ground arith)
    | inl (u, q) ↦ record {
      unreserved = validated hello.headers q;
      permitted = ground arith;
      identifier_left = ground arith;
    }
  ],
)

-- The session of an accepted connection: the peer is kept with its credentials and hello, and with
-- the capabilities that both sides offer.
pub connect_session-Connected :
    (credentials : Credentials) (hello : ClientHello) (b : Broker) (s : ConnectedPeer)
    → (connect_session credentials hello b).0 ≡ ok s
    → Connected credentials hello b (connect_session credentials hello b).1 s
unfolding intersection
connect_session-Connected credentials hello b s h =
    let parts = connected_parts credentials hello b s h in
    rw (parts.0, parts.1)
      (unfold admit record_monitor in
        record {
          kept = ground (
            arith,
            get-insert b.next_peer b.next_peer (peer_of credentials hello b) b.peers,
            same_refl b.next_peer,
          );
          capabilities =
              λ name. contains-filter (λ c. contains c hello.capabilities) name b.capabilities;
        })
