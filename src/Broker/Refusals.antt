-- ===== src/Broker/Refusals.antt =====
-- What is left of a call that returns an error.
use busd.Prelude.{
  ℕ, ◌≡◌, refl, List, arith, Result, ok, err, Option, none, some, inl, inr, Result-cases,
}
use busd.Order.{nat_order, bytes_order}
use busd.Map.{collect}
use busd.Protocol.Types.{
  Text, Namespace, Channel, HeaderFilter, PeerId, MessageId, Message, Frame, message, AckPolicy,
}
use busd.Policy.{Credentials}
use busd.Broker.Types.{Broker, Error, ClientHello}
use busd.Broker.Session.{record_monitor, credentials, connect_session, admit}
use busd.Broker.Checks.{message_priority}
use busd.Broker.Registry.{claim, subscribe_with_filters, unsubscribe, register_dbus_name}
use busd.Broker.Routing.{route}
use busd.Broker.Reliability.{acknowledgement_satisfies}
use busd.Broker.Delivery.{count_routed, dispatch, deliver_to, deliver_routed, routed, begin_routing}
use busd.Broker.Responses.{accept_response, respond, complete_response, begin_delivery}
use busd.Broker.Acknowledge.{finish_ack, acknowledge_message, acknowledge_pending, acknowledge}
use busd.Broker.Disconnect.{remove_peer, fail_waiting, disconnect_with_events}
use busd.Broker.Steps.{Operation, run}

abbrev pub error_of {ℓ} : {A : Type ℓ} → Result Error A → Option Error
error_of (ok a) = none
error_of (err e) = some e

-- The error that a call returns. A tick and `drain_events` return none.
unfoldable pub failure : Operation → Broker → Option Error
failure (Operation.connect credentials hello) b = error_of (connect_session credentials hello b).0
failure (Operation.disconnect peer) b = error_of (disconnect_with_events peer b).0
failure (Operation.claim_namespace peer namespace) b = error_of (claim peer namespace b).0
failure (Operation.add_subscription peer channel filters) b =
    error_of (subscribe_with_filters peer channel filters b).0
failure (Operation.remove_subscription peer channel) b = error_of (unsubscribe peer channel b).0
failure (Operation.register_name peer name) b = error_of (register_dbus_name peer name b).0
failure (Operation.send sender frame now_ms) b = error_of (begin_delivery sender frame now_ms b).0
failure (Operation.confirm peer id policy) b = error_of (acknowledge peer id policy b).0
failure (Operation.advance now_ms) b = none
failure Operation.drain b = none

-- `c` is `b` but for the counters and the monitoring records.
pub record Kept (b c : Broker) : Type 0 where
  pub limits : c.limits ≡ b.limits
  pub next_peer : c.next_peer ≡ b.next_peer
  pub peers : c.peers ≡ b.peers
  pub namespaces : c.namespaces ≡ b.namespaces
  pub dbus_names : c.dbus_names ≡ b.dbus_names
  pub subscriptions : c.subscriptions ≡ b.subscriptions
  pub deliveries : c.deliveries ≡ b.deliveries
  pub events : c.events ≡ b.events

pub Kept-refl : (b : Broker) → Kept b b
Kept-refl b = record {
  limits = refl;
  next_peer = refl;
  peers = refl;
  namespaces = refl;
  dbus_names = refl;
  subscriptions = refl;
  deliveries = refl;
  events = refl;
}

acknowledge-refused :
    (p : PeerId) (id : MessageId) (a : AckPolicy) (b : Broker) (e : Error)
    → (acknowledge p id a b).0 ≡ err e
    → (acknowledge p id a b).1 ≡ b
unfolding acknowledge acknowledge_pending acknowledge_message finish_ack acknowledgement_satisfies
acknowledge-refused p id a b e h = ground arith

claim-refused :
    (p : PeerId) (n : Namespace) (b : Broker) (e : Error)
    → (claim p n b).0 ≡ err e
    → (claim p n b).1 ≡ b
unfolding claim
claim-refused p n b e h = ground arith

pub connect-refused :
    (c : Credentials) (q : ClientHello) (b : Broker) (e : Error)
    → (connect_session c q b).0 ≡ err e
    → (connect_session c q b).1 ≡ b
unfolding connect_session admit
connect-refused c q b e h = ground arith

disconnect-refused :
    (p : PeerId) (b : Broker) (e : Error)
    → (disconnect_with_events p b).0 ≡ err e
    → (disconnect_with_events p b).1 ≡ b
unfolding disconnect_with_events remove_peer fail_waiting
disconnect-refused p b e h = ground arith

subscribe-refused :
    (p : PeerId) (c : Channel) (f : List HeaderFilter) (b : Broker) (e : Error)
    → (subscribe_with_filters p c f b).0 ≡ err e
    → (subscribe_with_filters p c f b).1 ≡ b
unfolding subscribe_with_filters
subscribe-refused p c f b e h = ground arith

unsubscribe-refused :
    (p : PeerId) (c : Channel) (b : Broker) (e : Error)
    → (unsubscribe p c b).0 ≡ err e
    → (unsubscribe p c b).1 ≡ b
unfolding unsubscribe
unsubscribe-refused p c b e h = ground arith

register-refused :
    (p : PeerId) (n : Text) (b : Broker) (e : Error)
    → (register_dbus_name p n b).0 ≡ err e
    → (register_dbus_name p n b).1 ≡ b
unfolding register_dbus_name
register-refused p n b e h = ground arith

complete_response-refused :
    (p : PeerId) (m : Message) (b : Broker) (e : Error)
    → (complete_response p m b).0 ≡ err e
    → (complete_response p m b).1 ≡ b
unfolding complete_response respond accept_response
complete_response-refused p m b e h = ground arith

count_routed-Kept :
    (p : PeerId) (m : Message) (l : List PeerId) (b : Broker) → Kept b (count_routed p m l b)
unfolding count_routed record_monitor
count_routed-Kept p m l b = record {
  limits = refl;
  next_peer = refl;
  peers = refl;
  namespaces = refl;
  dbus_names = refl;
  subscriptions = refl;
  deliveries = refl;
  events = refl;
}

dispatch-refused :
    (p : PeerId) (m : Message) (now priority : ℕ) (l : List PeerId) (b : Broker) (e : Error)
    → (dispatch p m now priority l b).0 ≡ err e
    → (dispatch p m now priority l b).1 ≡ b
unfolding dispatch
dispatch-refused p m now priority l b e h = ground arith

deliver_to-refused :
    (p : PeerId) (m : Message) (now priority : ℕ) (l : List PeerId) (b : Broker) (e : Error)
    → (deliver_to p m now priority l b).0 ≡ err e
    → (deliver_to p m now priority l b).1 ≡ count_routed p m l b
unfolding deliver_to
deliver_to-refused p m now priority l b e h =
    ground (arith, dispatch-refused p m now priority l (count_routed p m l b) e)

deliver_routed-refused :
    (p : PeerId) (m : Message) (now priority : ℕ) (found : Option (List PeerId)) (b : Broker)
    (e : Error)
    → (deliver_routed p m now priority found b).0 ≡ err e
    → Kept b (deliver_routed p m now priority found b).1
deliver_routed-refused p m now priority none b e h = Kept-refl b
deliver_routed-refused p m now priority (some l) b e h =
    rw (deliver_to-refused p m now priority (collect l) b e h) (count_routed-Kept p m (collect l) b)

begin_routing-refused :
    (p : PeerId) (m : Message) (now priority : ℕ) (b : Broker) (e : Error)
    → (begin_routing p m now priority b).0 ≡ err e
    → Kept b (begin_routing p m now priority b).1
unfolding begin_routing
begin_routing-refused p m now priority b e h =
    elim (Result-cases (routed (route b p m.destination m.headers))) [
      | inr (x, q) ↦ ground (arith, Kept-refl b)
      | inl (found, q) ↦
          ground (arith, Kept-refl b, deliver_routed-refused p m now priority found b e)
    ]

begin_delivery-refused :
    (p : PeerId) (f : Frame) (now : ℕ) (b : Broker) (e : Error)
    → (begin_delivery p f now b).0 ≡ err e
    → Kept b (begin_delivery p f now b).1
unfolding begin_delivery
begin_delivery-refused p (message m) now b e h = elim (Result-cases (message_priority m.headers)) [
  | inr (x, q) ↦ ground (arith, Kept-refl b)
  | inl (priority, q) ↦ ground (
    arith,
    Kept-refl b,
    complete_response-refused p m b e,
    begin_routing-refused p m now priority b e,
  )
]
begin_delivery-refused p _ now b e h = Kept-refl b

unchanged : {b c : Broker} → c ≡ b → Kept b c
unchanged {b} h = rw h (Kept-refl b)

error_of-some {ℓ} : {A : Type ℓ} (r : Result Error A) (e : Error) → error_of r ≡ some e → r ≡ err e
error_of-some (ok a) e h = cc
error_of-some (err x) e h = cc

-- A call that returns an error, whichever call and error it is, leaves peers, namespaces, D-Bus
-- names, subscriptions, retained deliveries, lifecycle events, limits and the next identifier as
-- they were; only the counters and the monitoring records may have changed.
pub run_refused : (o : Operation) (b : Broker) (e : Error) → failure o b ≡ some e → Kept b (run o b)
unfolding failure run
run_refused (Operation.connect c q) b e h =
    unchanged (connect-refused c q b e (error_of-some _ e h))
run_refused (Operation.disconnect p) b e h =
    unchanged (disconnect-refused p b e (error_of-some _ e h))
run_refused (Operation.claim_namespace p n) b e h =
    unchanged (claim-refused p n b e (error_of-some _ e h))
run_refused (Operation.add_subscription p c f) b e h =
    unchanged (subscribe-refused p c f b e (error_of-some _ e h))
run_refused (Operation.remove_subscription p c) b e h =
    unchanged (unsubscribe-refused p c b e (error_of-some _ e h))
run_refused (Operation.register_name p n) b e h =
    unchanged (register-refused p n b e (error_of-some _ e h))
run_refused (Operation.send p f now) b e h =
    begin_delivery-refused p f now b e (error_of-some _ e h)
run_refused (Operation.confirm p id a) b e h =
    unchanged (acknowledge-refused p id a b e (error_of-some _ e h))
run_refused (Operation.advance now) b e h = cc
run_refused Operation.drain b e h = cc
