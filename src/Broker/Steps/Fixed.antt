-- ===== src/Broker/Steps/Fixed.antt =====
-- The limits and the counter of peer identifiers over sequences of calls.
use busd.Prelude.{◌∙◌, Bool, true, false, ℕ, ◌≤◌, ◌<◌, ◌≡◌, refl, List, [], ◌∷◌, arith, ok, Option}
use busd.Order.{nat_order, bytes_order}
use busd.Map.{get, keys}
use busd.Protocol.Types.{
  Text, Namespace, Channel, HeaderFilter, PeerId, MessageId, Message, Frame, message, AckPolicy,
}
use busd.Policy.{Credentials}
use busd.Broker.Types.{Broker, ClientHello, ConnectedPeer, PendingDelivery}
use busd.Broker.Session.{record_monitor, credentials, connect_session, admit}
use busd.Broker.Checks.{validate_message_headers, message_priority}
use busd.Broker.Invariant.Session.{after}
use busd.Broker.Registry.{
  claim, add_claim, subscribe_with_filters, add_subscription, unsubscribe, register_dbus_name,
}
use busd.Broker.Delivery.{count_routed, add_delivery, dispatch, deliver_to, begin_routing}
use busd.Broker.Responses.{respond, complete_response, begin_delivery}
use busd.Broker.Acknowledge.{
  drop_delivery, finish_ack, acknowledge_message, acknowledge_pending, acknowledge,
}
use busd.Broker.Tick.{Progress, time_out, exhaust, retry_delivery, tick_one, tick_all, tick}
use busd.Broker.Disconnect.{remove_peer, affected, drop_all, fail_waiting, disconnect_with_events}
use busd.Broker.Views.{drain_events}
use busd.Broker.Steps.{Operation, run, Reach, here, next, call}

abbrev pub Later : Broker → Broker → Type 0
Later b c = (c.limits ≡ b.limits) × (b.next_peer ≤ c.next_peer)

-- The calls that neither connect nor disconnect a peer keep these fields.
abbrev pub Quiet : Broker → Broker → Type 0
Quiet b c = (c.limits ≡ b.limits) × (c.next_peer ≡ b.next_peer) × (c.peers ≡ b.peers)

pub Quiet-trans : (b c d : Broker) → Quiet b c → Quiet c d → Quiet b d
Quiet-trans b c d q p = (p.0 ∙ q.0, p.1 ∙ q.1, p.2 ∙ q.2)

Quiet-Later : (b c : Broker) → Quiet b c → Later b c
Quiet-Later b c q = (q.0, omega (arith, q.1))

module _ (b : Broker) where
  claim-Quiet : (p : PeerId) (n : Namespace) → Quiet b (claim p n b).1
  unfolding claim add_claim record_monitor
  claim-Quiet p n = ground arith

  subscribe-Quiet :
      (p : PeerId) (c : Channel) (f : List HeaderFilter)
      → Quiet b (subscribe_with_filters p c f b).1
  unfolding subscribe_with_filters add_subscription record_monitor
  subscribe-Quiet p c f = ground arith

  unsubscribe-Quiet : (p : PeerId) (c : Channel) → Quiet b (unsubscribe p c b).1
  unfolding unsubscribe
  unsubscribe-Quiet p c = ground arith

  register_dbus_name-Quiet : (p : PeerId) (n : Text) → Quiet b (register_dbus_name p n b).1
  unfolding register_dbus_name
  register_dbus_name-Quiet p n = ground arith

  connect-Later : (c : Credentials) (h : ClientHello) → Later b (connect_session c h b).1
  unfolding connect_session admit
  connect-Later c h = ground arith

  complete_response-Quiet : (p : PeerId) (m : Message) → Quiet b (complete_response p m b).1
  unfolding complete_response respond
  complete_response-Quiet p m = ground arith

  begin_routing-Quiet :
      (p : PeerId) (m : Message) (now priority : ℕ) → Quiet b (begin_routing p m now priority b).1
  unfolding begin_routing deliver_to dispatch add_delivery count_routed record_monitor
  begin_routing-Quiet p m now priority = ground arith

  acknowledge-Quiet :
      (p : PeerId) (id : MessageId) (a : AckPolicy) → Quiet b (acknowledge p id a b).1
  unfolding acknowledge acknowledge_pending acknowledge_message finish_ack record_monitor
  acknowledge-Quiet p id a = ground arith

  begin_delivery-Quiet : (p : PeerId) (f : Frame) (now : ℕ) → Quiet b (begin_delivery p f now b).1
  unfolding begin_delivery
  begin_delivery-Quiet p (message m) now =
      let same : Quiet b b = (refl, refl, refl) in
      after (Quiet b) (credentials b p) _ b same λ _ _.
        after (Quiet b) (validate_message_headers m.headers) _ b same λ _ _.
          after (Quiet b) (message_priority m.headers) _ b same λ priority _.
            ground (arith, complete_response-Quiet p m, begin_routing-Quiet p m now priority)
  begin_delivery-Quiet p _ now = ground arith

drop_all-Quiet : (l : List (MessageId × PeerId)) (b : Broker) → Quiet b (drop_all l b)
unfolding drop_all
drop_all-Quiet [] b = (refl, refl, refl)
drop_all-Quiet ((id, p) ∷ l) b = ground (arith, drop_all-Quiet l (drop_delivery id b))

pub disconnect-Later : (p : PeerId) (b : Broker) → Later b (disconnect_with_events p b).1
unfolding disconnect_with_events remove_peer fail_waiting record_monitor
disconnect-Later p b =
    ground (arith, drop_all-Quiet (affected p (remove_peer p b).1.deliveries) (remove_peer p b).1)

tick_one-Quiet :
    (now : ℕ) (id : MessageId) (o : Option PendingDelivery) (p : Progress)
    → Quiet p.broker (tick_one now id o p).broker
unfolding tick_one time_out exhaust retry_delivery record_monitor
tick_one-Quiet now id o p = ground arith

tick_all-Quiet :
    (now : ℕ) (ids : List MessageId) (p : Progress) → Quiet p.broker (tick_all now ids p).broker
unfolding tick_all
tick_all-Quiet now [] p = (refl, refl, refl)
tick_all-Quiet now (id ∷ ids) p =
    let o = get id p.broker.deliveries in
    ground (arith, tick_one-Quiet now id o p, tick_all-Quiet now ids (tick_one now id o p))

abbrev pub is_quiet : Operation → Bool
is_quiet (Operation.connect c h) = false
is_quiet (Operation.disconnect p) = false
is_quiet _ = true

pub run-Quiet : (o : Operation) (b : Broker) → is_quiet o ≡ true → Quiet b (run o b)
unfolding run
run-Quiet (Operation.connect c h) b q = absurd (ground arith)
run-Quiet (Operation.disconnect p) b q = absurd (ground arith)
run-Quiet (Operation.claim_namespace p n) b q = claim-Quiet b p n
run-Quiet (Operation.add_subscription p c f) b q = subscribe-Quiet b p c f
run-Quiet (Operation.remove_subscription p c) b q = unsubscribe-Quiet b p c
run-Quiet (Operation.register_name p n) b q = register_dbus_name-Quiet b p n
run-Quiet (Operation.send p f now) b q = begin_delivery-Quiet b p f now
run-Quiet (Operation.confirm p id a) b q = acknowledge-Quiet b p id a
run-Quiet (Operation.advance now) b q = unfold tick in tick_all-Quiet now (keys b.deliveries) _
run-Quiet Operation.drain b q = unfold drain_events in (refl, refl, refl)

pub run-Later : (o : Operation) (b : Broker) → Later b (run o b)
unfolding run
run-Later (Operation.connect c h) b = connect-Later b c h
run-Later (Operation.disconnect p) b = disconnect-Later p b
run-Later (Operation.claim_namespace p n) b =
    Quiet-Later b (run (Operation.claim_namespace p n) b)
      (run-Quiet (Operation.claim_namespace p n) b refl)
run-Later (Operation.add_subscription p c f) b =
    Quiet-Later b (run (Operation.add_subscription p c f) b)
      (run-Quiet (Operation.add_subscription p c f) b refl)
run-Later (Operation.remove_subscription p c) b =
    Quiet-Later b (run (Operation.remove_subscription p c) b)
      (run-Quiet (Operation.remove_subscription p c) b refl)
run-Later (Operation.register_name p n) b =
    Quiet-Later b (run (Operation.register_name p n) b)
      (run-Quiet (Operation.register_name p n) b refl)
run-Later (Operation.send p f now) b =
    Quiet-Later b (run (Operation.send p f now) b) (run-Quiet (Operation.send p f now) b refl)
run-Later (Operation.confirm p id a) b =
    Quiet-Later b (run (Operation.confirm p id a) b) (run-Quiet (Operation.confirm p id a) b refl)
run-Later (Operation.advance now) b =
    Quiet-Later b (run (Operation.advance now) b) (run-Quiet (Operation.advance now) b refl)
run-Later Operation.drain b =
    Quiet-Later b (run Operation.drain b) (run-Quiet Operation.drain b refl)

pub Reach-Later : {b c : Broker} → Reach b c → Later b c
Reach-Later here = (refl, omega arith)
Reach-Later (next r (call o d)) = ground (arith, Reach-Later r, run-Later o d)

-- What a successful connection returns and changes.
pub connect_session-admit :
    (c : Credentials) (h : ClientHello) (b : Broker) (s : ConnectedPeer)
    → (connect_session c h b).0 ≡ ok s
    → (s.id ≡ b.next_peer) × ((connect_session c h b).1 ≡ (admit c h b).1)
unfolding connect_session admit
connect_session-admit c h b s e = ground arith

-- An identifier that a connection returns was never returned before, whatever happened in between,
-- the disconnection of the earlier peer included: later identifiers are larger.
pub connect_session-fresh :
    (c : Credentials) (h : ClientHello) (b : Broker) (s : ConnectedPeer) (c' : Credentials)
    (h' : ClientHello) {d : Broker} (t : ConnectedPeer)
    → (connect_session c h b).0 ≡ ok s
    → Reach (connect_session c h b).1 d
    → (connect_session c' h' d).0 ≡ ok t
    → s.id < t.id
connect_session-fresh c h b s c' h' {d} t e r e' =
    let first = connect_session-admit c h b s e in
    let second = connect_session-admit c' h' d t e' in
    unfold admit record_monitor in ground (arith, first, second, Reach-Later r)
