-- ===== src/Broker/Quotas.antt =====
-- The quota of namespace claims over sequences of calls.
use busd.Prelude.{
  length, filter, ℕ, ◌+◌, ◌≤◌, ◌≡◌, refl, List, [], ◌∷◌, arith, Option, false, ◌==◌, ==_iff,
}
use busd.Order.{nat_order, bytes_order}
use busd.Map.{Map, get, insert, keys}
use busd.Protocol.Types.{
  Namespace, PeerId, MessageId, Message, Frame, message, AckPolicy, Capabilities,
}
use busd.Policy.{Policy}
use busd.Broker.Types.{Broker, PendingDelivery, Limits, empty_broker}
use busd.Broker.Session.{record_monitor, credentials, connect_session, admit}
use busd.Broker.Checks.{validate_message_headers, message_priority}
use busd.Broker.Invariant.Session.{after}
use busd.Broker.Registry.{
  claims_of, claim_quota, claim, add_claim, subscribe_with_filters, add_subscription, unsubscribe,
  register_dbus_name,
}
use busd.Broker.Delivery.{count_routed, add_delivery, dispatch, deliver_to, begin_routing}
use busd.Broker.Responses.{respond, complete_response, begin_delivery}
use busd.Broker.Acknowledge.{
  drop_delivery, finish_ack, acknowledge_message, acknowledge_pending, acknowledge,
}
use busd.Broker.Tick.{Progress, time_out, exhaust, retry_delivery, tick_one, tick_all, tick}
use busd.Broker.Disconnect.{
  retain_others, remove_peer, affected, drop_all, fail_waiting, disconnect_with_events,
}
use busd.Broker.Views.{drain_events}
use busd.Broker.Steps.{Operation, run, Reach, here, next, call}
use busd.Broker.Steps.Fixed.{Reach-Later}

-- `c` has the namespaces of `b`.
abbrev Names : Broker → Broker → Type 0
Names b c = c.namespaces ≡ b.namespaces

module _ (b : Broker) where
  complete_response-Names : (p : PeerId) (m : Message) → Names b (complete_response p m b).1
  unfolding complete_response respond
  complete_response-Names p m = ground arith

  begin_routing-Names :
      (p : PeerId) (m : Message) (now priority : ℕ) → Names b (begin_routing p m now priority b).1
  unfolding begin_routing deliver_to dispatch add_delivery count_routed record_monitor
  begin_routing-Names p m now priority = ground arith

  acknowledge-Names :
      (p : PeerId) (id : MessageId) (a : AckPolicy) → Names b (acknowledge p id a b).1
  unfolding acknowledge acknowledge_pending acknowledge_message finish_ack record_monitor
  acknowledge-Names p id a = ground arith

  begin_delivery-Names : (p : PeerId) (f : Frame) (now : ℕ) → Names b (begin_delivery p f now b).1
  unfolding begin_delivery
  begin_delivery-Names p (message m) now = after (Names b) (credentials b p) _ b refl λ _ _.
      after (Names b) (validate_message_headers m.headers) _ b refl λ _ _.
        after (Names b) (message_priority m.headers) _ b refl λ priority _.
          ground (arith, complete_response-Names p m, begin_routing-Names p m now priority)
  begin_delivery-Names p _ now = refl

drop_all-Names : (l : List (MessageId × PeerId)) (b : Broker) → Names b (drop_all l b)
unfolding drop_all
drop_all-Names [] b = refl
drop_all-Names ((id, p) ∷ l) b = drop_all-Names l (drop_delivery id b)

tick_one-Names :
    (now : ℕ) (id : MessageId) (o : Option PendingDelivery) (p : Progress)
    → Names p.broker (tick_one now id o p).broker
unfolding tick_one time_out exhaust retry_delivery record_monitor
tick_one-Names now id o p = ground arith

tick_all-Names :
    (now : ℕ) (ids : List MessageId) (p : Progress) → Names p.broker (tick_all now ids p).broker
unfolding tick_all
tick_all-Names now [] p = refl
tick_all-Names now (id ∷ ids) p =
    let o = get id p.broker.deliveries in
    ground (arith, tick_one-Names now id o p, tick_all-Names now ids (tick_one now id o p))

-- The peer holds at most `n` namespaces.
abbrev Holds : ℕ → Map Namespace PeerId → Type 0
Holds n names = (p : PeerId) → claims_of p names ≤ n

claims_of-insert :
    (p q : PeerId) (n : Namespace) (m : Map Namespace PeerId)
    → claims_of p (insert n q m) ≤ claims_of p m + 1
unfolding claims_of insert
claims_of-insert p q n [] = ground arith
claims_of-insert p q n ((k, r) ∷ m) = ground (arith, claims_of-insert p q n m)

claims_of-insert_other :
    (p q : PeerId) (n : Namespace) (m : Map Namespace PeerId)
    → (q == p) ≡ false
    → claims_of p (insert n q m) ≤ claims_of p m
unfolding claims_of insert
claims_of-insert_other p q n [] h = ground arith
claims_of-insert_other p q n ((k, r) ∷ m) h = ground (arith, claims_of-insert_other p q n m h)

claims_of-retain_others :
    (p q : PeerId) (m : Map Namespace PeerId) → claims_of p (retain_others q m) ≤ claims_of p m
unfolding claims_of retain_others
claims_of-retain_others p q [] = omega arith
claims_of-retain_others p q ((k, r) ∷ m) = ground (arith, claims_of-retain_others p q m)

claim-Holds :
    (peer : PeerId) (n : Namespace) (b : Broker)
    → Holds b.limits.maximum_namespace_claims b.namespaces
    → Holds b.limits.maximum_namespace_claims (claim peer n b).1.namespaces
unfolding claim claim_quota add_claim record_monitor
claim-Holds peer n b h p = ground (
  arith,
  h p,
  claims_of-insert p peer n b.namespaces,
  claims_of-insert_other p peer n b.namespaces,
  ==_iff peer p,
)

disconnect-Holds :
    (peer : PeerId) (n : ℕ) (b : Broker)
    → Holds n b.namespaces
    → Holds n (disconnect_with_events peer b).1.namespaces
unfolding disconnect_with_events remove_peer fail_waiting record_monitor
disconnect-Holds peer n b h p =
    let c = (remove_peer peer b).1 in
    ground (
      arith,
      h p,
      drop_all-Names (affected peer c.deliveries) c,
      claims_of-retain_others p peer b.namespaces,
    )

run-Holds :
    (o : Operation) (b : Broker)
    → Holds b.limits.maximum_namespace_claims b.namespaces
    → Holds b.limits.maximum_namespace_claims (run o b).namespaces
unfolding run
run-Holds (Operation.connect c q) b h = unfold connect_session admit record_monitor in ground arith
run-Holds (Operation.disconnect p) b h = disconnect-Holds p _ b h
run-Holds (Operation.claim_namespace p n) b h = claim-Holds p n b h
run-Holds (Operation.add_subscription p c f) b h =
    unfold subscribe_with_filters add_subscription record_monitor in ground arith
run-Holds (Operation.remove_subscription p c) b h = unfold unsubscribe in ground arith
run-Holds (Operation.register_name p n) b h = unfold register_dbus_name in ground arith
run-Holds (Operation.send p f now) b h = rw (begin_delivery-Names b p f now) h
run-Holds (Operation.confirm p id a) b h = rw (acknowledge-Names b p id a) h
run-Holds (Operation.advance now) b h =
    unfold tick in rw (tick_all-Names now (keys b.deliveries) _) h
run-Holds Operation.drain b h = unfold drain_events in h

Reach-Holds :
    {b c : Broker}
    → Reach b c
    → Holds b.limits.maximum_namespace_claims b.namespaces
    → Holds b.limits.maximum_namespace_claims c.namespaces
Reach-Holds here h = h
Reach-Holds {b} (next r (call o d)) h =
    let l : d.limits ≡ b.limits = (Reach-Later r).0 in
    rw (← l) (run-Holds o d (rw l (Reach-Holds r h)))

-- How many namespaces the peer owns.
abbrev pub owned : PeerId → Map Namespace PeerId → ℕ
owned peer namespaces = length (filter (λ entry. entry.1 == peer) namespaces)

pub claims_of-owned :
    (peer : PeerId) (namespaces : Map Namespace PeerId)
    → claims_of peer namespaces ≡ owned peer namespaces
unfolding claims_of
claims_of-owned peer [] = refl
claims_of-owned peer ((n, p) ∷ namespaces) = ground (arith, claims_of-owned peer namespaces)

-- Whatever calls are made of a new broker, no peer ever holds more namespaces than the quota.
pub Reach-claims :
    (policy : Policy) (limits : Limits) (capabilities : Capabilities) {b : Broker} (peer : PeerId)
    → Reach (empty_broker policy limits capabilities) b
    → owned peer b.namespaces ≤ limits.maximum_namespace_claims
unfolding claims_of
Reach-claims policy limits capabilities {b} peer r =
    rw (claims_of-owned peer b.namespaces) at (Reach-Holds r (λ p. omega arith) peer)
