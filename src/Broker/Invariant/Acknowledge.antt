-- ===== src/Broker/Invariant/Acknowledge.antt =====
-- `acknowledge` and the invariant.
use busd.Prelude.{
  ◌≡◌, Bool, true, false, not, ◌||◌, none, some, arith, Bool-cases, inl, inr, ok_or, ok_or-some,
}
use busd.Order.{nat_order, bytes_order}
use busd.Map.{get, contains}
use busd.Map.Keys.{
  IsAscending-insert, IsAscending-remove, Entries-insert, Entries-remove, Entries-get,
}
use busd.Protocol.Types.{PeerId, MessageId, Message, Frame, message, AckPolicy, DeliveryOutcome}
use busd.Protocol.Options.{is_request}
use busd.Policy.{Action}
use busd.Broker.Types.{Broker, PendingDelivery, unknown_delivery, MonitorKind}
use busd.Broker.Reliability.{acknowledgement_satisfies}
use busd.Broker.Session.{authorize}
use busd.Broker.Acknowledge.{
  ack_outcome, with_ack, ack_completes, put_delivery, drop_delivery, finish_ack,
  acknowledge_message, acknowledge_pending, acknowledge,
}
use busd.Broker.Invariant.{IsPending, IsWellFormed}
use busd.Broker.Invariant.Session.{after, record_monitor-IsWellFormed}
use busd.Broker.Invariant.Delivery.{deliveries-IsWellFormed, All-set_insert}

pub put_delivery-IsWellFormed :
    (id : MessageId) (d : PendingDelivery) (b : Broker)
    → IsWellFormed b
    → IsPending b.peers id d
    → IsWellFormed (put_delivery id d b)
put_delivery-IsWellFormed id d b w p =
    deliveries-IsWellFormed b _ b.metrics w
      (Entries-insert (IsPending b.peers) id d b.deliveries p w.deliveries)
      (IsAscending-insert id d b.deliveries w.sorted)

pub drop_delivery-IsWellFormed :
    (id : MessageId) (b : Broker) → IsWellFormed b → IsWellFormed (drop_delivery id b)
drop_delivery-IsWellFormed id b w =
    deliveries-IsWellFormed b _ b.metrics w
      (Entries-remove (IsPending b.peers) id b.deliveries w.deliveries)
      (IsAscending-remove id b.deliveries w.sorted)

finish_ack-IsWellFormed :
    (peer : PeerId) (id : MessageId) (d : PendingDelivery) (m : Message) (outcome : DeliveryOutcome)
    (complete : Bool) (b : Broker)
    → IsWellFormed b
    → IsWellFormed (finish_ack peer id d m outcome complete b).1
unfolding finish_ack
finish_ack-IsWellFormed peer id d m outcome complete b w =
    let w' = record_monitor-IsWellFormed MonitorKind.acknowledged peer none (some id) 0 b w in
    elim (Bool-cases complete) [
      | inr e ↦ rw e w'
      | inl e ↦ elim (Bool-cases (is_request m.kind)) [
        | inl r ↦ rw (e, r) w'
        | inr r ↦ rw (e, r) (drop_delivery-IsWellFormed id _ w')
      ]
    ]

-- The delivery with one more acknowledgement, complete or not.
acked-IsPending :
    (b : Broker) (id : MessageId) (peer : PeerId) (d : PendingDelivery) (complete : Bool)
    → IsPending b.peers id d
    → contains peer d.recipients ≡ true
    → IsPending b.peers id (record (with_ack peer d) { acknowledgement_complete = complete })
unfolding with_ack
acked-IsPending b id peer d complete p chosen = record {
  recipients = p.recipients;
  acknowledgements =
      All-set_insert (λ a. contains a d.recipients ≡ true) peer d.acknowledgements chosen
        p.acknowledgements;
  responses = p.responses;
  tracked = p.tracked;
}

acknowledge_message-IsWellFormed :
    (peer : PeerId) (id : MessageId) (d : PendingDelivery) (m : Message) (b : Broker)
    → IsWellFormed b
    → IsPending b.peers id d
    → contains peer d.recipients ≡ true
    → IsWellFormed (acknowledge_message peer id d m b).1
unfolding acknowledge_message
acknowledge_message-IsWellFormed peer id d m b w p chosen =
    let acked = with_ack peer d in
    let first : IsPending b.peers id acked =
      acked-IsPending b id peer d d.acknowledgement_complete p chosen in
    let w' : IsWellFormed (put_delivery id acked b) =
      put_delivery-IsWellFormed id acked b w first in
    after IsWellFormed (ack_outcome id m.ack_policy) _ (put_delivery id acked b) w' λ outcome _.
      elim (Bool-cases (ack_completes m acked)) [
        | inl e ↦ rw e (
            finish_ack-IsWellFormed peer id d m outcome true _ (
              put_delivery-IsWellFormed id _ (put_delivery id acked b) w'
                (acked-IsPending b id peer d true p chosen)))
        | inr e ↦ rw e (finish_ack-IsWellFormed peer id d m outcome false _ w')
      ]

acknowledge_pending-IsWellFormed :
    (peer : PeerId) (id : MessageId) (policy : AckPolicy) (d : PendingDelivery) (frame : Frame)
    (b : Broker)
    → IsWellFormed b
    → IsPending b.peers id d
    → IsWellFormed (acknowledge_pending peer id policy d frame b).1
unfolding acknowledge_pending
acknowledge_pending-IsWellFormed peer id policy d (message m) b w p =
    elim (Bool-cases
      (not (contains peer d.recipients) || not (acknowledgement_satisfies m.ack_policy policy))) [
        | inl e ↦ rw e w
        | inr e ↦ rw e (acknowledge_message-IsWellFormed peer id d m b w p (ground arith))
      ]
acknowledge_pending-IsWellFormed peer id policy d _ b w p = w

pub acknowledge-IsWellFormed :
    (peer : PeerId) (id : MessageId) (policy : AckPolicy) (b : Broker)
    → IsWellFormed b
    → IsWellFormed (acknowledge peer id policy b).1
unfolding acknowledge
acknowledge-IsWellFormed peer id policy b w =
    after IsWellFormed (authorize b peer Action.acknowledge) _ b w λ _ _.
      after IsWellFormed (ok_or (get id b.deliveries) (unknown_delivery id)) _ b w λ d h.
        acknowledge_pending-IsWellFormed peer id policy d d.message b w
          (Entries-get (IsPending b.peers) id d b.deliveries (ok_or-some _ _ _ h) w.deliveries)
