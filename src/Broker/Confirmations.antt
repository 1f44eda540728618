-- ===== src/Broker/Confirmations.antt =====
-- Acknowledgements that come twice.
use busd.Prelude.{◌≡◌, List, [], ◌∷◌, arith, ok, Option, none, some, true, inl, inr, Option-cases}
use busd.Order.{nat_order, bytes_order, same_refl}
use busd.Map.{Map, get, insert}
use busd.Map.Laws.{get-insert, get-remove}
use busd.Protocol.Types.{PeerId, MessageId, Message, Frame, message, AckPolicy}
use busd.Broker.Types.{Broker, PendingDelivery, DeliveryEvent}
use busd.Broker.Session.{record_monitor}
use busd.Broker.Acknowledge.{
  with_ack, ack_completes, finish_ack, acknowledge_message, acknowledge_pending, acknowledge,
}

-- No delivery is left whose requirement is still to be met.
abbrev pub Settled : Option PendingDelivery → Type 0
Settled none = Unit {0}
Settled (some d) = d.acknowledgement_complete ≡ true

acknowledge_message-Settled :
    (p : PeerId) (id : MessageId) (d : PendingDelivery) (m : Message) (b : Broker)
    (e : DeliveryEvent) (es : List DeliveryEvent)
    → (acknowledge_message p id d m b).0 ≡ ok (e ∷ es)
    → Settled (get id (acknowledge_message p id d m b).1.deliveries)
unfolding acknowledge_message finish_ack record_monitor
acknowledge_message-Settled p id d m b e es h =
    let acked = with_ack p d in
    let once : Map MessageId PendingDelivery = insert id acked b.deliveries in
    let done : PendingDelivery = record acked { acknowledgement_complete = true } in
    ground (arith, same_refl id, get-insert id id done once, get-remove id id (insert id done once))

acknowledge_pending-Settled :
    (p : PeerId) (id : MessageId) (a : AckPolicy) (d : PendingDelivery) (f : Frame) (b : Broker)
    (e : DeliveryEvent) (es : List DeliveryEvent)
    → (acknowledge_pending p id a d f b).0 ≡ ok (e ∷ es)
    → Settled (get id (acknowledge_pending p id a d f b).1.deliveries)
unfolding acknowledge_pending
acknowledge_pending-Settled p id a d (message m) b e es h =
    ground (arith, acknowledge_message-Settled p id d m b e es)
acknowledge_pending-Settled p id a d _ b e es h = cc

-- The last acknowledgement settles the delivery.
acknowledge-Settled :
    (p : PeerId) (id : MessageId) (a : AckPolicy) (b : Broker) (e : DeliveryEvent)
    (es : List DeliveryEvent)
    → (acknowledge p id a b).0 ≡ ok (e ∷ es)
    → Settled (get id (acknowledge p id a b).1.deliveries)
unfolding acknowledge
acknowledge-Settled p id a b e es h = elim (Option-cases (get id b.deliveries)) [
  | inl q ↦ absurd (ground arith)
  | inr (d, q) ↦ ground (arith, acknowledge_pending-Settled p id a d d.message b e es)
]

Settled-acknowledge :
    (p : PeerId) (id : MessageId) (a : AckPolicy) (b : Broker) (es : List DeliveryEvent)
    → Settled (get id b.deliveries)
    → (acknowledge p id a b).0 ≡ ok es
    → es ≡ []
unfolding acknowledge acknowledge_pending acknowledge_message finish_ack ack_completes with_ack
Settled-acknowledge p id a b es s h = ground arith

-- The requirement of a delivery is reported met once: after the acknowledgement that reports it, the
-- next one, from whichever peer and with whichever policy, is refused or reports nothing.
pub acknowledge_once :
    (p : PeerId) (id : MessageId) (a : AckPolicy) (b : Broker) (e : DeliveryEvent)
    (es : List DeliveryEvent) (q : PeerId) (a' : AckPolicy) (fs : List DeliveryEvent)
    → (acknowledge p id a b).0 ≡ ok (e ∷ es)
    → (acknowledge q id a' (acknowledge p id a b).1).0 ≡ ok fs
    → fs ≡ []
acknowledge_once p id a b e es q a' fs h k =
    Settled-acknowledge q id a' (acknowledge p id a b).1 fs (acknowledge-Settled p id a b e es h) k
