-- ===== src/Broker/Dispatch.antt =====
-- What `begin_delivery` delivers, and to whom.
use busd.Prelude.{err, length, ◌<◌, ℕ, ◌≡◌, ◌⊎◌, none, List, [], ◌∷◌, ok}
use busd.Order.{nat_order}
use busd.Map.{collect}
use busd.Protocol.Types.{
  PeerId, Message, message, DeliveryOutcome, AckRequirement, AckPolicy, MessageKind,
}
use busd.Broker.Types.{Broker, DeliveryEvent, deliver, result, no_recipient}
use busd.Broker.Routing.{route}

-- How many recipients an acknowledgement requirement needs.
abbrev pub needed : AckRequirement → ℕ
needed AckRequirement.none = 0
needed AckRequirement.any_of = 1
needed AckRequirement.all_of = 1
needed (AckRequirement.minimum n) = n

-- Somebody is to answer or acknowledge the message.
abbrev pub IsAwaited : Message → Type 0
IsAwaited m =
    (m.kind ≡ MessageKind.request)
    ⊎ ((m.ack_policy ≡ AckPolicy.received) ⊎ (m.ack_policy ≡ AckPolicy.processed))

-- The recipients are too few for the message.
abbrev pub IsUnserved : Message → List PeerId → Type 0
IsUnserved m recipients =
    (length recipients < needed m.ack_requirement) ⊎ ((recipients ≡ []) × IsAwaited m)

abbrev pub accepted_result : PeerId → Message → AckPolicy → List DeliveryEvent
accepted_result sender m AckPolicy.accepted =
    result sender m.message_id DeliveryOutcome.accepted ∷ []
accepted_result sender m _ = []

-- The events of an accepted signal or request: it has no route, its recipients are too few, or it is
-- delivered to the recipients of its route, in order.
pub data Sent (b : Broker) (sender : PeerId) (m : Message) : List DeliveryEvent → Type 0 where
  unrouted :
      route b sender m.destination m.headers ≡ err no_recipient
      → Sent b sender m (result sender m.message_id DeliveryOutcome.no_recipient ∷ [])
  unserved :
      (recipients : List PeerId)
      → route b sender m.destination m.headers ≡ ok recipients
      → IsUnserved m (collect recipients)
      → Sent b sender m (result sender m.message_id DeliveryOutcome.no_recipient ∷ [])
  delivered :
      (recipients : List PeerId)
      → route b sender m.destination m.headers ≡ ok recipients
      → ¬ IsUnserved m (collect recipients)
      → Sent b sender m
          (deliver sender (collect recipients) (message m) ∷ accepted_result sender m m.ack_policy)
