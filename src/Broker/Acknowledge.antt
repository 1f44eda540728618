-- ===== src/Broker/Acknowledge.antt =====
-- `acknowledge`
use busd.Prelude.{
  Bool, true, not, ◌&&◌, ◌||◌, none, some, List, [], ◌∷◌, length, Result, ok, err, ok_or,
  if◌then◌else◌,
}
use busd.Order.{nat_order, bytes_order}
use busd.Map.{get, insert, remove, contains, set_insert}
use busd.Protocol.Types.{PeerId, MessageId, Message, Frame, message, AckPolicy, DeliveryOutcome}
use busd.Protocol.Options.{is_request}
use busd.Policy.{Action}
use busd.Broker.Types.{
  MonitorKind, PendingDelivery, DeliveryEvent, result, Error, invalid_delivery, unknown_delivery,
  unexpected_acknowledgement, Broker,
}
use busd.Broker.Exec.{Exec, ◌>>=◌, ◌>>◌, pure, fail, reads, modify}
use busd.Broker.Reliability.{requirement_met, acknowledgement_satisfies}
use busd.Broker.Session.{record_monitor, authorize}

-- `let outcome = match ack_policy`
abbrev pub ack_outcome : MessageId → AckPolicy → Result Error DeliveryOutcome
ack_outcome id AckPolicy.received = ok DeliveryOutcome.received
ack_outcome id AckPolicy.processed = ok DeliveryOutcome.processed
ack_outcome id AckPolicy.none = err (unexpected_acknowledgement id)
ack_outcome id AckPolicy.accepted = err (unexpected_acknowledgement id)

-- The delivery after an acknowledgement by `peer`, and whether that completes its requirement.
unfoldable pub with_ack : PeerId → PendingDelivery → PendingDelivery
with_ack peer pending = record pending {
  acknowledgements = set_insert peer pending.acknowledgements;
}

unfoldable pub ack_completes : Message → PendingDelivery → Bool
unfolding requirement_met
ack_completes m pending =
    not pending.acknowledgement_complete
    && requirement_met m.ack_requirement (length pending.acknowledgements)
        (length pending.recipients)

abbrev pub put_delivery : MessageId → PendingDelivery → Broker → Broker
put_delivery id pending b = record b { deliveries = insert id pending b.deliveries }

abbrev pub drop_delivery : MessageId → Broker → Broker
drop_delivery id b = record b { deliveries = remove id b.deliveries }

-- The end of `acknowledge`, after the pending delivery has been updated.
unfoldable pub finish_ack :
    PeerId
    → MessageId
    → PendingDelivery
    → Message
    → DeliveryOutcome
    → Bool
    → Exec (List DeliveryEvent)
finish_ack peer id pending m outcome complete = do
  modify (record_monitor MonitorKind.acknowledged peer none (some id) 0)
  if not complete then pure [] else do
    modify (λ b. if is_request m.kind then b else drop_delivery id b)
    pure (result pending.sender id outcome ∷ [])

unfoldable pub acknowledge_message :
    PeerId → MessageId → PendingDelivery → Message → Exec (List DeliveryEvent)
unfolding with_ack ack_completes finish_ack
acknowledge_message peer id pending m = do
  let acked = with_ack peer pending
  let complete = ack_completes m acked
  modify (put_delivery id acked)
  outcome ← reads (λ b. ack_outcome id m.ack_policy)
  modify (λ b.
      if complete then put_delivery id (record acked { acknowledgement_complete = true }) b else b)
  finish_ack peer id pending m outcome complete

unfoldable pub acknowledge_pending :
    PeerId → MessageId → AckPolicy → PendingDelivery → Frame → Exec (List DeliveryEvent)
unfolding acknowledge_message
acknowledge_pending peer id policy pending (message m) =
    if not (contains peer pending.recipients) || not (acknowledgement_satisfies m.ack_policy policy)
    then fail (unexpected_acknowledgement id)
    else acknowledge_message peer id pending m
acknowledge_pending peer id policy pending _ = fail invalid_delivery

unfoldable pub acknowledge : PeerId → MessageId → AckPolicy → Exec (List DeliveryEvent)
acknowledge peer id policy = do
  reads (λ b. authorize b peer Action.acknowledge)
  pending ← reads (λ b. ok_or (get id b.deliveries) (unknown_delivery id))
  acknowledge_pending peer id policy pending pending.message
