-- ===== src/Broker/Delivery.antt =====
-- `begin_delivery` for signals and requests, and `ensure_delivery_capacity`.
use busd.Prelude.{
  ℕ, ◌+◌, Bool, true, false, not, ◌&&◌, ◌||◌, Option, none, some, List, [], ◌∷◌, leb, ltb, ◌==◌,
  length, Result, ok, err, filter, if◌then◌else◌,
}
use busd.Order.{nat_order, bytes_order}
use busd.Map.{insert, contains_key, collect, values}
use busd.Protocol.Types.{
  PeerId, MessageId, Message, Frame, message, MessageKind, AckPolicy, DeliveryOutcome,
}
use busd.Protocol.Options.{is_request, is_receiver_policy}
use busd.Broker.Types.{
  MonitorKind, Metrics, PendingDelivery, DeliveryEvent, deliver, result, Error, no_recipient,
  deadline_overflow, duplicate_message, Limit, limit_exceeded, Broker,
}
use busd.Broker.Exec.{Exec, ◌>>=◌, ◌>>◌, pure, reads, modify}
use busd.Broker.Reliability.{
  u64_max, saturating_add, saturating_mul, requirement_possible, retry_next, delivery_bytes,
  payload_bytes,
}
use busd.Broker.Session.{record_monitor}
use busd.Broker.Routing.{route}
use busd.Broker.Labels.{destination_label}

abbrev pub is_empty : List PeerId → Bool
is_empty [] = true
is_empty (r ∷ rs) = false

abbrev pub sent_by : PeerId → PendingDelivery → Bool
sent_by sender pending = pending.sender == sender

unfoldable pub total_bytes : List PendingDelivery → ℕ
total_bytes [] = 0
total_bytes (pending ∷ rest) = delivery_bytes pending.message + total_bytes rest

abbrev pub is_request_frame : Frame → Bool
is_request_frame (message m) = is_request m.kind
is_request_frame _ = false

-- `ensure_delivery_capacity`
unfoldable pub ensure_delivery_capacity : Broker → PeerId → Frame → Bool → Result Error (Unit {0})
unfolding total_bytes
ensure_delivery_capacity b sender frame request =
    let queued = filter (sent_by sender) (values b.deliveries) in
    if leb b.limits.maximum_queued_messages (length queued)
    then err (limit_exceeded Limit.queued_messages)
    else if ltb b.limits.maximum_queued_bytes
        (saturating_add (total_bytes queued) (delivery_bytes frame))
    then err (limit_exceeded Limit.queued_bytes)
    else if request
        && leb b.limits.maximum_in_flight_requests
            (length (filter (λ pending. is_request_frame pending.message) queued))
    then err (limit_exceeded Limit.in_flight_requests)
    else ok tt

abbrev pub is_signal : MessageKind → Bool
is_signal MessageKind.signal = true
is_signal MessageKind.request = false
is_signal MessageKind.response = false

abbrev pub is_accepted : AckPolicy → Bool
is_accepted AckPolicy.accepted = true
is_accepted _ = false

-- The counters and the monitoring record of a routed message.
unfoldable pub count_routed : PeerId → Message → List PeerId → Broker → Broker
count_routed sender m recipients b =
    let bytes = payload_bytes (message m) in
    let n = length recipients in
    let routed : Metrics = record b.metrics {
      messages_routed = saturating_add b.metrics.messages_routed n;
      bytes_routed = saturating_add b.metrics.bytes_routed (saturating_mul bytes n);
    } in
    let dropped : Metrics = record routed {
      dropped_signals = saturating_add routed.dropped_signals 1;
    } in
    let kind =
      (if is_empty recipients then MonitorKind.dropped_signal else MonitorKind.delivered) in
    record_monitor kind sender (some (destination_label m.destination)) (some m.message_id) bytes
      (record b { metrics = if is_empty recipients && is_signal m.kind then dropped else routed })

abbrev pub one_result : PeerId → MessageId → DeliveryOutcome → List DeliveryEvent
one_result sender id outcome = result sender id outcome ∷ []

-- `now_ms.checked_add(deadline)`
abbrev pub deadline_at : ℕ → ℕ → Result Error ℕ
deadline_at now_ms deadline_ms =
    if ltb u64_max (now_ms + deadline_ms) then err deadline_overflow else ok (now_ms + deadline_ms)

abbrev pub is_tracked : Message → Bool
is_tracked m = is_request m.kind || is_receiver_policy m.ack_policy

unfoldable pub add_delivery : PeerId → Message → ℕ → ℕ → List PeerId → ℕ → Broker → Broker
add_delivery sender m now_ms priority recipients deadline_ms b =
    let pending : PendingDelivery = record {
      sender = sender;
      message = message m;
      recipients = recipients;
      acknowledgements = [];
      responses = [];
      acknowledgement_complete = false;
      deadline_ms = deadline_ms;
      attempts = 1;
      next_retry_ms = retry_next m.retry now_ms 1;
      priority = priority;
    } in
    record b { deliveries = insert m.message_id pending b.deliveries }

-- The end of `begin_delivery`: the events, and the state of a tracked message.
unfoldable pub dispatch : PeerId → Message → ℕ → ℕ → List PeerId → Exec (List DeliveryEvent)
dispatch sender m now_ms priority recipients =
    let events =
      deliver sender recipients (message m)
      ∷ (if is_accepted m.ack_policy
          then one_result sender m.message_id DeliveryOutcome.accepted
          else []) in
    let track : Exec (List DeliveryEvent) = do
      reads (λ b. ensure_delivery_capacity b sender (message m) (is_request m.kind))
      deadline_ms ← reads (λ b. deadline_at now_ms m.deadline_ms)
      modify (add_delivery sender m now_ms priority recipients deadline_ms)
      pure events
    in if is_tracked m then track else pure events

unfoldable pub deliver_to : PeerId → Message → ℕ → ℕ → List PeerId → Exec (List DeliveryEvent)
deliver_to sender m now_ms priority recipients = do
  modify (count_routed sender m recipients)
  if is_empty recipients && is_tracked m
      then pure (one_result sender m.message_id DeliveryOutcome.no_recipient)
      else if not (requirement_possible m.ack_requirement (length recipients))
      then pure (one_result sender m.message_id DeliveryOutcome.no_recipient)
      else dispatch sender m now_ms priority recipients

-- `Err(Error::NoRecipient)` of `route` is an outcome, any other error is one of the delivery.
abbrev pub routed : Result Error (List PeerId) → Result Error (Option (List PeerId))
routed (ok recipients) = ok (some recipients)
routed (err no_recipient) = ok none
routed (err e) = err e

abbrev pub deliver_routed :
    PeerId → Message → ℕ → ℕ → Option (List PeerId) → Exec (List DeliveryEvent)
deliver_routed sender m now_ms priority none =
    pure (one_result sender m.message_id DeliveryOutcome.no_recipient)
deliver_routed sender m now_ms priority (some recipients) =
    deliver_to sender m now_ms priority (collect recipients)

unfoldable pub begin_routing : PeerId → Message → ℕ → ℕ → Exec (List DeliveryEvent)
begin_routing sender m now_ms priority = do
  reads (λ b.
      if contains_key m.message_id b.deliveries
      then err (duplicate_message m.message_id)
      else ok tt)
  found ← reads (λ b. routed (route b sender m.destination m.headers))
  deliver_routed sender m now_ms priority found
