-- ===== src/Broker/Tick.antt =====
-- `tick`: deadlines and retry schedules, against a clock that the caller provides.
use busd.Prelude.{
  ℕ, ◌+◌, ◌%◌, not, Option, none, some, List, [], ◌∷◌, ◌++◌, leb, ltb, filter, if◌then◌else◌,
}
use busd.Order.{nat_order, bytes_order}
use busd.Map.{get, contains, keys}
use busd.Protocol.Types.{PeerId, MessageId, Frame, message, RetryPolicy, DeliveryOutcome}
use busd.Broker.Types.{
  MonitorKind, Metrics, PendingDelivery, DeliveryEvent, deliver, result, Broker,
}
use busd.Broker.Reliability.{saturating_add, retry_next, delivery_bytes}
use busd.Broker.Session.{record_monitor}
use busd.Broker.Acknowledge.{put_delivery, drop_delivery}

-- The locals of the loop.
pub record Progress : Type 0 where
  pub broker : Broker
  pub events : List DeliveryEvent
  pub retries : List (ℕ × DeliveryEvent)

abbrev pub retry_of : Frame → RetryPolicy
retry_of (message m) = m.retry
retry_of _ = RetryPolicy.none

unfoldable pub time_out : MessageId → PendingDelivery → Progress → Progress
time_out id pending p =
    let b = drop_delivery id p.broker in
    let counted : Metrics = record b.metrics { timeouts = saturating_add b.metrics.timeouts 1 } in
    record p {
      broker =
          record_monitor MonitorKind.timed_out pending.sender none (some id) 0
            (record b { metrics = counted });
      events = p.events ++ result pending.sender id DeliveryOutcome.timeout ∷ [];
    }

unfoldable pub exhaust : MessageId → PendingDelivery → Progress → Progress
exhaust id pending p = record p {
  broker = drop_delivery id p.broker;
  events = p.events ++ result pending.sender id DeliveryOutcome.delivery_failed ∷ [];
}

-- `pending.recipients.difference(&pending.acknowledgements)`
unfoldable pub unacknowledged : PendingDelivery → List PeerId
unacknowledged pending = filter (λ r. not (contains r pending.acknowledgements)) pending.recipients

-- The delivery after one more attempt. `attempts` is a u8.
unfoldable pub next_attempt : ℕ → PendingDelivery → PendingDelivery
next_attempt now_ms pending =
    let attempts = (pending.attempts + 1) % 256 in
    record pending {
      attempts = attempts;
      next_retry_ms = retry_next (retry_of pending.message) now_ms attempts;
    }

unfoldable pub retry_delivery : ℕ → MessageId → PendingDelivery → Progress → Progress
unfolding next_attempt unacknowledged
retry_delivery now_ms id pending p =
    let b = put_delivery id (next_attempt now_ms pending) p.broker in
    let counted : Metrics = record b.metrics { retries = saturating_add b.metrics.retries 1 } in
    let event = deliver pending.sender (unacknowledged pending) pending.message in
    record p {
      broker =
          record_monitor MonitorKind.retried pending.sender none (some id)
            (delivery_bytes pending.message) (record b { metrics = counted });
      retries = p.retries ++ (pending.priority, event) ∷ [];
    }

-- A delivery whose retry is due.
abbrev pub retry_due : ℕ → MessageId → PendingDelivery → RetryPolicy → Progress → Progress
retry_due now_ms id pending RetryPolicy.none p = p
retry_due now_ms id pending (RetryPolicy.exponential initial_backoff_ms max_attempts) p =
    if leb max_attempts pending.attempts
    then exhaust id pending p
    else retry_delivery now_ms id pending p

abbrev pub wait_retry : ℕ → MessageId → PendingDelivery → Option ℕ → Progress → Progress
wait_retry now_ms id pending none p = p
wait_retry now_ms id pending (some next_retry_ms) p =
    if ltb now_ms next_retry_ms then p else retry_due now_ms id pending (retry_of pending.message) p

-- The body of the loop.
unfoldable pub tick_one : ℕ → MessageId → Option PendingDelivery → Progress → Progress
tick_one now_ms id none p = p
tick_one now_ms id (some pending) p =
    if leb pending.deadline_ms now_ms
    then time_out id pending p
    else wait_retry now_ms id pending pending.next_retry_ms p

unfoldable pub tick_all : ℕ → List MessageId → Progress → Progress
unfolding tick_one
tick_all now_ms [] p = p
tick_all now_ms (id ∷ ids) p =
    tick_all now_ms ids (tick_one now_ms id (get id p.broker.deliveries) p)

-- `retries.sort_by(|(left, _), (right, _)| right.cmp(left))`, which is stable.
unfoldable pub insert_retry :
    ℕ × DeliveryEvent → List (ℕ × DeliveryEvent) → List (ℕ × DeliveryEvent)
insert_retry r [] = r ∷ []
insert_retry r (s ∷ rest) =
    let later = insert_retry r rest in if ltb r.0 s.0 then s ∷ later else r ∷ s ∷ rest

unfoldable pub sort_retries : List (ℕ × DeliveryEvent) → List (ℕ × DeliveryEvent)
unfolding insert_retry
sort_retries [] = []
sort_retries (r ∷ rest) = insert_retry r (sort_retries rest)

abbrev pub retry_events : List (ℕ × DeliveryEvent) → List DeliveryEvent
retry_events [] = []
retry_events ((priority, event) ∷ rest) = event ∷ retry_events rest

unfoldable pub tick : ℕ → Broker → List DeliveryEvent × Broker
unfolding tick_all sort_retries
tick now_ms b =
    let start : Progress = record { broker = b; events = []; retries = [] } in
    let p = tick_all now_ms (keys b.deliveries) start in
    (p.events ++ retry_events (sort_retries p.retries), p.broker)
