-- ===== src/Broker/Invariant/Tick.antt =====
-- `tick` and the invariant.
use busd.Prelude.{ℕ, ◌≡◌, refl, Option, none, some, List, [], ◌∷◌, Bool-cases, inl, inr, leb, ltb}
use busd.Order.{bytes_order}
use busd.Map.{keys, get}
use busd.Map.Keys.{Entries-get}
use busd.Protocol.Types.{MessageId, RetryPolicy}
use busd.Broker.Types.{Broker, PendingDelivery}
use busd.Broker.Tick.{
  Progress, time_out, exhaust, next_attempt, retry_delivery, retry_of, retry_due, wait_retry,
  tick_one, tick_all, tick,
}
use busd.Broker.Invariant.{IsPending, IsWellFormed}
use busd.Broker.Invariant.Session.{record_monitor-IsWellFormed}
use busd.Broker.Invariant.Delivery.{deliveries-IsWellFormed}
use busd.Broker.Invariant.Acknowledge.{put_delivery-IsWellFormed, drop_delivery-IsWellFormed}

module _ (now : ℕ) (id : MessageId) (d : PendingDelivery) (p : Progress)
    (w : IsWellFormed p.broker) where
  time_out-IsWellFormed : IsWellFormed (time_out id d p).broker
  unfolding time_out
  time_out-IsWellFormed =
      let w' = drop_delivery-IsWellFormed id p.broker w in
      record_monitor-IsWellFormed _ _ _ _ _ _
        (deliveries-IsWellFormed _ _ _ w' w'.deliveries w'.sorted)

  exhaust-IsWellFormed : IsWellFormed (exhaust id d p).broker
  unfolding exhaust
  exhaust-IsWellFormed = drop_delivery-IsWellFormed id p.broker w

  retry_delivery-IsWellFormed :
      IsPending p.broker.peers id d → IsWellFormed (retry_delivery now id d p).broker
  unfolding retry_delivery
  retry_delivery-IsWellFormed h =
      let again : IsPending p.broker.peers id (next_attempt now d) = record {
        recipients = h.recipients;
        acknowledgements = h.acknowledgements;
        responses = h.responses;
        tracked = h.tracked;
      } in
      let w' = put_delivery-IsWellFormed id (next_attempt now d) p.broker w again in
      record_monitor-IsWellFormed _ _ _ _ _ _
        (deliveries-IsWellFormed _ _ _ w' w'.deliveries w'.sorted)

  retry_due-IsWellFormed :
      (r : RetryPolicy)
      → IsPending p.broker.peers id d
      → IsWellFormed (retry_due now id d r p).broker
  retry_due-IsWellFormed RetryPolicy.none h = w
  retry_due-IsWellFormed (RetryPolicy.exponential backoff attempts) h =
      elim (Bool-cases (leb attempts d.attempts)) [
        | inl e ↦ rw e exhaust-IsWellFormed
        | inr e ↦ rw e (retry_delivery-IsWellFormed h)
      ]

  wait_retry-IsWellFormed :
      (next : Option ℕ)
      → IsPending p.broker.peers id d
      → IsWellFormed (wait_retry now id d next p).broker
  wait_retry-IsWellFormed none h = w
  wait_retry-IsWellFormed (some next) h = elim (Bool-cases (ltb now next)) [
    | inl e ↦ rw e w
    | inr e ↦ rw e (retry_due-IsWellFormed (retry_of d.message) h)
  ]

tick_one-IsWellFormed :
    (now : ℕ) (id : MessageId) (o : Option PendingDelivery) (p : Progress)
    → IsWellFormed p.broker
    → get id p.broker.deliveries ≡ o
    → IsWellFormed (tick_one now id o p).broker
unfolding tick_one
tick_one-IsWellFormed now id none p w h = w
tick_one-IsWellFormed now id (some d) p w h = elim (Bool-cases (leb d.deadline_ms now)) [
  | inl e ↦ rw e (time_out-IsWellFormed now id d p w)
  | inr e ↦ rw e (
      wait_retry-IsWellFormed now id d p w d.next_retry_ms
        (Entries-get (IsPending p.broker.peers) id d p.broker.deliveries h w.deliveries))
]

tick_all-IsWellFormed :
    (now : ℕ) (ids : List MessageId) (p : Progress)
    → IsWellFormed p.broker
    → IsWellFormed (tick_all now ids p).broker
unfolding tick_all
tick_all-IsWellFormed now [] p w = w
tick_all-IsWellFormed now (id ∷ ids) p w =
    tick_all-IsWellFormed now ids _ (tick_one-IsWellFormed now id _ p w refl)

pub tick-IsWellFormed : (now : ℕ) (b : Broker) → IsWellFormed b → IsWellFormed (tick now b).1
unfolding tick
tick-IsWellFormed now b w = tick_all-IsWellFormed now (keys b.deliveries) _ w
