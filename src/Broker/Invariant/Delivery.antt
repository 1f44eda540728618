-- ===== src/Broker/Invariant/Delivery.antt =====
-- `begin_delivery` and `complete_response` and the invariant.
use busd.Prelude.{
  ℕ, ◌≡◌, refl, true, not, ◌&&◌, ◌||◌, Option, none, some, List, [], ◌∷◌, length, Result, ok, err,
  arith, Bool-cases, inl, inr, if◌then◌else◌, All, ok_or, ok_or-some,
}
use busd.Order.{nat_order, bytes_order}
use busd.Map.{keys, Map, get, insert, contains_key, contains, set_insert, collect}
use busd.Map.Keys.{
  IsAscending, IsAscending-insert, IsAscending-remove, Entries, Entries-insert, Entries-remove,
  Entries-get,
}
use busd.Protocol.Types.{PeerId, MessageId, Message, Frame, message}
use busd.Protocol.Options.{is_request, is_response}
use busd.Broker.Types.{
  Broker, Metrics, PendingDelivery, Error, no_recipient, duplicate_message, unknown_delivery,
}
use busd.Broker.Checks.{validate_message_headers, message_priority}
use busd.Broker.Session.{record_monitor, credentials}
use busd.Broker.Routing.{route}
use busd.Broker.Reliability.{requirement_possible}
use busd.Broker.Delivery.{
  is_tracked, is_empty, ensure_delivery_capacity, deadline_at, count_routed, add_delivery, dispatch,
  deliver_to, routed, deliver_routed, begin_routing,
}
use busd.Broker.Responses.{accept_response, respond, complete_response, begin_delivery, completes}
use busd.Broker.Invariant.{IsConnected, IsPending, IsWellFormed}
use busd.Broker.Invariant.Session.{after, record_monitor-IsWellFormed}
use busd.Broker.Invariant.Routing.{AllConnected, route-connected}

-- New deliveries and counters, over the same peers.
pub deliveries-IsWellFormed :
    (b : Broker) (deliveries : Map MessageId PendingDelivery) (metrics : Metrics)
    → IsWellFormed b
    → Entries (IsPending b.peers) deliveries
    → IsAscending (keys deliveries)
    → IsWellFormed (record b { deliveries = deliveries; metrics = metrics })
deliveries-IsWellFormed b deliveries metrics w h a = record {
  next_low = w.next_low;
  next_high = w.next_high;
  peers = w.peers;
  ascending = w.ascending;
  owners = w.owners;
  dbus_owners = w.dbus_owners;
  subscriptions = w.subscriptions;
  deliveries = h;
  sorted = a;
  monitored = w.monitored;
}

pub All-set_insert :
    (P : PeerId → Type 0) (k : PeerId) (s : List PeerId) → P k → All P s → All P (set_insert k s)
unfolding set_insert
All-set_insert P k [] h a = (h, tt)
All-set_insert P k (j ∷ s) h a = ground (arith, All-set_insert P k s h a.1)

All-collect : (P : PeerId → Type 0) (l : List PeerId) → All P l → All P (collect l)
unfolding collect
All-collect P [] a = tt
All-collect P (k ∷ l) a = All-set_insert P k (collect l) a.0 (All-collect P l a.1)

count_routed-IsWellFormed :
    (sender : PeerId) (m : Message) (recipients : List PeerId) (b : Broker)
    → IsWellFormed b
    → IsWellFormed (count_routed sender m recipients b)
unfolding count_routed
count_routed-IsWellFormed sender m recipients b w =
    record_monitor-IsWellFormed _ sender _ _ _ _
      (deliveries-IsWellFormed b b.deliveries _ w w.deliveries w.sorted)

-- Counting leaves the peers and the deliveries alone.
count_routed-peers :
    (sender : PeerId) (m : Message) (recipients : List PeerId) (b : Broker)
    → (count_routed sender m recipients b).peers ≡ b.peers
unfolding count_routed record_monitor
count_routed-peers sender m recipients b = refl

dispatch-IsWellFormed :
    (sender : PeerId) (m : Message) (now priority : ℕ) (recipients : List PeerId) (b : Broker)
    → IsWellFormed b
    → AllConnected b.peers recipients
    → IsWellFormed (dispatch sender m now priority recipients b).1
unfolding dispatch add_delivery
dispatch-IsWellFormed sender m now priority recipients b w h = elim (Bool-cases (is_tracked m)) [
  | inr e ↦ rw e w
  | inl e ↦ rw e (
      after IsWellFormed (ensure_delivery_capacity b sender (message m) (is_request m.kind)) _ b w
        λ _ _. after IsWellFormed (deadline_at now m.deadline_ms) _ b w λ deadline _.
          deliveries-IsWellFormed b _ b.metrics w
            (Entries-insert (IsPending b.peers) m.message_id _ b.deliveries
              (record {
                recipients = h;
                acknowledgements = tt;
                responses = tt;
                tracked = (e, refl);
              })
              w.deliveries)
            (IsAscending-insert m.message_id _ b.deliveries w.sorted))
]

deliver_to-IsWellFormed :
    (sender : PeerId) (m : Message) (now priority : ℕ) (recipients : List PeerId) (b : Broker)
    → IsWellFormed b
    → AllConnected b.peers recipients
    → IsWellFormed (deliver_to sender m now priority recipients b).1
unfolding deliver_to
deliver_to-IsWellFormed sender m now priority recipients b w h =
    let b' = count_routed sender m recipients b in
    let w' : IsWellFormed b' = count_routed-IsWellFormed sender m recipients b w in
    elim (Bool-cases (is_empty recipients && is_tracked m)) [
      | inl e ↦ rw e w'
      | inr e ↦ elim (Bool-cases (requirement_possible m.ack_requirement (length recipients))) [
        | inr r ↦ rw (e, r) w'
        | inl r ↦
            rw (e, r)
              (dispatch-IsWellFormed sender m now priority recipients b' w'
                (rw (count_routed-peers sender m recipients b) h))
      ]
    ]

pub routed-ok :
    (r : Result Error (List PeerId)) (l : List PeerId) → routed r ≡ ok (some l) → r ≡ ok l
routed-ok (ok x) l h = ground arith
routed-ok (err no_recipient) l h = cc
routed-ok (err _) l h = cc

deliver_routed-IsWellFormed :
    (sender : PeerId) (m : Message) (now priority : ℕ) (found : Option (List PeerId)) (b : Broker)
    → IsWellFormed b
    → routed (route b sender m.destination m.headers) ≡ ok found
    → IsWellFormed (deliver_routed sender m now priority found b).1
deliver_routed-IsWellFormed sender m now priority none b w h = w
deliver_routed-IsWellFormed sender m now priority (some l) b w h =
    deliver_to-IsWellFormed sender m now priority (collect l) b w (
      All-collect (IsConnected b.peers) l
        (route-connected b sender m.destination m.headers l w (routed-ok _ l h)))

begin_routing-IsWellFormed :
    (sender : PeerId) (m : Message) (now priority : ℕ) (b : Broker)
    → IsWellFormed b
    → IsWellFormed (begin_routing sender m now priority b).1
unfolding begin_routing
begin_routing-IsWellFormed sender m now priority b w =
    after IsWellFormed
      (if contains_key m.message_id b.deliveries
        then err (duplicate_message m.message_id)
        else ok tt)
      _ b w
      λ _ _.
        after IsWellFormed (routed (route b sender m.destination m.headers)) _ b w
          λ found h. deliver_routed-IsWellFormed sender m now priority found b w h

accept_response-IsWellFormed :
    (sender : PeerId) (response : Message) (pending : PendingDelivery) (request : Message)
    (b : Broker)
    → IsWellFormed b
    → IsPending b.peers response.correlation_id pending
    → contains sender pending.recipients ≡ true
    → IsWellFormed (accept_response sender response pending request b).1
unfolding accept_response
accept_response-IsWellFormed sender response pending request b w p chosen =
    let id = response.correlation_id in
    let kept : Entries (IsPending b.peers) (insert id _ b.deliveries) =
      Entries-insert (IsPending b.peers) id _ b.deliveries
        (record {
          recipients = p.recipients;
          acknowledgements = p.acknowledgements;
          responses =
              Entries-insert (λ r frame. contains r pending.recipients ≡ true) sender
                (message response) pending.responses chosen p.responses;
          tracked = p.tracked;
        })
        w.deliveries in
    let sorted : IsAscending (keys (insert id _ b.deliveries)) =
      IsAscending-insert id _ b.deliveries w.sorted in
    let completed =
      completes request.request_policy response.status
        (length (insert sender (message response) pending.responses)) (length pending.recipients) in
    elim (Bool-cases completed) [
      | inl e ↦ rw e (
          deliveries-IsWellFormed b _ b.metrics w (Entries-remove (IsPending b.peers) id _ kept)
            (IsAscending-remove id _ sorted))
      | inr e ↦ rw e (deliveries-IsWellFormed b _ b.metrics w kept sorted)
    ]

respond-IsWellFormed :
    (sender : PeerId) (response : Message) (pending : PendingDelivery) (frame : Frame) (b : Broker)
    → IsWellFormed b
    → IsPending b.peers response.correlation_id pending
    → IsWellFormed (respond sender response pending frame b).1
unfolding respond
respond-IsWellFormed sender response pending (message request) b w p =
    elim (Bool-cases (
      not (is_request request.kind)
      || not (contains sender pending.recipients)
      || contains_key sender pending.responses)) [
        | inl e ↦ rw e w
        | inr e ↦
            rw e (accept_response-IsWellFormed sender response pending request b w p (ground arith))
      ]
respond-IsWellFormed sender response pending _ b w p = w

complete_response-IsWellFormed :
    (sender : PeerId) (response : Message) (b : Broker)
    → IsWellFormed b
    → IsWellFormed (complete_response sender response b).1
unfolding complete_response
complete_response-IsWellFormed sender response b w =
    let id = response.correlation_id in
    after IsWellFormed (ok_or (get id b.deliveries) (unknown_delivery id)) _ b w λ pending h.
      respond-IsWellFormed sender response pending pending.message b w
        (Entries-get (IsPending b.peers) id pending b.deliveries (ok_or-some _ _ _ h) w.deliveries)

pub begin_delivery-IsWellFormed :
    (sender : PeerId) (frame : Frame) (now : ℕ) (b : Broker)
    → IsWellFormed b
    → IsWellFormed (begin_delivery sender frame now b).1
unfolding begin_delivery
begin_delivery-IsWellFormed sender (message m) now b w =
    after IsWellFormed (credentials b sender) _ b w λ _ _.
      after IsWellFormed (validate_message_headers m.headers) _ b w λ _ _.
        after IsWellFormed (message_priority m.headers) _ b w λ priority _.
          elim (Bool-cases (is_response m.kind)) [
            | inl e ↦ rw e (complete_response-IsWellFormed sender m b w)
            | inr e ↦ rw e (begin_routing-IsWellFormed sender m now priority b w)
          ]
begin_delivery-IsWellFormed sender _ now b w = w
