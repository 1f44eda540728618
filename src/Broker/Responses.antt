-- ===== src/Broker/Responses.antt =====
-- `complete_response`, and `begin_delivery`, which calls it.
use busd.Prelude.{
  ℕ, Bool, true, not, ◌||◌, Option, none, some, List, [], ◌∷◌, ◌==◌, length, ok, ok_or,
  if◌then◌else◌,
}
use busd.Order.{nat_order, bytes_order}
use busd.Map.{Map, get, insert, remove, contains_key, contains}
use busd.Protocol.Types.{PeerId, Message, Frame, message, RequestPolicy, Status}
use busd.Protocol.Options.{is_request, is_response, is_success}
use busd.Broker.Types.{
  PendingDelivery, DeliveryEvent, deliver, invalid_delivery, unknown_delivery, unexpected_response,
}
use busd.Broker.Exec.{Exec, ◌>>=◌, ◌>>◌, fail, reads}
use busd.Broker.Checks.{validate_message_headers, message_priority}
use busd.Broker.Session.{credentials}
use busd.Broker.Delivery.{begin_routing}

-- `let completed = match request_policy`
unfoldable pub completes : RequestPolicy → Status → ℕ → ℕ → Bool
completes RequestPolicy.exact status responses recipients = true
completes RequestPolicy.first status responses recipients = true
completes RequestPolicy.first_success status responses recipients =
    is_success status || responses == recipients
completes RequestPolicy.all_of status responses recipients = responses == recipients

abbrev pub first_value : Map PeerId Frame → Option Frame
first_value [] = none
first_value ((k, v) ∷ m) = some v

-- `let forward = match request_policy`
unfoldable pub forwarded : RequestPolicy → Status → Bool → Frame → Map PeerId Frame → Option Frame
forwarded RequestPolicy.exact status completed response responses = some response
forwarded RequestPolicy.first status completed response responses = some response
forwarded RequestPolicy.all_of status completed response responses = some response
forwarded RequestPolicy.first_success status completed response responses =
    if is_success status then some response else if completed then first_value responses else none

abbrev pub forward_events : PeerId → PeerId → Option Frame → List DeliveryEvent
forward_events sender requester none = []
forward_events sender requester (some frame) = deliver sender (requester ∷ []) frame ∷ []

-- The state and the events of an accepted response to the request `request`.
unfoldable pub accept_response :
    PeerId → Message → PendingDelivery → Message → Exec (List DeliveryEvent)
unfolding completes forwarded
accept_response sender response pending request b =
    let id = response.correlation_id in
    let responses = insert sender (message response) pending.responses in
    let pending' : PendingDelivery = record pending { responses = responses } in
    let completed =
      completes request.request_policy response.status (length responses)
        (length pending.recipients) in
    let kept = insert id pending' b.deliveries in
    let forward =
      forwarded request.request_policy response.status completed (message response) responses in
    (
      ok (forward_events sender pending.sender forward),
      record b { deliveries = if completed then remove id kept else kept },
    )

unfoldable pub respond : PeerId → Message → PendingDelivery → Frame → Exec (List DeliveryEvent)
unfolding accept_response
respond sender response pending (message request) =
    if not (is_request request.kind)
      || not (contains sender pending.recipients)
      || contains_key sender pending.responses
    then fail (unexpected_response response.correlation_id)
    else accept_response sender response pending request
respond sender response pending _ = fail (unexpected_response response.correlation_id)

unfoldable pub complete_response : PeerId → Message → Exec (List DeliveryEvent)
complete_response sender response = do
  pending ← reads (λ b.
      ok_or (get response.correlation_id b.deliveries) (unknown_delivery response.correlation_id))
  respond sender response pending pending.message

unfoldable pub begin_message : PeerId → Message → ℕ → Exec (List DeliveryEvent)
begin_message sender m now_ms = do
  known ← reads (λ b. credentials b sender)
  reads (λ b. validate_message_headers m.headers)
  priority ← reads (λ b. message_priority m.headers)
  if is_response m.kind then complete_response sender m else begin_routing sender m now_ms priority

unfoldable pub begin_delivery : PeerId → Frame → ℕ → Exec (List DeliveryEvent)
unfolding begin_message
begin_delivery sender (message m) now_ms = begin_message sender m now_ms
begin_delivery sender _ now_ms = fail invalid_delivery
