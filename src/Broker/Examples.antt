-- ===== src/Broker/Examples.antt =====
-- The calls of the scenario, one after another.
use busd.Prelude.{
  false, ◌&&◌, ◌+◌, if◌then◌else◌, ◌≤◌, ◌<◌, ℕ, ◌≡◌, refl, true, List, [], ◌∷◌, some, ok, err,
  arith,
}
use busd.Order.{same, nat_order, bytes_order}
use busd.Map.{contains_key, contains, insert, set_insert, get}
use busd.Protocol.Types.{
  DeliveryOutcome, ClientId, PeerId, Namespace, MessageId, Message, message, MessageKind, AckPolicy,
  AckRequirement, RequestPolicy, RetryPolicy, Destination, ClientSelection,
}
use busd.Protocol.Bytes.{ascii}
use busd.Policy.{allow_all}
use busd.Broker.Admission.{connect_session_accepts, MayConnect}
use busd.Broker.Responses.{accept_response, complete_response, completes, forwarded, respond}
use busd.Broker.Checks.{validate_claimed_headers}
use busd.Broker.Reliability.{u64_max, acknowledgement_satisfies, requirement_met, retry_next}
use busd.Broker.Confirmations.{acknowledge_once}
use busd.Broker.Scenario.{
  user, worker_hello, jobs, start, claimed, request_id, job, job_delivery, waiting, claimed-Reach,
  waiting-Reach,
}
use busd.Broker.Ownership.{claim_owners, is_ok, claim_succeeds, MayClaim}
use busd.Broker.Backoff.{retry_next_bounds}
use busd.Broker.Recipients.{route-contains, route_selects, is_addressed, announced}
use busd.Broker.Answers.{
  complete_response_progress, complete_response_closes, complete_response_once, Progressed,
  after_responses,
}
use busd.Broker.Quotas.{Reach-claims, owned}
use busd.Broker.Steps.Fixed.{connect_session-fresh}
use busd.Broker.Invariant.Routing.{route-connected, AllConnected}
use busd.Broker.Refusals.{run_refused, Kept, failure}
use busd.Broker.Release.{disconnect-Released, Released}
use busd.Broker.Types.{
  unknown_delivery, Error, deliver, result, ConnectedPeer, DeliveryEvent, default_limits,
  namespace_already_owned,
}
use busd.Broker.Routing.{matching_clients, candidates, namespace_owner, route}
use busd.Broker.Disconnect.{affected, disconnect_with_events, drop_all, fail_waiting, remove_peer}
use busd.Broker.Acknowledge.{
  ack_completes, acknowledge, acknowledge_message, acknowledge_pending, finish_ack, with_ack,
}
use busd.Broker.Registry.{claim_quota, claims_of, claim}
use busd.Broker.Session.{
  connect_session, admit, authorize, authorize_hello, credentials, record_monitor, intersection,
}
use busd.Broker.Steps.{Operation, run, Reach, here, next, call, Reach-IsWellFormed}
use busd.Broker.Invariant.{IsWellFormed}

Reach-IsWellFormed_example : IsWellFormed waiting
Reach-IsWellFormed_example = Reach-IsWellFormed allow_all default_limits [] waiting-Reach

waiting-IsWellFormed : IsWellFormed waiting
waiting-IsWellFormed = Reach-IsWellFormed allow_all default_limits [] waiting-Reach

claimed-IsWellFormed : IsWellFormed claimed
claimed-IsWellFormed = Reach-IsWellFormed allow_all default_limits [] claimed-Reach

disconnect-Released_example : Released 1 waiting (disconnect_with_events 1 waiting).1
disconnect-Released_example = disconnect-Released 1 waiting waiting-IsWellFormed refl

second_claim :
    failure (Operation.claim_namespace 2 jobs) claimed ≡ some (namespace_already_owned jobs 1)
unfolding failure claim authorize authorize_hello allow_all claim_quota claims_of
second_claim = refl

run_refused_example : Kept claimed (run (Operation.claim_namespace 2 jobs) claimed)
run_refused_example =
    run_refused (Operation.claim_namespace 2 jobs) claimed (namespace_already_owned jobs 1)
      second_claim

abbrev owner : List PeerId
owner = 1 ∷ []

jobs-route : route claimed 2 (Destination.namespace jobs) [] ≡ ok (1 ∷ [])
unfolding route credentials candidates namespace_owner authorize authorize_hello allow_all
jobs-route = refl

route-connected_example : AllConnected claimed.peers (1 ∷ [])
route-connected_example =
    route-connected claimed 2 (Destination.namespace jobs) [] (1 ∷ []) claimed-IsWellFormed
      jobs-route

route-contains_example : contains 1 owner ≡ is_addressed claimed 2 (Destination.namespace jobs) [] 1
route-contains_example =
    route-contains claimed 2 (Destination.namespace jobs) [] (1 ∷ []) 1 claimed-IsWellFormed
      jobs-route refl

abbrev worker_name : ClientId
worker_name = ascii "worker"

worker-route :
    route claimed 2 (Destination.client_id worker_name ClientSelection.any_of) [] ≡ ok (1 ∷ [])
unfolding route credentials candidates matching_clients authorize authorize_hello allow_all
worker-route = refl

route_selects_example :
    (r : PeerId) × ((1 ∷ []) ≡ r ∷ []) × (announced worker_name (get r claimed.peers) ≡ true)
route_selects_example =
    route_selects claimed 2 worker_name ClientSelection.any_of [] (1 ∷ []) claimed-IsWellFormed refl
      worker-route

abbrev session : ℕ → ConnectedPeer
session id = record { id = id; capabilities = [] }

first_session : (connect_session user worker_hello start).0 ≡ ok (session 1)
unfolding connect_session validate_claimed_headers authorize_hello allow_all admit intersection
first_session = refl

left-Reach :
    Reach
      (connect_session user worker_hello start).1
      (run (Operation.disconnect 1) (connect_session user worker_hello start).1)
left-Reach = next here (call (Operation.disconnect 1) _)

second_session :
    (connect_session user worker_hello
      (run (Operation.disconnect 1) (connect_session user worker_hello start).1)).0
    ≡ ok (session 2)
unfolding connect_session validate_claimed_headers authorize_hello allow_all admit intersection run
    disconnect_with_events remove_peer fail_waiting drop_all affected record_monitor insert
second_session = refl

connect_session-fresh_example : 1 < 2
connect_session-fresh_example =
    connect_session-fresh user worker_hello start (session 1) user worker_hello (session 2)
      first_session left-Reach second_session

Reach-claims_example : owned 1 waiting.namespaces ≤ 64
Reach-claims_example = Reach-claims allow_all default_limits [] 1 waiting-Reach

abbrev logs : Namespace
logs = ascii "bus://logs"

claim_succeeds_example :
    (MayClaim 2 logs claimed → (claim 2 logs claimed).0 ≡ ok tt)
    × ((claim 2 logs claimed).0 ≡ ok tt → MayClaim 2 logs claimed)
claim_succeeds_example = claim_succeeds 2 logs claimed

claim_owners_example : get jobs (claim 2 logs claimed).1.namespaces ≡ (
    if is_ok (claim 2 logs claimed).0 && same jobs logs
    then some 2
    else get jobs claimed.namespaces)
claim_owners_example = claim_owners 2 logs jobs claimed

abbrev received : DeliveryEvent
received = result 2 request_id DeliveryOutcome.received

abbrev no_events : List DeliveryEvent
no_events = []

first_ack : (acknowledge 1 request_id AckPolicy.received waiting).0 ≡ ok (received ∷ [])
unfolding acknowledge authorize authorize_hello allow_all acknowledge_pending
    acknowledgement_satisfies acknowledge_message with_ack ack_completes requirement_met finish_ack
    record_monitor set_insert
first_ack = refl

second_ack :
    (acknowledge 1 request_id AckPolicy.processed
      (acknowledge 1 request_id AckPolicy.received waiting).1).0
    ≡ ok no_events
unfolding acknowledge authorize authorize_hello allow_all acknowledge_pending
    acknowledgement_satisfies acknowledge_message with_ack ack_completes requirement_met finish_ack
    record_monitor set_insert insert
second_ack = refl

acknowledge_once_example : no_events ≡ []
acknowledge_once_example =
    acknowledge_once 1 request_id AckPolicy.received waiting received [] 1 AckPolicy.processed
      no_events first_ack second_ack

abbrev answer_id : MessageId
answer_id = 8 ∷ 0 ∷ 0 ∷ 0 ∷ 0 ∷ 0 ∷ 0 ∷ 0 ∷ 0 ∷ 0 ∷ 0 ∷ 0 ∷ 0 ∷ 0 ∷ 0 ∷ 0 ∷ []

abbrev answer : Message
answer = record job {
  kind = MessageKind.response;
  ack_policy = AckPolicy.none;
  ack_requirement = AckRequirement.none;
  request_policy = RequestPolicy.exact;
  deadline_ms = 0;
  retry = RetryPolicy.none;
  destination = Destination.peer 2;
  message_id = answer_id;
  correlation_id = request_id;
}

abbrev answered : List DeliveryEvent
answered = deliver 1 (2 ∷ []) (message answer) ∷ []

first_answer : (complete_response 1 answer waiting).0 ≡ ok answered
unfolding complete_response respond accept_response completes forwarded insert
first_answer = refl

-- Peer 2 is no recipient and is refused, and peer 1 tries again.
abbrev others : List (PeerId × Message)
others = (2, answer) ∷ (1, answer) ∷ []

complete_response_once_example :
    (e : Error) × ((complete_response 1 answer
        (after_responses others (complete_response 1 answer waiting).1)).0
      ≡ err e)
complete_response_once_example =
    complete_response_once 1 answer answer waiting answered others first_answer refl

complete_response_closes_example :
    (complete_response 2 answer (after_responses others (complete_response 1 answer waiting).1)).0
    ≡ err (unknown_delivery request_id)
complete_response_closes_example =
    complete_response_closes 1 2 answer answer waiting answered job_delivery job others refl refl
      refl first_answer refl

complete_response_progress_example :
    (contains 1 job_delivery.recipients ≡ true)
    × (contains_key 1 job_delivery.responses ≡ false)
    × Progressed 1 answer job_delivery job
        (get request_id (complete_response 1 answer waiting).1.deliveries)
complete_response_progress_example =
    complete_response_progress 1 answer waiting answered job_delivery job refl refl first_answer

third_retry : retry_next (RetryPolicy.exponential 100 5) 1000 3 ≡ some 1400
unfolding retry_next
third_retry = refl

retry_next_bounds_example : (1000 ≤ 1400) × (1400 ≤ 1000 + 60000) × (1400 ≤ u64_max)
retry_next_bounds_example = retry_next_bounds 100 5 1000 3 1400 (omega arith) third_retry

connect_session_accepts_example :
    (MayConnect user worker_hello start
      → (s : ConnectedPeer) × ((connect_session user worker_hello start).0 ≡ ok s))
    × ((s : ConnectedPeer)
        → (connect_session user worker_hello start).0 ≡ ok s
        → MayConnect user worker_hello start)
connect_session_accepts_example = connect_session_accepts user worker_hello start

abbrev job_sent : List DeliveryEvent
job_sent = deliver 2 (1 ∷ []) (message job) ∷ []
