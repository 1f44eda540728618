-- ===== src/Broker/Scenario.antt =====
-- A requester, a worker that owns a namespace, and a request from the one to the other.
use busd.Prelude.{ℕ, false, [], ◌∷◌, ◌++◌, Option, none, some}
use busd.Order.{nat_order, bytes_order}
use busd.Map.{collect, insert, set_insert}
use busd.Protocol.Types.{
  Text, PeerId, Namespace, MessageId, Message, message, MessageKind, AckPolicy, AckRequirement,
  RequestPolicy, RetryPolicy, Destination, Status, absent,
}
use busd.Protocol.Bytes.{ascii}
use busd.Policy.{Credentials, allow_all}
use busd.Broker.Reliability.{
  delivery_bytes, header_bytes, payload_bytes, requirement_possible, retry_next,
}
use busd.Broker.Types.{
  Broker, ClientHello, PendingDelivery, empty_broker, default_limits, default_metrics, Peer,
  MonitorKind, MonitorEvent, peer_connected, namespace_owner_changed,
}
use busd.Broker.Routing.{candidates, namespace_owner, route}
use busd.Broker.Responses.{begin_delivery, begin_message}
use busd.Broker.Registry.{add_claim, claim_quota, claims_of, claim}
use busd.Broker.Checks.{message_priority, validate_message_headers, validate_claimed_headers}
use busd.Broker.Delivery.{
  add_delivery, begin_routing, count_routed, deliver_to, dispatch, ensure_delivery_capacity,
  total_bytes,
}
use busd.Broker.Labels.{destination_label}
use busd.Broker.Session.{
  connect_session, admit, authorize, authorize_hello, credentials, record_monitor, intersection,
}
use busd.Broker.Steps.{Operation, run, Reach, here, next, call}

abbrev pub user : Credentials
user = record {
  pid = 10;
  uid = 1000;
  gid = 1000;
  executable = none;
  security_label = none;
  cgroup = none;
}

abbrev pub worker_hello : ClientHello
worker_hello = record { client_id = some (ascii "worker"); headers = []; capabilities = [] }

abbrev pub anonymous : ClientHello
anonymous = record { client_id = none; headers = []; capabilities = [] }

abbrev pub jobs : Namespace
jobs = ascii "bus://jobs"

abbrev pub start : Broker
start = empty_broker allow_all default_limits []

abbrev pub worker : Peer
worker = record { id = 1; credentials = user; hello = worker_hello; capabilities = [] }

abbrev pub requester : Peer
requester = record { id = 2; credentials = user; hello = anonymous; capabilities = [] }

abbrev pub monitored : ℕ → MonitorKind → PeerId → Option Text → MonitorEvent
monitored sequence kind peer target = record {
  sequence = sequence;
  kind = kind;
  peer = peer;
  target = target;
  message_id = none;
  payload_bytes = 0;
}

-- Two peers are connected, and the first has claimed a namespace.
abbrev pub claimed : Broker
claimed = record start {
  next_peer = 3;
  peers = (1, worker) ∷ (2, requester) ∷ [];
  namespaces = (jobs, 1) ∷ [];
  events = peer_connected 1 ∷ peer_connected 2 ∷ namespace_owner_changed jobs none (some 1) ∷ [];
  monitor_events =
      monitored 1 MonitorKind.connected 1 none
      ∷ monitored 2 MonitorKind.connected 2 none
      ∷ monitored 3 MonitorKind.namespace_claimed 1 (some jobs)
      ∷ [];
  next_monitor_sequence = 4;
}

abbrev pub request_id : MessageId
request_id = 7 ∷ 0 ∷ 0 ∷ 0 ∷ 0 ∷ 0 ∷ 0 ∷ 0 ∷ 0 ∷ 0 ∷ 0 ∷ 0 ∷ 0 ∷ 0 ∷ 0 ∷ 0 ∷ []

abbrev pub job : Message
job = record {
  kind = MessageKind.request;
  ack_policy = AckPolicy.received;
  ack_requirement = AckRequirement.all_of;
  request_policy = RequestPolicy.first;
  deadline_ms = 1000;
  retry = RetryPolicy.exponential 100 3;
  destination = Destination.namespace jobs;
  message_id = request_id;
  correlation_id = absent;
  status = Status.success;
  headers = [];
  payload = 104 ∷ 105 ∷ [];
}

abbrev pub job_delivery : PendingDelivery
job_delivery = record {
  sender = 2;
  message = message job;
  recipients = 1 ∷ [];
  acknowledgements = [];
  responses = [];
  acknowledgement_complete = false;
  deadline_ms = 1010;
  attempts = 1;
  next_retry_ms = some 110;
  priority = 0;
}

abbrev pub job_delivered : MonitorEvent
job_delivered = record {
  sequence = 4;
  kind = MonitorKind.delivered;
  peer = 2;
  target = some jobs;
  message_id = some request_id;
  payload_bytes = 2;
}

-- The second peer has sent the request at time 10.
abbrev pub waiting : Broker
waiting = record claimed {
  deliveries = (request_id, job_delivery) ∷ [];
  metrics = record default_metrics { messages_routed = 1; bytes_routed = 2 };
  monitor_events = claimed.monitor_events ++ job_delivered ∷ [];
  next_monitor_sequence = 5;
}

pub claimed-Reach : Reach start claimed
unfolding run connect_session validate_claimed_headers authorize_hello allow_all admit intersection
    record_monitor claim authorize claim_quota claims_of add_claim insert
claimed-Reach =
    next
      (next (next here (call (Operation.connect user worker_hello) _))
        (call (Operation.connect user anonymous) _))
      (call (Operation.claim_namespace 1 jobs) _)

pub waiting-Reach : Reach start waiting
unfolding run begin_delivery begin_message credentials validate_message_headers message_priority
    begin_routing route candidates namespace_owner authorize allow_all deliver_to count_routed
    record_monitor destination_label payload_bytes dispatch ensure_delivery_capacity total_bytes
    delivery_bytes header_bytes add_delivery retry_next requirement_possible insert collect
    set_insert
waiting-Reach = next claimed-Reach (call (Operation.send 2 (message job) 10) _)
