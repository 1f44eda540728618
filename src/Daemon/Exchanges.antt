-- ===== src/Daemon/Exchanges.antt =====
-- What clients exchange with the daemon, packet by packet.
use busd.Prelude.{◌++◌, ◌≡◌, refl, List, [], ◌∷◌, ok, err, arith}
use busd.Order.{nat_order, bytes_order}
use busd.Map.{set_insert, collect, insert}
use busd.Protocol.Writer.{
  push_u64, push_u8, push_ack_requirement, push_u32, push_retry_policy, push_destination,
  push_namespace, push_text, push_length16, push_u16, push_headers, push_entries, push_name,
  checked_name, push_value, push_binary, push_length32,
}
use busd.Protocol.Types.{
  absent, CodecError, is_absent, message, Message, default_frame_limits, FrameLimits, Bytes,
}
use busd.Protocol.Bytes.{to_be}
use busd.Protocol.Limits.{IsMessage}
use busd.Protocol.RoundTrip.Packets.{decode-encode}
use busd.Protocol.Encode.{packet_of, encode_with_limits, encode_body, push_message}
use busd.Protocol.Tags.{ack_policy_tag, message_kind_tag, request_policy_tag, status_tag}
use busd.Protocol.Options.{validate_delivery_options, validate_message_identity}
use busd.Protocol.Names.{parse_namespace, validate_name}
use busd.Protocol.Decode.{decode_with_limits}
use busd.Policy.{allow_all}
use busd.Daemon.Calls.{ControlCall}
use busd.Transport.{send_packet, invalid_data, Sockets, other}
use busd.Daemon.Oversize.{dispatch_session_full, IsFull}
use busd.Broker.Scenario.{request_id, jobs, claimed, claimed-Reach, job}
use busd.Daemon.Events.{
  send_or_skip, send_all, clone_all, labelled, outputs, dispatch_event, Sessions,
}
use busd.Client.Transport.{Bus}
use busd.Daemon.Serve.{dispatch_session, packet, run_session, failed, Received, World}
use busd.Broker.Types.{DeliveryEvent, deliver, default_limits}
use busd.Broker.Session.{authorize, authorize_hello, credentials, record_monitor}
use busd.Broker.Routing.{candidates, namespace_owner, route}
use busd.Broker.Reliability.{
  delivery_bytes, header_bytes, payload_bytes, requirement_possible, retry_next,
}
use busd.Broker.Labels.{destination_label}
use busd.Broker.Delivery.{
  add_delivery, begin_routing, count_routed, deliver_to, dispatch, ensure_delivery_capacity,
  total_bytes,
}
use busd.Broker.Checks.{message_priority, validate_message_headers}
use busd.Broker.Responses.{begin_delivery, begin_message}
use busd.Daemon.Delivery.{deliver-IsLabelled, connections_of, Sends, IsLabelled}
use busd.Daemon.Teardown.{run_session-Ended, Ended}
use busd.Broker.Steps.{Reach-IsWellFormed}
use busd.Broker.Invariant.{IsWellFormed}

abbrev good : Sockets
good = record { send = λ s c p. ok tt; clone = λ s c. ok tt }

abbrev served_world : World
served_world = record { broker = claimed; sessions = (1, 7) ∷ (2, 8) ∷ []; sent = [] }

claimed-IsWellFormed : IsWellFormed claimed
claimed-IsWellFormed = Reach-IsWellFormed allow_all default_limits [] claimed-Reach

abbrev reset : List Received
reset = failed other ∷ []

run_session-Ended_example :
    Ended 1 served_world (run_session good default_frame_limits 7 1 reset served_world).1
run_session-Ended_example =
    run_session-Ended good default_frame_limits 7 1 reset served_world claimed-IsWellFormed refl

job-IsMessage : IsMessage job
unfolding parse_namespace validate_name
job-IsMessage = record {
  requirement = tt;
  deadline = omega arith;
  retry = omega arith;
  destination = refl;
  message_id = refl;
  correlation_id = refl;
  headers = (tt, tt);
}

abbrev sessions : Sessions
sessions = (1, 7) ∷ (2, 8) ∷ []

job-dispatched :
    (dispatch_event good sessions default_frame_limits (deliver 2 (1 ∷ []) (message job)) []).0
    ≡ ok tt
unfolding dispatch_event labelled insert clone_all send_all send_or_skip outputs send_packet
    push_u64 encode_with_limits encode_body push_message validate_delivery_options
    validate_message_identity is_absent ack_policy_tag message_kind_tag request_policy_tag
    status_tag push_u8 push_ack_requirement push_u32 push_retry_policy push_destination
    push_namespace push_text push_length16 push_u16 push_headers push_entries push_name checked_name
    push_value push_binary push_length32 to_be validate_name
job-dispatched = refl

deliver-IsLabelled_example :
    (packet : Bytes) × (m' : Message) × (decode_with_limits packet default_frame_limits
      ≡ ok (message m'))
    × IsLabelled 2 job m'
    × Sends good packet
        (connections_of (1 ∷ []) sessions)
        []
        (dispatch_event good sessions default_frame_limits (deliver 2 (1 ∷ []) (message job)) []).1
deliver-IsLabelled_example =
    deliver-IsLabelled good sessions default_frame_limits 2 (1 ∷ []) job [] job-IsMessage
      (omega arith) job-dispatched

-- Limits under which a message may have no header.
abbrev no_headers : FrameLimits
no_headers = record default_frame_limits { maximum_headers = 0 }

abbrev job_packet : Bytes
job_packet = packet_of 6 (
    1
    ∷ 2
    ∷ 2
    ∷ 1
    ∷ 0
    ∷ 0
    ∷ 3
    ∷ 232
    ∷ 1
    ∷ 0
    ∷ 0
    ∷ 0
    ∷ 100
    ∷ 3
    ∷ 2
    ∷ 0
    ∷ 10
    ∷ (jobs ++ (request_id ++ (absent ++ 0 ∷ 0 ∷ 0 ∷ 0 ∷ 0 ∷ 0 ∷ 2 ∷ 104 ∷ 105 ∷ []))))

job-IsFull : IsFull job no_headers
job-IsFull = record { full = refl; unlabelled = refl }

job-encodes : encode_with_limits (message job) no_headers ≡ ok job_packet
unfolding encode_with_limits encode_body push_message validate_delivery_options
    validate_message_identity is_absent ack_policy_tag message_kind_tag request_policy_tag
    status_tag push_u8 push_ack_requirement push_u32 push_retry_policy push_destination
    push_namespace push_text push_length16 push_u16 push_headers push_entries push_name checked_name
    push_value push_binary push_length32 to_be validate_name
job-encodes = refl

job-decodes : decode_with_limits job_packet no_headers ≡ ok (message job)
job-decodes = decode-encode (message job) no_headers job_packet job-IsMessage job-encodes

abbrev no_events : List DeliveryEvent
no_events = []

job-delivered :
    (begin_delivery 2 (message job) 10 claimed).0
    ≡ ok (deliver 2 (1 ∷ []) (message job) ∷ no_events)
unfolding begin_delivery begin_message credentials validate_message_headers message_priority
    begin_routing route candidates namespace_owner authorize authorize_hello allow_all deliver_to
    count_routed record_monitor destination_label payload_bytes dispatch ensure_delivery_capacity
    total_bytes delivery_bytes header_bytes add_delivery retry_next requirement_possible insert
    collect set_insert
job-delivered = refl

abbrev job_received : List Received
job_received = packet job_packet 10 ∷ []

dispatch_session_full_example :
    let r = dispatch_session good no_headers 8 2 job_received served_world in
    (r.1.sent ≡ []) × ((e : CodecError) × (r.0 ≡ err (invalid_data e)))
dispatch_session_full_example =
    dispatch_session_full good no_headers 8 2 job_packet 10 [] served_world job (1 ∷ []) []
      job-IsFull job-decodes job-delivered

abbrev requester_bus : Bus
requester_bus = record {
  connection = 3;
  frame_limits = default_frame_limits;
  peer_id = 2;
  capabilities = [];
}

abbrev logs_claim : ControlCall
logs_claim = ControlCall.claim jobs

abbrev claim_packet : Bytes
claim_packet = packet_of 3 (0 ∷ 10 ∷ (jobs ++ 0 ∷ 0 ∷ []))
