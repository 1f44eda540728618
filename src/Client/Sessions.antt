-- ===== src/Client/Sessions.antt =====
-- Clients that claim, request and reconnect.
use busd.Prelude.{Result, ◌≡◌, refl, true, none, List, [], ◌∷◌, ◌++◌, ok, err, arith}
use busd.Order.{bytes_order}
use busd.Protocol.Examples.{decode-first_packet, first_message, first_packet}
use busd.Protocol.Decode.{
  finish, decode_control_result, decode_welcome, decode_body, decode_with_limits,
}
use busd.Protocol.Reader.{
  take_bytes, read_names, read_u8, read_u16, read_capabilities, read_u64, read_peer_id,
}
use busd.Protocol.Tags.{decode_control_operation}
use busd.Protocol.Bytes.{from_be, to_be, ascii}
use busd.Protocol.Writer.{
  any_descent, push_encoded, encode_filters, push_filters, push_namespace, push_names,
  push_capabilities, push_entries, push_headers, push_u8, checked_name, push_length16, push_name,
  push_text, push_u16,
}
use busd.Protocol.Encode.{push_client_id, encode_body, encode_with_limits, packet_of}
use busd.Protocol.Names.{validate_name}
use busd.Protocol.Types.{
  Namespace, Bytes, MessageId, Frame, default_frame_limits, control_result, ControlOperation,
}
use busd.Client.Transport.{handshake, Error, Transport, Bus}
use busd.Client.Reconnect.{
  restore_subscriptions, restore_claims, reconnect, remove_subscription, ReconnectingBus,
}
use busd.Client.Bus.{
  receive_frame, send_frame, send_control, subscribe, claim_with_headers, connect, unsubscribe,
}
use busd.Client.Replay.{reconnect-Restored}
use busd.Client.Log.{recorded, Restored, Log}
use busd.Client.Restore.{failed_keeps, Call, after_call}
use busd.Client.Request.{await_response}
use busd.Transport.{pure}
use busd.Client.Await.{inbox, await_response-Answers, Answers, answer_of}
use busd.Client.Misread.{send_control_misread}

abbrev bus : Bus
bus = record { connection = 3; frame_limits = default_frame_limits; peer_id = 2; capabilities = [] }

abbrev id : MessageId
id = 7 ∷ 0 ∷ 0 ∷ 0 ∷ 0 ∷ 0 ∷ 0 ∷ 0 ∷ 0 ∷ 0 ∷ 0 ∷ 0 ∷ 0 ∷ 0 ∷ 0 ∷ 0 ∷ []

-- An accepted request whose recipient has left.
abbrev reports : List Bytes
reports = packet_of 12 (id ++ 0 ∷ []) ∷ packet_of 12 (id ++ 5 ∷ []) ∷ []

await_response-Answers_example :
    (outcome : Result Error Frame) × (rest : List Bytes) × Answers id default_frame_limits reports
      outcome rest
    × (await_response inbox 3 bus id reports ≡ (answer_of outcome, rest))
await_response-Answers_example = await_response-Answers bus id 3 reports (omega arith)

abbrev logs : Bytes
logs = ascii "logs"

abbrev jobs : Namespace
jobs = ascii "bus://jobs"

-- A client that restores a claim and a subscription.
abbrev client : ReconnectingBus
client = record {
  bus = bus;
  options = record {
    socket = ascii "/run/busd/busd.sock";
    frame_limits = default_frame_limits;
    client_id = none;
    headers = [];
    capabilities = [];
  };
  claims = record { namespace = jobs; headers = [] } ∷ [];
  subscriptions = record { channel = logs; filters = [] } ∷ [];
}

-- The connection is closed before the answer.
cut_off : (after_call inbox (Call.unsubscribes logs) (client, [])).0 ≡ true
unfolding remove_subscription unsubscribe encode_with_limits encode_body push_name checked_name
    validate_name push_text push_length16 push_u16 to_be
cut_off = refl

failed_keeps_example : (after_call inbox (Call.unsubscribes logs) (client, [])).1 ≡ client
failed_keeps_example = failed_keeps inbox (Call.unsubscribes logs) client [] cut_off

abbrev reachable : Transport (List Bytes)
reachable = record inbox { connect = λ socket. pure 4 }

abbrev confirmations : List Bytes
confirmations =
    packet_of 2 (0 ∷ 0 ∷ 0 ∷ 0 ∷ 0 ∷ 0 ∷ 0 ∷ 9 ∷ 0 ∷ 0 ∷ [])
    ∷ packet_of 8 (0 ∷ [])
    ∷ packet_of 8 (1 ∷ [])
    ∷ []

abbrev empty_log : Log
empty_log = []

reconnected : (reconnect (recorded reachable) (client, (confirmations, empty_log))).0 ≡ ok 9
unfolding reconnect connect claim_with_headers subscribe send_control send_frame receive_frame
    restore_claims restore_subscriptions encode_with_limits encode_body push_client_id push_u8
    push_headers push_length16 push_u16 push_entries push_capabilities push_names push_namespace
    push_text push_name checked_name validate_name push_filters encode_filters push_encoded
    any_descent to_be from_be decode_with_limits decode_body decode_welcome decode_control_result
    decode_control_operation read_peer_id read_u64 read_capabilities read_u16 read_u8 read_names
    take_bytes finish
reconnected = refl

reconnect-Restored_example :
    Restored client
      (reconnect (recorded reachable) (client, (confirmations, empty_log))).1.0
      empty_log
      (reconnect (recorded reachable) (client, (confirmations, empty_log))).1.1.1
      9
reconnect-Restored_example =
    reconnect-Restored reachable client (confirmations, empty_log) 9 reconnected

abbrev other_claim : Frame
other_claim = Frame.claim (ascii "bus://logs") []

abbrev jobs_packet : Bytes
jobs_packet = packet_of 3 (0 ∷ 10 ∷ (jobs ++ 0 ∷ 0 ∷ []))

abbrev logs_packet : Bytes
logs_packet = packet_of 3 (0 ∷ 10 ∷ (ascii "bus://logs" ++ 0 ∷ 0 ∷ []))

jobs-encodes : encode_with_limits (Frame.claim jobs []) default_frame_limits ≡ ok jobs_packet
unfolding encode_with_limits encode_body push_headers push_length16 push_u16 push_entries
    push_namespace push_text validate_name to_be
jobs-encodes = refl

logs-encodes : encode_with_limits other_claim default_frame_limits ≡ ok logs_packet
unfolding encode_with_limits encode_body push_headers push_length16 push_u16 push_entries
    push_namespace push_text validate_name to_be
logs-encodes = refl

abbrev confirmed : Bytes
confirmed = packet_of 8 (0 ∷ [])

confirmed-decodes :
    decode_with_limits confirmed default_frame_limits ≡ ok (control_result ControlOperation.claim)
unfolding decode_with_limits decode_body decode_control_result decode_control_operation read_u8
    take_bytes finish to_be from_be
confirmed-decodes = refl

abbrev unread : List Bytes
unread = []

send_control_misread_example :
    let first =
      send_control inbox bus
        (Frame.claim jobs [])
        ControlOperation.claim
        (first_packet ∷ confirmed ∷ unread) in
    (first.0 ≡ err (handshake "broker sent an unexpected control frame"))
    × (send_control inbox bus other_claim ControlOperation.claim first.1 ≡ (ok tt, unread))
send_control_misread_example =
    send_control_misread bus (Frame.claim jobs []) other_claim ControlOperation.claim first_message
      jobs_packet logs_packet first_packet confirmed unread jobs-encodes logs-encodes
      decode-first_packet confirmed-decodes
