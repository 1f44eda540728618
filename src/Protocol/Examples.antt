-- ===== src/Protocol/Examples.antt =====
-- A frame of crates/bus-protocol/src/lib.rs on the wire.
use busd.Prelude.{◌≡◌, refl, [], ◌∷◌, ok, arith}
use busd.Protocol.Accepts.{IsWhole, decode_with_limits-IsWhole}
use busd.Protocol.Types.{
  Bytes, MessageId, Frame, Message, message, MessageKind, AckPolicy, AckRequirement, RequestPolicy,
  RetryPolicy, Destination, Status, text, default_frame_limits, absent, is_absent,
}
use busd.Protocol.Bytes.{ascii, is_utf8, to_be}
use busd.Protocol.Names.{parse_namespace, validate_name}
use busd.Protocol.Limits.{IsFrame}
use busd.Protocol.Options.{validate_delivery_options, validate_message_identity}
use busd.Protocol.Tags.{ack_policy_tag, message_kind_tag, request_policy_tag, status_tag}
use busd.Protocol.Writer.{
  push_u8, push_ack_requirement, push_u32, push_retry_policy, push_destination, push_namespace,
  push_text, push_length16, push_u16, push_headers, push_entries, push_name, checked_name,
  push_value, push_binary, push_length32,
}
use busd.Protocol.Encode.{encode_with_limits, encode_body, push_message}
use busd.Protocol.Decode.{decode_with_limits}
use busd.Protocol.RoundTrip.Packets.{decode-encode}

abbrev pub first_id : MessageId
first_id = 1 ∷ 0 ∷ 0 ∷ 0 ∷ 0 ∷ 0 ∷ 0 ∷ 0 ∷ 0 ∷ 0 ∷ 0 ∷ 0 ∷ 0 ∷ 0 ∷ 0 ∷ 0 ∷ []

abbrev pub first_message : Message
first_message = record {
  kind = MessageKind.request;
  ack_policy = AckPolicy.received;
  ack_requirement = AckRequirement.all_of;
  request_policy = RequestPolicy.first;
  deadline_ms = 1000;
  retry = RetryPolicy.exponential 100 3;
  destination = Destination.namespace (ascii "bus://a.b");
  message_id = first_id;
  correlation_id = absent;
  status = Status.success;
  headers = (ascii "priority", text (ascii "3")) ∷ [];
  payload = 104 ∷ 105 ∷ [];
}

abbrev pub first_request : Frame
first_request = message first_message

abbrev pub first_packet : Bytes
first_packet =
    66 ∷ 85 ∷ 83 ∷ 49 ∷ 3 ∷ 6 ∷ 0 ∷ 0 ∷ 0 ∷ 0 ∷ 0 ∷ 81 ∷ 1 ∷ 2 ∷ 2 ∷ 1 ∷ 0 ∷ 0 ∷ 3 ∷ 232 ∷ 1 ∷ 0 ∷ 0
    ∷ 0 ∷ 100 ∷ 3 ∷ 2 ∷ 0 ∷ 9 ∷ 98 ∷ 117 ∷ 115 ∷ 58 ∷ 47 ∷ 47 ∷ 97 ∷ 46 ∷ 98 ∷ 1 ∷ 0 ∷ 0 ∷ 0 ∷ 0 ∷ 0
    ∷ 0 ∷ 0 ∷ 0 ∷ 0 ∷ 0 ∷ 0 ∷ 0 ∷ 0 ∷ 0 ∷ 0 ∷ 0 ∷ 0 ∷ 0 ∷ 0 ∷ 0 ∷ 0 ∷ 0 ∷ 0 ∷ 0 ∷ 0 ∷ 0 ∷ 0 ∷ 0 ∷ 0
    ∷ 0 ∷ 0 ∷ 0 ∷ 0 ∷ 1 ∷ 0 ∷ 8 ∷ 112 ∷ 114 ∷ 105 ∷ 111 ∷ 114 ∷ 105 ∷ 116 ∷ 121 ∷ 0 ∷ 0 ∷ 1 ∷ 51 ∷ 0
    ∷ 0 ∷ 0 ∷ 2 ∷ 104 ∷ 105 ∷ []

first_request-IsFrame : IsFrame first_request
unfolding parse_namespace validate_name is_utf8
first_request-IsFrame = record {
  requirement = tt;
  deadline = omega arith;
  retry = omega arith;
  destination = refl;
  message_id = refl;
  correlation_id = refl;
  headers = (tt, (refl, tt));
}

encode-first_request : encode_with_limits first_request default_frame_limits ≡ ok first_packet
unfolding encode_with_limits encode_body push_message validate_delivery_options
    validate_message_identity is_absent ack_policy_tag message_kind_tag request_policy_tag
    status_tag push_u8 push_ack_requirement push_u32 push_retry_policy push_destination
    push_namespace push_text push_length16 push_u16 push_headers push_entries push_name checked_name
    push_value push_binary push_length32 to_be validate_name
encode-first_request = refl

decode-encode_example : decode_with_limits first_packet default_frame_limits ≡ ok first_request
decode-encode_example =
    decode-encode first_request default_frame_limits first_packet first_request-IsFrame
      encode-first_request

pub decode-first_packet : decode_with_limits first_packet default_frame_limits ≡ ok first_request
decode-first_packet =
    decode-encode first_request default_frame_limits first_packet first_request-IsFrame
      encode-first_request

decode_with_limits-IsWhole_example : IsWhole default_frame_limits first_packet first_request
decode_with_limits-IsWhole_example =
    decode_with_limits-IsWhole first_packet default_frame_limits first_request decode-first_packet
