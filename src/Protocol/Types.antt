-- ===== src/Protocol/Types.antt =====
-- The data of crates/bus-protocol/src/lib.rs: identities, enumerations and frames.
-- A `String` and a `Vec<u8>` are lists of bytes, an integer is a native number, a `BTreeMap` is an
-- association list in key order and a `BTreeSet` a list in order. What Rust's types bound is
-- stated in Protocol/Limits.antt.
use busd.Prelude.{ℕ, Bool, List, [], ◌∷◌, String, Option}
use busd.Order.{same, bytes_order}

abbrev pub Bytes : Type 0
Bytes = List ℕ

abbrev pub Text : Type 0
Text = List ℕ

abbrev pub PeerId : Type 0
PeerId = ℕ

abbrev pub MessageId : Type 0
MessageId = List ℕ

abbrev pub absent : MessageId
absent = 0 ∷ 0 ∷ 0 ∷ 0 ∷ 0 ∷ 0 ∷ 0 ∷ 0 ∷ 0 ∷ 0 ∷ 0 ∷ 0 ∷ 0 ∷ 0 ∷ 0 ∷ 0 ∷ []

unfoldable pub is_absent : MessageId → Bool
is_absent id = same id absent

abbrev pub ClientId : Type 0
ClientId = Text

abbrev pub Namespace : Type 0
Namespace = Text

abbrev pub Channel : Type 0
Channel = Text

pub data NameError : Type 0 where
  missing_namespace_scheme invalid : NameError

pub data HeaderValue : Type 0 where
  text : Text → HeaderValue
  unsigned : ℕ → HeaderValue
  boolean : Bool → HeaderValue
  binary : Bytes → HeaderValue

abbrev pub Headers : Type 0
Headers = List (Text × HeaderValue)

abbrev pub Capabilities : Type 0
Capabilities = List Text

pub data MessageKind : Type 0 where
  signal request response : MessageKind

pub data AckPolicy : Type 0 where
  none accepted received processed : AckPolicy

pub data AckRequirement : Type 0 where
  none any_of all_of : AckRequirement
  minimum : ℕ → AckRequirement

pub data RequestPolicy : Type 0 where
  exact first first_success all_of : RequestPolicy

pub data RetryPolicy : Type 0 where
  none : RetryPolicy
  exponential : ℕ → ℕ → RetryPolicy

pub data DeliveryOutcome : Type 0 where
  accepted received processed timeout no_recipient recipient_disconnected delivery_failed :
      DeliveryOutcome

pub data ClientSelection : Type 0 where
  first any_of all_of : ClientSelection

pub data Destination : Type 0 where
  broker : Destination
  peer : PeerId → Destination
  namespace : Namespace → Destination
  channel : Channel → Destination
  client_id : ClientId → ClientSelection → Destination
  broadcast : Destination

pub data ControlOperation : Type 0 where
  claim subscribe unsubscribe : ControlOperation

pub data HeaderFilter : Type 0 where
  exists not_exists : Text → HeaderFilter
  equal not_equal prefix : Text → HeaderValue → HeaderFilter

pub data Status : Type 0 where
  success error unsupported denied busy not_found : Status

pub data ProtocolErrorCode : Type 0 where
  malformed_frame unsupported_version unknown_frame_kind limit_exceeded non_canonical invalid_state
        no_recipient :
      ProtocolErrorCode

-- The fields of `Frame::Message`.
pub record Message : Type 0 where
  pub kind : MessageKind
  pub ack_policy : AckPolicy
  pub ack_requirement : AckRequirement
  pub request_policy : RequestPolicy
  pub deadline_ms : ℕ
  pub retry : RetryPolicy
  pub destination : Destination
  pub message_id : MessageId
  pub correlation_id : MessageId
  pub status : Status
  pub headers : Headers
  pub payload : Bytes

pub data Frame : Type 0 where
  hello : Option ClientId → Headers → Capabilities → Frame
  welcome : PeerId → Capabilities → Frame
  claim : Namespace → Headers → Frame
  subscribe : Channel → List HeaderFilter → Frame
  unsubscribe : Channel → Frame
  message : Message → Frame
  acknowledge : MessageId → AckPolicy → Frame
  delivery_result : MessageId → DeliveryOutcome → Frame
  protocol_error : ProtocolErrorCode → Text → Frame
  control_result : ControlOperation → Frame
  resolve_namespace : Namespace → Frame
  namespace_resolved : Namespace → Option PeerId → Frame

pub record FrameLimits : Type 0 where
  pub maximum_frame_size : ℕ
  pub maximum_headers : ℕ
  pub maximum_capabilities : ℕ
  pub maximum_filters : ℕ

abbrev pub default_frame_limits : FrameLimits
default_frame_limits = record {
  maximum_frame_size = 1048576;
  maximum_headers = 128;
  maximum_capabilities = 128;
  maximum_filters = 64;
}

pub data CodecError : Type 0 where
  truncated invalid_magic length_mismatch frame_too_large invalid_utf8 : CodecError
  unsupported_version unknown_frame_kind reserved_flags : ℕ → CodecError
  limit_exceeded invalid_value non_canonical : String → CodecError
  invalid_name : NameError → CodecError
