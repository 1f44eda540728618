-- ===== src/Protocol/Limits.antt =====
-- What Rust's types say of a frame: integers within their width, texts in UTF-8, validated names,
-- maps and sets in strictly ascending key order, identifiers of sixteen bytes.
use busd.Prelude.{ℕ, ◌^◌, ◌<◌, ◌≡◌, true, Option, none, some, length, All, ok}
use busd.Order.{bytes_order}
use busd.Map.{keys}
use busd.Map.Keys.{IsAscending, Entries}
use busd.Protocol.Types.{
  Text, PeerId, MessageId, Namespace, Headers, Capabilities, HeaderValue, text, unsigned, boolean,
  binary, AckRequirement, RetryPolicy, Destination, HeaderFilter, exists, not_exists, equal,
  not_equal, prefix, Message, Frame, hello, welcome, message, acknowledge, delivery_result,
  protocol_error, control_result, resolve_namespace, namespace_resolved,
}
use busd.Protocol.Bytes.{is_utf8}
use busd.Protocol.Names.{parse_namespace}

abbrev pub IsText : Text → Type 0
IsText t = is_utf8 t ≡ true

abbrev pub IsNamespace : Namespace → Type 0
IsNamespace n = parse_namespace n ≡ ok n

abbrev pub IsU64 : ℕ → Type 0
IsU64 n = n < 2 ^ 64

abbrev pub IsU32 : ℕ → Type 0
IsU32 n = n < 4294967296

abbrev pub IsMessageId : MessageId → Type 0
IsMessageId id = length id ≡ 16

abbrev pub IsValue : HeaderValue → Type 0
IsValue (text t) = IsText t
IsValue (unsigned n) = IsU64 n
IsValue (boolean b) = Unit {0}
IsValue (binary bs) = Unit {0}

abbrev pub IsHeaders : Headers → Type 0
IsHeaders headers = IsAscending (keys headers) × Entries (λ name value. IsValue value) headers

abbrev pub IsCapabilities : Capabilities → Type 0
IsCapabilities capabilities = IsAscending capabilities

abbrev pub IsFilter : HeaderFilter → Type 0
IsFilter (exists name) = Unit {0}
IsFilter (not_exists name) = Unit {0}
IsFilter (equal name value) = IsValue value
IsFilter (not_equal name value) = IsValue value
IsFilter (prefix name value) = IsValue value

abbrev pub IsRequirement : AckRequirement → Type 0
IsRequirement AckRequirement.none = Unit {0}
IsRequirement AckRequirement.any_of = Unit {0}
IsRequirement AckRequirement.all_of = Unit {0}
IsRequirement (AckRequirement.minimum n) = n < 65536

abbrev pub IsRetry : RetryPolicy → Type 0
IsRetry RetryPolicy.none = Unit {0}
IsRetry (RetryPolicy.exponential backoff attempts) = IsU32 backoff

abbrev pub IsDestination : Destination → Type 0
IsDestination Destination.broker = Unit {0}
IsDestination (Destination.peer id) = IsU64 id
IsDestination (Destination.namespace name) = IsNamespace name
IsDestination (Destination.channel name) = Unit {0}
IsDestination (Destination.client_id name selection) = Unit {0}
IsDestination Destination.broadcast = Unit {0}

pub record IsMessage (m : Message) : Type 0 where
  pub requirement : IsRequirement m.ack_requirement
  pub deadline : IsU32 m.deadline_ms
  pub retry : IsRetry m.retry
  pub destination : IsDestination m.destination
  pub message_id : IsMessageId m.message_id
  pub correlation_id : IsMessageId m.correlation_id
  pub headers : IsHeaders m.headers

abbrev pub IsOwner : Option PeerId → Type 0
IsOwner none = Unit {0}
IsOwner (some id) = IsU64 id

abbrev pub IsFrame : Frame → Type 0
IsFrame (hello id headers capabilities) = IsHeaders headers × IsCapabilities capabilities
IsFrame (welcome id capabilities) = IsU64 id × IsCapabilities capabilities
IsFrame (Frame.claim name headers) = IsNamespace name × IsHeaders headers
IsFrame (Frame.subscribe channel filters) = All IsFilter filters
IsFrame (Frame.unsubscribe channel) = Unit {0}
IsFrame (message m) = IsMessage m
IsFrame (acknowledge id policy) = IsMessageId id
IsFrame (delivery_result id outcome) = IsMessageId id
IsFrame (protocol_error code diagnostic) = IsText diagnostic
IsFrame (control_result operation) = Unit {0}
IsFrame (resolve_namespace name) = IsNamespace name
IsFrame (namespace_resolved name owner) = IsNamespace name × IsOwner owner
