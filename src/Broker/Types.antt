-- ===== src/Broker/Types.antt =====
-- The state of the broker and what its operations return.
use busd.Prelude.{ℕ, ◌*◌, Bool, Option, List, []}
use busd.Map.{Map}
use busd.Protocol.Types.{
  Text, PeerId, MessageId, ClientId, Namespace, Channel, Headers, Capabilities, HeaderFilter, Frame,
  DeliveryOutcome,
}
use busd.Policy.{Credentials, Action, Policy}

pub record ClientHello : Type 0 where
  pub client_id : Option ClientId
  pub headers : Headers
  pub capabilities : Capabilities

pub record Peer : Type 0 where
  pub id : PeerId
  pub credentials : Credentials
  pub hello : ClientHello
  pub capabilities : Capabilities

pub record ConnectedPeer : Type 0 where
  pub id : PeerId
  pub capabilities : Capabilities

pub data MonitorKind : Type 0 where
  connected disconnected namespace_claimed subscribed delivered acknowledged timed_out retried
        dropped_signal :
      MonitorKind

pub record MonitorEvent : Type 0 where
  pub sequence : ℕ
  pub kind : MonitorKind
  pub peer : PeerId
  pub target : Option Text
  pub message_id : Option MessageId
  pub payload_bytes : ℕ

pub record Metrics : Type 0 where
  pub messages_routed : ℕ
  pub bytes_routed : ℕ
  pub timeouts : ℕ
  pub retries : ℕ
  pub dropped_signals : ℕ

abbrev pub default_metrics : Metrics
default_metrics = record {
  messages_routed = 0;
  bytes_routed = 0;
  timeouts = 0;
  retries = 0;
  dropped_signals = 0;
}

pub record MetricsSnapshot : Type 0 where
  pub connected_peers : ℕ
  pub namespaces : ℕ
  pub subscriptions : ℕ
  pub totals : Metrics

pub record Limits : Type 0 where
  pub maximum_queued_bytes : ℕ
  pub maximum_queued_messages : ℕ
  pub maximum_in_flight_requests : ℕ
  pub maximum_subscriptions : ℕ
  pub maximum_namespace_claims : ℕ

abbrev pub default_limits : Limits
default_limits = record {
  maximum_queued_bytes = 4 * 1024 * 1024;
  maximum_queued_messages = 1024;
  maximum_in_flight_requests = 128;
  maximum_subscriptions = 256;
  maximum_namespace_claims = 64;
}

pub data Limit : Type 0 where
  queued_bytes queued_messages in_flight_requests subscriptions namespace_claims : Limit

pub record PendingDelivery : Type 0 where
  pub sender : PeerId
  pub message : Frame
  pub recipients : List PeerId
  pub acknowledgements : List PeerId
  pub responses : Map PeerId Frame
  pub acknowledgement_complete : Bool
  pub deadline_ms : ℕ
  pub attempts : ℕ
  pub next_retry_ms : Option ℕ
  pub priority : ℕ

pub data DeliveryEvent : Type 0 where
  deliver : (sender : PeerId) (recipients : List PeerId) (message : Frame) → DeliveryEvent
  result : (sender : PeerId) (message_id : MessageId) (outcome : DeliveryOutcome) → DeliveryEvent

pub record PeerInfo : Type 0 where
  pub id : PeerId
  pub client_id : Option ClientId
  pub claimed_headers : Headers
  pub credentials : Credentials
  pub capabilities : Capabilities

pub record SubscriptionInfo : Type 0 where
  pub channel : Channel
  pub subscribers : List (PeerId × List HeaderFilter)

pub data LifecycleEvent : Type 0 where
  peer_connected peer_disconnected : PeerId → LifecycleEvent
  namespace_owner_changed :
      (namespace : Namespace) (previous current : Option PeerId) → LifecycleEvent

pub data Error : Type 0 where
  unknown_peer : PeerId → Error
  namespace_already_owned : Namespace → PeerId → Error
  dbus_name_already_owned : Text → PeerId → Error
  invalid_dbus_name : Text → Error
  denied : Action → Error
  peer_id_exhausted : Error
  reserved_header : Text → Error
  no_recipient invalid_delivery deadline_overflow invalid_priority : Error
  duplicate_message unknown_delivery unexpected_acknowledgement unexpected_response :
      MessageId → Error
  limit_exceeded : Limit → Error

pub record Broker : Type 0 where
  pub policy : Policy
  pub limits : Limits
  pub capabilities : Capabilities
  pub next_peer : ℕ
  pub peers : Map PeerId Peer
  pub namespaces : Map Namespace PeerId
  pub dbus_names : Map Text PeerId
  pub subscriptions : Map Channel (Map PeerId (List HeaderFilter))
  pub deliveries : Map MessageId PendingDelivery
  pub events : List LifecycleEvent
  pub metrics : Metrics
  pub monitor_events : List MonitorEvent
  pub next_monitor_sequence : ℕ

-- `Broker::with_limits`, `with_capabilities` and `new`.
abbrev pub empty_broker : Policy → Limits → Capabilities → Broker
empty_broker policy limits capabilities = record {
  policy = policy;
  limits = limits;
  capabilities = capabilities;
  next_peer = 1;
  peers = [];
  namespaces = [];
  dbus_names = [];
  subscriptions = [];
  deliveries = [];
  events = [];
  metrics = default_metrics;
  monitor_events = [];
  next_monitor_sequence = 1;
}

abbrev pub with_limits : Policy → Limits → Broker
with_limits policy limits = empty_broker policy limits []

abbrev pub with_capabilities : Policy → Capabilities → Broker
with_capabilities policy capabilities = empty_broker policy default_limits capabilities

abbrev pub new : Policy → Broker
new policy = with_limits policy default_limits
