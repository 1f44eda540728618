-- ===== src/Client/Transport.antt =====
-- The errors of the client, and the native transport that it uses.
use busd.Prelude.{List, ℕ, Option, String}
use busd.Protocol.Types.{
  Bytes, Text, CodecError, ProtocolErrorCode, DeliveryOutcome, FrameLimits, ClientId, Headers,
  Capabilities, Namespace, Channel, HeaderFilter, PeerId,
}
use busd.Action.{Action}
use busd.Transport.{IoError, Connection}

pub data Error : Type 0 where
  transport : IoError → Error
  codec : CodecError → Error
  handshake : String → Error
  rejected : ProtocolErrorCode → Text → Error
  delivery : DeliveryOutcome → Error

-- The transport over a state `S` of the rest of the world: what the kernel and the other side do.
pub record Transport (S : Type 0) : Type 0 where
  pub connect : Text → Action S IoError Connection
  pub send : Connection → Bytes → Action S IoError (Unit {0})
  pub receive : Connection → ℕ → Action S IoError (Option Bytes)
  pub disconnect : Connection → Action S IoError (Unit {0})
  -- The end of a connection's life, which closes it.
  pub close : Connection → S → S

pub record ConnectOptions : Type 0 where
  pub socket : Text
  pub frame_limits : FrameLimits
  pub client_id : Option ClientId
  pub headers : Headers
  pub capabilities : Capabilities

pub record Bus : Type 0 where
  pub connection : Connection
  pub frame_limits : FrameLimits
  pub peer_id : PeerId
  pub capabilities : Capabilities

pub record NamespaceClaim : Type 0 where
  pub namespace : Namespace
  pub headers : Headers

pub record Subscription : Type 0 where
  pub channel : Channel
  pub filters : List HeaderFilter
