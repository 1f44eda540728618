-- ===== src/Client/Log.antt =====
-- The calls of the transport that a client makes, in order.
use busd.Prelude.{◌≡◌, List, [], ◌∷◌, ◌++◌, ok, Result, Option, some, map}
use busd.Protocol.Types.{
  Text, PeerId, Frame, hello, welcome, control_result, FrameLimits, Bytes, ControlOperation,
}
use busd.Protocol.Encode.{encode_with_limits}
use busd.Protocol.Decode.{decode_with_limits}
use busd.Transport.{Connection, IoError}
use busd.Client.Transport.{Transport, ConnectOptions, Bus, NamespaceClaim, Subscription}
use busd.Client.Reconnect.{ReconnectingBus}

-- A call of the transport, with its answer.
pub data Logged : Type 0 where
  opened : Text → Result IoError Connection → Logged
  given : Connection → Bytes → Result IoError (Unit {0}) → Logged
  taken : Connection → Result IoError (Option Bytes) → Logged
  shut : Connection → Result IoError (Unit {0}) → Logged
  closed : Connection → Logged

abbrev pub Log : Type 0
Log = List Logged

-- The transport `t`, with the calls that were made of it, in order.
abbrev pub recorded : {S : Type 0} → Transport S → Transport (S × Log)
recorded t = record {
  connect = λ socket w. let r = t.connect socket w.0 in (r.0, (r.1, w.1 ++ opened socket r.0 ∷ []));
  send = λ c packet w. let r = t.send c packet w.0 in (r.0, (r.1, w.1 ++ given c packet r.0 ∷ []));
  receive = λ c maximum w. let r = t.receive c maximum w.0 in (r.0, (r.1, w.1 ++ taken c r.0 ∷ []));
  disconnect = λ c w. let r = t.disconnect c w.0 in (r.0, (r.1, w.1 ++ shut c r.0 ∷ []));
  close = λ c w. (t.close c w.0, w.1 ++ closed c ∷ []);
}

-- The log grows by controls, in order: the packet of each is sent on the connection, and then what is
-- received on it confirms the operation.
pub data Confirmed (limits : FrameLimits) (c : Connection)
    : List (Frame × ControlOperation) → Log → Log → Type 0 where
  nothing : {log : Log} → Confirmed limits c [] log log
  confirmed :
      {f : Frame} {operation : ControlOperation} {fs : List (Frame × ControlOperation)}
      {packet : Bytes} {log log' : Log} (reply : Bytes)
      → encode_with_limits f limits ≡ ok packet
      → decode_with_limits reply limits ≡ ok (control_result operation)
      → Confirmed limits c fs
          ((log ++ given c packet (ok tt) ∷ []) ++ taken c (ok (some reply)) ∷ [])
          log'
      → Confirmed limits c ((f, operation) ∷ fs) log log'

abbrev pub claim_control : NamespaceClaim → Frame × ControlOperation
claim_control claim = (Frame.claim claim.namespace claim.headers, ControlOperation.claim)

abbrev pub subscribe_control : Subscription → Frame × ControlOperation
subscribe_control subscription =
    (Frame.subscribe subscription.channel subscription.filters, ControlOperation.subscribe)

abbrev pub hello_frame : ConnectOptions → Frame
hello_frame options = hello options.client_id options.headers options.capabilities

-- The controls that restore a client, in order.
abbrev pub restoring : ReconnectingBus → List (Frame × ControlOperation)
restoring c = map claim_control c.claims ++ map subscribe_control c.subscriptions

-- The session of a new connection: what opened it and the exchange of HELLO and WELCOME.
pub record Greeted (options : ConnectOptions) (bus : Bus) (log log' : Log) : Type 0 where
  pub hello_packet : Bytes
  pub welcome_packet : Bytes
  pub said : encode_with_limits (hello_frame options) options.frame_limits ≡ ok hello_packet
  pub answered :
      decode_with_limits welcome_packet options.frame_limits
      ≡ ok (welcome bus.peer_id bus.capabilities)
  pub limits : bus.frame_limits ≡ options.frame_limits
  pub calls :
      log'
      ≡ ((log ++ opened options.socket (ok bus.connection) ∷ [])
          ++ given bus.connection hello_packet (ok tt) ∷ [])
        ++ taken bus.connection (ok (some welcome_packet)) ∷ []

-- The client that has reconnected, and the calls for that.
pub record Restored (c c' : ReconnectingBus) (log log' : Log) (id : PeerId) : Type 0 where
  pub kept : record c' { bus = c.bus } ≡ c
  pub peer_id : id ≡ c'.bus.peer_id
  pub greeted_log : Log
  pub restored_log : Log
  pub greeted : Greeted c.options c'.bus log greeted_log
  pub restored :
      Confirmed c.options.frame_limits c'.bus.connection (restoring c) greeted_log restored_log
  pub replaced : log' ≡ restored_log ++ closed c.bus.connection ∷ []
