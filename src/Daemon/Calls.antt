-- ===== src/Daemon/Calls.antt =====
-- The three control operations of `Bus` against the operations of the broker that they stand for.
use busd.Prelude.{◌≡◌, refl, List, [], Result, ok, err}
use busd.Order.{nat_order, bytes_order}
use busd.Protocol.Types.{PeerId, Namespace, Channel, HeaderFilter, Frame, ControlOperation}
use busd.Broker.Types.{Error}
use busd.Broker.Exec.{Exec}
use busd.Action.{Action}
use busd.Client.Transport.{Transport, Bus, Error as ClientError}
use busd.Daemon.Session.{control_reply, answer}
use busd.Broker.Registry as Registry
use busd.Client.Bus as Bus

pub data ControlCall : Type 0 where
  claim : Namespace → ControlCall
  subscribe : Channel → List HeaderFilter → ControlCall
  unsubscribe : Channel → ControlCall

abbrev pub call_frame : ControlCall → Frame
call_frame (claim namespace) = Frame.claim namespace []
call_frame (subscribe channel filters) = Frame.subscribe channel filters
call_frame (unsubscribe channel) = Frame.unsubscribe channel

-- The client's method, and the broker's.
abbrev pub client_call :
    {S : Type 0} → Transport S → Bus → ControlCall → Action S ClientError (Unit {0})
client_call t bus (claim namespace) = Bus.claim t bus namespace
client_call t bus (subscribe channel filters) = Bus.subscribe t bus channel filters
client_call t bus (unsubscribe channel) = Bus.unsubscribe t bus channel

abbrev pub broker_call : PeerId → ControlCall → Exec (Unit {0})
broker_call id (claim namespace) = Registry.claim id namespace
broker_call id (subscribe channel filters) = Registry.subscribe_with_filters id channel filters
broker_call id (unsubscribe channel) = Registry.unsubscribe id channel

pub control_reply-answer :
    (operation : ControlOperation) (r : Result Error (Unit {0}))
    → (frame : Frame) × (control_reply operation r ≡ answer frame)
control_reply-answer operation (ok u) = (_, refl)
control_reply-answer operation (err e) = (_, refl)
