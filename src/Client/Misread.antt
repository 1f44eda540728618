-- ===== src/Client/Misread.antt =====
-- A message that arrives while a client waits for the answer to a control operation.
use busd.Prelude.{◌≡◌, refl, List, ◌∷◌, arith, ok, err}
use busd.Order.{bytes_order}
use busd.Protocol.Types.{Bytes, Message, Frame, message, control_result, ControlOperation}
use busd.Protocol.Encode.{encode_with_limits}
use busd.Protocol.Decode.{decode_with_limits}
use busd.Client.Transport.{handshake, Bus}
use busd.Client.Bus.{send_control, send_frame, receive_frame, same_operation_refl}
use busd.Client.Await.{inbox}

-- When a message is received before the answer to a control operation, the operation returns an
-- error although the broker confirms it, the message is lost, and the confirmation is taken for the
-- answer to the client's next operation of that kind, whatever it is about.
pub send_control_misread :
    (bus : Bus) (f g : Frame) (operation : ControlOperation) (m : Message)
    (f_packet g_packet delivered answer : Bytes) (rest : List Bytes)
    → encode_with_limits f bus.frame_limits ≡ ok f_packet
    → encode_with_limits g bus.frame_limits ≡ ok g_packet
    → decode_with_limits delivered bus.frame_limits ≡ ok (message m)
    → decode_with_limits answer bus.frame_limits ≡ ok (control_result operation)
    → let first = send_control inbox bus f operation (delivered ∷ answer ∷ rest) in
      (first.0 ≡ err (handshake "broker sent an unexpected control frame"))
      × (send_control inbox bus g operation first.1 ≡ (ok tt, rest))
unfolding send_control send_frame receive_frame
send_control_misread bus f g operation m fp gp p q rest e e' d d' =
    rw (e, e', d, d', same_operation_refl operation) (refl, ground arith)
