-- ===== src/Transport.antt =====
-- `io::Result` over a state, and the sockets that the daemon sends through.
use busd.Prelude.{ℕ, Bool, true, false, List, [], ◌∷◌, ◌++◌, Result, ok, err}
use busd.Protocol.Types.{Bytes, CodecError}
use busd.Action.{Action, map_err}
use busd.Broker.Types.{Error}
pub use busd.Action.{pure, fail, lift, continue, ◌>>=◌, ◌>>◌}

-- `io::Error` by its kind, with the error that it wraps.
pub data IoError : Type 0 where
  broken_pipe connection_reset invalid_input other : IoError
  invalid_data : CodecError → IoError
  broker : Error → IoError

abbrev pub Io {ℓ κ} : Type ℓ → Type κ → Type (ℓ ⊔ κ)
Io S A = Action S IoError A

-- `map_err(codec_io_error)`
abbrev pub codec_io {ℓ} : {A : Type ℓ} → Result CodecError A → Result IoError A
codec_io r = map_err invalid_data r

abbrev pub Connection : Type 0
Connection = ℕ

-- The packets sent so far, in order, each with its connection.
abbrev pub Sent : Type 0
Sent = List (Connection × Bytes)

-- What the kernel answers to `send` and `dup` on a connection, which may depend on all that was sent.
pub record Sockets : Type 0 where
  pub send : Sent → Connection → Bytes → Result IoError (Unit {0})
  pub clone : Sent → Connection → Result IoError (Unit {0})

abbrev logged : Connection → Bytes → Result IoError (Unit {0}) → Sent → Sent
logged connection packet (ok u) sent = sent ++ (connection, packet) ∷ []
logged connection packet (err e) sent = sent

-- `send_packet`: a packet that the kernel takes is sent whole.
unfoldable pub send_packet : Sockets → Connection → Bytes → Io Sent (Unit {0})
send_packet sockets connection packet sent =
    let answer = sockets.send sent connection packet in
    (answer, logged connection packet answer sent)

-- The kinds of error that say the other side is gone.
abbrev pub is_gone : IoError → Bool
is_gone broken_pipe = true
is_gone connection_reset = true
is_gone _ = false
