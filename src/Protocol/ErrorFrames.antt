-- ===== src/Protocol/ErrorFrames.antt =====
-- What the packets of protocol errors decode to.
use busd.Prelude.{◌≡◌, [], ok, arith, Result-cases, inl, inr}
use busd.Order.{bytes_order}
use busd.Protocol.Types.{Bytes, Text, Frame, protocol_error, ProtocolErrorCode, FrameLimits}
use busd.Protocol.Bytes.{to_be}
use busd.Protocol.Tags.{decode_protocol_error_code}
use busd.Protocol.Reader.{Reader, ◌>>=◌, lift, read_u8, read_text}
use busd.Protocol.Encode.{encode_with_limits}
use busd.Protocol.Decode.{decode_with_limits, decode_protocol_error, decode_body}
use busd.Protocol.Accepts.{decode_with_limits-IsWhole}
use busd.Protocol.RoundTrip.Packets.{encode_parts}

-- Whatever frame the reader returns is a protocol error.
abbrev pub IsErrorFrame : Frame → Type 0
IsErrorFrame f =
    (code : ProtocolErrorCode) × (diagnostic : Text) × (f ≡ protocol_error code diagnostic)

abbrev YieldsError : Reader Frame → Type 0
YieldsError m = (bs : Bytes) (f : Frame) (rest : Bytes) → m bs ≡ ok (f, rest) → IsErrorFrame f

bind-YieldsError :
    {A : Type 0} (m : Reader A) (g : A → Reader Frame)
    → ((a : A) → YieldsError (g a))
    → YieldsError (m >>= g)
bind-YieldsError m g h bs f rest e = elim (Result-cases (m bs)) [
  | inl ((a, more), p) ↦ h a more f rest (ground arith)
  | inr (x, p) ↦ absurd (ground arith)
]

decode_protocol_error-YieldsError : YieldsError decode_protocol_error
unfolding decode_protocol_error
decode_protocol_error-YieldsError = bind-YieldsError read_u8 _ λ tag.
    bind-YieldsError (lift (decode_protocol_error_code tag)) _ λ code.
      bind-YieldsError read_text _ λ diagnostic bs f rest e. (code, diagnostic, ground arith)

-- What the packet of a protocol error decodes to, whatever its text.
pub decode_error_packet :
    (code : ProtocolErrorCode) (diagnostic : Text) (limits : FrameLimits) (packet : Bytes)
    (f : Frame)
    → encode_with_limits (protocol_error code diagnostic) limits ≡ ok packet
    → decode_with_limits packet limits ≡ ok f
    → IsErrorFrame f
unfolding decode_protocol_error decode_body to_be
decode_error_packet code diagnostic limits packet f e d =
    let (body, b, p, fits, small) = encode_parts (protocol_error code diagnostic) limits packet e in
    let w = decode_with_limits-IsWhole packet limits f d in
    decode_protocol_error-YieldsError body f [] (rw p at w.body)
