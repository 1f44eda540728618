-- ===== src/Protocol/RoundTrip/Packets.antt =====
-- Whole packets: `decode_with_limits` after `encode_with_limits`.
use busd.Prelude.{ℕ, ◌+◌, ◌<◌, ◌≤◌, ◌≡◌, [], ok, arith, length, Result-cases, inl, inr, append-nil}
use busd.Order.{bytes_order}
use busd.Protocol.Types.{Bytes, Frame, FrameLimits}
use busd.Protocol.Bytes.{to_be, from_be}
use busd.Protocol.Limits.{IsFrame}
use busd.Protocol.Encode.{encode_body, frame_kind, packet_of, encode_with_limits, header_size}
use busd.Protocol.Decode.{decode_body, decode_with_limits}
use busd.Protocol.RoundTrip.Scalars.{from_be-to_be}
use busd.Protocol.RoundTrip.Frames.{body-Reads}

-- What a successful encoding says of the body.
pub encode_parts :
    (f : Frame) (limits : FrameLimits) (packet : Bytes)
    → encode_with_limits f limits ≡ ok packet
    → (body : Bytes) × (encode_body f limits ≡ ok body)
      × (packet ≡ packet_of (frame_kind f) body)
      × (header_size + length body ≤ limits.maximum_frame_size)
      × (length body < 4294967296)
unfolding encode_with_limits
encode_parts f limits packet h = elim (Result-cases (encode_body f limits)) [
  | inr (e, p) ↦ absurd (ground arith)
  | inl (body, p) ↦ (body, p, ground arith, ground arith, ground arith)
]

-- The header fields of a packet, and the body behind them.
decode_packet :
    (kind : ℕ) (body : Bytes) (limits : FrameLimits) (f : Frame)
    → length body < 4294967296
    → header_size + length body ≤ limits.maximum_frame_size
    → decode_body kind limits body ≡ ok (f, [])
    → decode_with_limits (packet_of kind body) limits ≡ ok f
unfolding decode_with_limits to_be from_be
decode_packet kind body limits f small fits h =
    ground (arith, from_be-to_be 4 (length body) (omega arith))

-- Decoding gives back every frame that was encoded, under the same limits, if the frame is as Rust's
-- types have it (`IsFrame`).
pub decode-encode :
    (f : Frame) (limits : FrameLimits) (packet : Bytes)
    → IsFrame f
    → encode_with_limits f limits ≡ ok packet
    → decode_with_limits packet limits ≡ ok f
decode-encode f limits packet h e =
    let (body, b, p, fits, small) = encode_parts f limits packet e in
    rw p (
      decode_packet (frame_kind f) body limits f small fits
        (rw (append-nil body) at ((body-Reads f limits h).at body b [])))
