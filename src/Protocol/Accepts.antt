-- ===== src/Protocol/Accepts.antt =====
-- What the decoder requires of a packet.
use busd.Prelude.{◌+◌, ◌≤◌, ◌≡◌, [], ◌∷◌, arith, ok, err, length, take, drop}
use busd.Order.{bytes_order, same→eq}
use busd.Protocol.Tags.{Codec}
use busd.Protocol.Types.{Bytes, Frame, FrameLimits}
use busd.Protocol.Bytes.{from_be}
use busd.Protocol.Encode.{magic, version, header_size}
use busd.Protocol.Decode.{decode_body, decode_with_limits, byte_at, finish}

-- `packet` is one frame `f`, whole: its header is right, its length field covers all the bytes that
-- follow the header, and the body is that of `f` to its last byte.
pub record IsWhole (limits : FrameLimits) (packet : Bytes) (f : Frame) : Type 0 where
  pub long_enough : header_size ≤ length packet
  pub within_limit : length packet ≤ limits.maximum_frame_size
  pub starts : take 4 packet ≡ magic
  pub version_byte : byte_at 4 packet ≡ version
  pub no_flags : from_be 0 (take 2 (drop 6 packet)) ≡ 0
  pub length_field : header_size + from_be 0 (take 4 (drop 8 packet)) ≡ length packet
  pub body : decode_body (byte_at 5 packet) limits (drop header_size packet) ≡ ok (f, [])

finish-ok : (r : Codec (Frame × Bytes)) (f : Frame) → finish r ≡ ok f → r ≡ ok (f, [])
unfolding finish
finish-ok (ok (g, [])) f h = cc
finish-ok (ok (g, b ∷ bs)) f h = cc
finish-ok (err e) f h = cc

-- A packet that the decoder accepts is one whole frame of at most the permitted size.
pub decode_with_limits-IsWhole :
    (packet : Bytes) (limits : FrameLimits) (f : Frame)
    → decode_with_limits packet limits ≡ ok f
    → IsWhole limits packet f
unfolding decode_with_limits
decode_with_limits-IsWhole packet limits f h = record {
  long_enough = ground arith;
  within_limit = ground arith;
  starts = same→eq (take 4 packet) magic (ground arith);
  version_byte = ground arith;
  no_flags = ground arith;
  length_field = ground arith;
  body = finish-ok _ f (ground arith);
}
