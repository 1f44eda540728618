-- ===== src/Daemon/Codes.antt =====
-- `broker_error_code` and `codec_error_code`.
use busd.Protocol.Types.{
  ProtocolErrorCode, CodecError, unsupported_version, unknown_frame_kind, frame_too_large,
  limit_exceeded, non_canonical, reserved_flags,
}
use busd.Broker.Types.{Error}

abbrev pub broker_error_code : Error → ProtocolErrorCode
broker_error_code Error.no_recipient = ProtocolErrorCode.no_recipient
broker_error_code (Error.limit_exceeded limit) = ProtocolErrorCode.limit_exceeded
broker_error_code _ = ProtocolErrorCode.invalid_state

abbrev pub codec_error_code : CodecError → ProtocolErrorCode
codec_error_code (unsupported_version version) = ProtocolErrorCode.unsupported_version
codec_error_code (unknown_frame_kind kind) = ProtocolErrorCode.unknown_frame_kind
codec_error_code frame_too_large = ProtocolErrorCode.limit_exceeded
codec_error_code (limit_exceeded name) = ProtocolErrorCode.limit_exceeded
codec_error_code (non_canonical name) = ProtocolErrorCode.non_canonical
codec_error_code (reserved_flags flags) = ProtocolErrorCode.non_canonical
codec_error_code _ = ProtocolErrorCode.malformed_frame
