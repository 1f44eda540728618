-- ===== src/Protocol/Messages.antt =====
-- The texts of the codec's errors, `CodecError`'s and `NameError`'s `Display`.
use busd.Prelude.{ℕ, ◌+◌, ◌/◌, ◌%◌, ltb, [], ◌∷◌, ◌++◌, if◌then◌else◌, ◌≡◌, refl}
use busd.Protocol.Types.{
  Text, MessageId, NameError, missing_namespace_scheme, invalid, CodecError, truncated,
  invalid_magic, length_mismatch, frame_too_large, invalid_utf8, unsupported_version,
  unknown_frame_kind, reserved_flags, limit_exceeded, invalid_value, non_canonical, invalid_name,
}
use busd.Protocol.Bytes.{ascii}
use busd.Protocol.Display.{decimal}

abbrev pub name_error_text : NameError → Text
name_error_text missing_namespace_scheme = ascii "namespace must start with bus://"
name_error_text invalid =
    ascii "name must contain at most 255 visible ASCII characters except / and whitespace"

hex_digit : ℕ → ℕ
hex_digit d = if ltb d 10 then 48 + d else 87 + d

-- `{flags:#06x}` of a u16: four hexadecimal digits after `0x`.
unfoldable pub hex_word : ℕ → Text
unfolding hex_digit
hex_word n =
    b'0'
    ∷ b'x'
    ∷ hex_digit (n / 4096 % 16)
    ∷ hex_digit (n / 256 % 16)
    ∷ hex_digit (n / 16 % 16)
    ∷ hex_digit (n % 16)
    ∷ []

unfoldable pub codec_error_text : CodecError → Text
unfolding hex_word
codec_error_text truncated = ascii "truncated BUS/1 frame"
codec_error_text invalid_magic = ascii "invalid BUS/1 frame magic"
codec_error_text (unsupported_version version) =
    ascii "unsupported BUS/1 version " ++ decimal version
codec_error_text (unknown_frame_kind kind) = ascii "unknown BUS/1 frame kind " ++ decimal kind
codec_error_text (reserved_flags flags) = ascii "reserved BUS/1 flags are set: " ++ hex_word flags
codec_error_text length_mismatch = ascii "BUS/1 body length does not match packet length"
codec_error_text frame_too_large = ascii "BUS/1 frame exceeds configured size limit"
codec_error_text (limit_exceeded name) =
    ascii "BUS/1 " ++ (ascii name ++ ascii " exceeds configured limit")
codec_error_text (invalid_value name) = ascii "invalid BUS/1 " ++ ascii name
codec_error_text (non_canonical name) = ascii "non-canonical BUS/1 " ++ ascii name
codec_error_text (invalid_name error) = name_error_text error
codec_error_text invalid_utf8 = ascii "BUS/1 text is not valid UTF-8"

-- The bytes of an identifier, as `{:?}` lists an array.
unfoldable pub listed : MessageId → Text
listed [] = []
listed (b ∷ []) = decimal b
listed (b ∷ c ∷ bs) = decimal b ++ (ascii ", " ++ listed (c ∷ bs))

-- `{message_id:?}`
unfoldable pub message_id_text : MessageId → Text
unfolding listed
message_id_text id = ascii "MessageId([" ++ (listed id ++ ascii "])")

hex_word_test : hex_word 0xab ≡ ascii "0x00ab"
unfolding hex_word
hex_word_test = refl

message_id_text_test : message_id_text (7 ∷ 10 ∷ []) ≡ ascii "MessageId([7, 10])"
unfolding message_id_text decimal
message_id_text_test = refl
