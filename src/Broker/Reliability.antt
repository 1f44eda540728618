-- ===== src/Broker/Reliability.antt =====
-- Acknowledgement requirements, retry schedules and delivery sizes.
use busd.Prelude.{
  ℕ, ◌+◌, ◌-◌, ◌*◌, ◌^◌, min, Bool, true, false, not, Option, none, some, [], ◌∷◌, leb, ◌==◌,
  length, if◌then◌else◌,
}
use busd.Protocol.Types.{
  Headers, HeaderValue, text, unsigned, boolean, binary, AckPolicy, AckRequirement, RetryPolicy,
  Frame, message,
}

abbrev pub u64_max : ℕ
u64_max = 2 ^ 64 - 1

-- `saturating_add` and `saturating_mul` of u64, and of usize, which is as wide.
abbrev pub saturating_add : ℕ → ℕ → ℕ
saturating_add a b = min (a + b) u64_max

abbrev pub saturating_mul : ℕ → ℕ → ℕ
saturating_mul a b = min (a * b) u64_max

unfoldable pub requirement_possible : AckRequirement → ℕ → Bool
requirement_possible AckRequirement.none recipients = true
requirement_possible AckRequirement.any_of recipients = not (recipients == 0)
requirement_possible AckRequirement.all_of recipients = not (recipients == 0)
requirement_possible (AckRequirement.minimum n) recipients = leb n recipients

unfoldable pub requirement_met : AckRequirement → ℕ → ℕ → Bool
requirement_met AckRequirement.none acknowledgements recipients = true
requirement_met AckRequirement.any_of acknowledgements recipients = not (acknowledgements == 0)
requirement_met AckRequirement.all_of acknowledgements recipients = acknowledgements == recipients
requirement_met (AckRequirement.minimum n) acknowledgements recipients = leb n acknowledgements

unfoldable pub acknowledgement_satisfies : AckPolicy → AckPolicy → Bool
acknowledgement_satisfies AckPolicy.received AckPolicy.received = true
acknowledgement_satisfies AckPolicy.received AckPolicy.processed = true
acknowledgement_satisfies AckPolicy.processed AckPolicy.processed = true
acknowledgement_satisfies _ _ = false

-- `attempts` is a u8, and `saturating_sub(1)` is the subtraction of ℕ.
unfoldable pub retry_next : RetryPolicy → ℕ → ℕ → Option ℕ
retry_next RetryPolicy.none now_ms attempts = none
retry_next (RetryPolicy.exponential initial_backoff_ms max_attempts) now_ms attempts =
    if leb max_attempts attempts
    then some now_ms
    else (let shift = min (attempts - 1) 16 in
        let delay = min (saturating_mul initial_backoff_ms (2 ^ shift)) 60000 in
        some (saturating_add now_ms delay))

unfoldable pub value_bytes : HeaderValue → ℕ
value_bytes (text value) = length value
value_bytes (unsigned value) = 8
value_bytes (boolean value) = 1
value_bytes (binary value) = length value

unfoldable pub header_bytes : Headers → ℕ
unfolding value_bytes
header_bytes [] = 0
header_bytes ((name, value) ∷ headers) = length name + value_bytes value + header_bytes headers

unfoldable pub delivery_bytes : Frame → ℕ
unfolding header_bytes
delivery_bytes (message m) = saturating_add (length m.payload) (header_bytes m.headers)
delivery_bytes _ = 0

unfoldable pub payload_bytes : Frame → ℕ
payload_bytes (message m) = length m.payload
payload_bytes _ = 0
