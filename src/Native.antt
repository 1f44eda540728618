-- ===== src/Native.antt =====
-- crates/bus-transport-unix/src/lib.rs: packets with file descriptors over the kernel's sockets.
use busd.Prelude.{
  ◌^◌, leb, ℕ, zero, suc, ◌+◌, ◌*◌, ◌-◌, ◌/◌, ◌%◌, Bool, true, false, not, ◌&&◌, ◌||◌, Option, none,
  some, List, [], ◌∷◌, ◌++◌, ltb, ◌==◌, length, take, drop, any, Result, ok, err, reject_if, ◌>>=◌,
  ◌>>◌, if◌then◌else◌, String,
}
use busd.Protocol.Types.{Bytes}
pub mod Sockets
pub mod Parcels
mod Examples

pub data NativeError : Type 0 where
  os_error : ℕ → NativeError
  invalid_input : String → NativeError
  invalid_data : String → NativeError
  write_zero already_exists overflow : NativeError

-- The machine's integers, the least byte first.
unfoldable pub to_le : ℕ → ℕ → Bytes
to_le zero n = []
to_le (suc width) n = (n % 256) ∷ to_le width (n / 256)

unfoldable pub from_le : Bytes → ℕ
from_le [] = 0
from_le (b ∷ bs) = b + 256 * from_le bs

abbrev pub maximum_file_descriptors : ℕ
maximum_file_descriptors = 16

-- The bytes of a `ControlMessageHeader`, where usize has eight.
abbrev pub header_size : ℕ
header_size = 16

abbrev pub cmsg_align : ℕ → ℕ
cmsg_align n = (n + 7) / 8 * 8

abbrev pub cmsg_space : ℕ → ℕ
cmsg_space n = cmsg_align header_size + cmsg_align n

abbrev pub cmsg_len : ℕ → ℕ
cmsg_len n = header_size + n

unfoldable pub write_descriptors : List ℕ → Bytes
unfolding to_le
write_descriptors [] = []
write_descriptors (descriptor ∷ rest) = to_le 4 descriptor ++ write_descriptors rest

unfoldable pub zeros : ℕ → Bytes
zeros zero = []
zeros (suc n) = 0 ∷ zeros n

-- SOL_SOCKET and SCM_RIGHTS are both 1.
unfoldable pub control_message : List ℕ → Bytes
unfolding write_descriptors zeros
control_message descriptors =
    let size = 4 * length descriptors in
    to_le 8 (cmsg_len size)
    ++ to_le 4 1
    ++ to_le 4 1
    ++ write_descriptors descriptors
    ++ zeros (cmsg_space size - cmsg_len size)

abbrev pub validate_packet : Bytes → Result NativeError (Unit {0})
validate_packet packet =
    reject_if (length packet == 0) (invalid_input "native packets must not be empty")

-- What a system call writes: an error for a negative number.
abbrev pub check_packet_write : Result NativeError ℕ → ℕ → Result NativeError (Unit {0})
check_packet_write (err e) expected = err e
check_packet_write (ok written) expected = reject_if (not (written == expected)) write_zero

-- What `recvmsg` writes: the number that it returns, the buffers up to what it filled, and whether
-- MSG_CTRUNC is among the flags.
pub record Received : Type 0 where
  pub count : ℕ
  pub data_bytes : Bytes
  pub control : Bytes
  pub control_truncated : Bool

-- The kernel's answers for one connection.
pub record Kernel : Type 0 where
  pub send : Bytes → Result NativeError ℕ
  pub sendmsg : Bytes → Bytes → Result NativeError ℕ
  pub recvmsg : ℕ → ℕ → Result NativeError Received

unfoldable pub send_packet : Kernel → Bytes → Result NativeError (Unit {0})
send_packet kernel packet = do
  validate_packet packet
  check_packet_write (kernel.send packet) (length packet)

unfoldable pub send_packet_with_fds : Kernel → Bytes → List ℕ → Result NativeError (Unit {0})
unfolding send_packet control_message
send_packet_with_fds kernel packet descriptors = do
  validate_packet packet
  reject_if (ltb maximum_file_descriptors (length descriptors))
      (invalid_input "too many file descriptors in native packet")
  (if length descriptors == 0
      then send_packet kernel packet
      else check_packet_write (kernel.sendmsg packet (control_message descriptors)) (length packet))

unfoldable pub read_descriptors : ℕ → Bytes → List ℕ
unfolding from_le
read_descriptors zero bs = []
read_descriptors (suc n) bs = from_le (take 4 bs) ∷ read_descriptors n (drop 4 bs)

-- The fields of the header that the bytes begin with.
abbrev pub header_length : Bytes → ℕ
header_length bs = from_le (take 8 bs)

abbrev pub is_rights : Bytes → Bool
is_rights bs = from_le (take 4 (drop 8 bs)) == 1 && from_le (take 4 (drop 12 bs)) == 1

abbrev pub body_size : Bytes → ℕ
body_size bs = header_length bs - cmsg_len 0

abbrev pub append_to : List ℕ → Result NativeError (List ℕ) → Result NativeError (List ℕ)
append_to here (ok later) = ok (here ++ later)
append_to here (err e) = err e

abbrev pub message_descriptors : Bytes → List ℕ
message_descriptors bs =
    if is_rights bs then read_descriptors (body_size bs / 4) (drop header_size bs) else []

-- The loop of `parse_descriptors` over what is left of the control data from an offset on. As every
-- header is counted with sixteen bytes or more, as many rounds as bytes are enough. `overflow` is the
-- panic of a build that checks arithmetic, where a length exceeds usize with the offset; a build that
-- does not goes on with the sum modulo 2 ^ 64 and reads beyond the buffer. The kernel writes no such
-- length.
unfoldable pub parse_messages : ℕ → ℕ → Bytes → Result NativeError (List ℕ)
unfolding read_descriptors
parse_messages zero offset bs = ok []
parse_messages (suc fuel) offset bs =
    let step = cmsg_align (header_length bs) in
    let later = parse_messages fuel (offset + step) (drop step bs) in
    if ltb (length bs) header_size
    then ok []
    else if ltb (header_length bs) (cmsg_len 0)
    then err (invalid_data "native packet contains malformed control data")
    else if leb (2 ^ 64) (offset + header_length bs)
    then err overflow
    else if ltb (length bs) (header_length bs)
    then err (invalid_data "native packet contains malformed control data")
    else if is_rights bs && not (body_size bs % 4 == 0)
    then err (invalid_data "native packet contains malformed file descriptors")
    else append_to (message_descriptors bs) later

unfoldable pub parse_descriptors : Bytes → Result NativeError (List ℕ)
unfolding parse_messages
parse_descriptors control = parse_messages (suc (length control)) 0 control

-- The checks of what `recvmsg` gave.
unfoldable pub checked_packet : ℕ → ℕ → Received → Result NativeError (Option (Bytes × List ℕ))
unfolding parse_descriptors
checked_packet maximum_size maximum_descriptors received =
    if received.count == 0 then ok none else (do
      reject_if (ltb maximum_size received.count)
          (invalid_data "native packet exceeds the configured maximum size")
      reject_if received.control_truncated
          (invalid_data "native packet contains too many file descriptors")
      descriptors ← parse_descriptors received.control
      reject_if (ltb maximum_descriptors (length descriptors))
          (invalid_data "native packet contains too many file descriptors")
      ok (some (take received.count received.data_bytes, descriptors)))

unfoldable pub receive_packet_with_fds :
    Kernel → ℕ → ℕ → Result NativeError (Option (Bytes × List ℕ))
unfolding checked_packet
receive_packet_with_fds kernel maximum_size maximum_descriptors = do
  reject_if (ltb maximum_file_descriptors maximum_descriptors)
      (invalid_input "configured descriptor limit exceeds native transport limit")
  reject_if (maximum_size == 0) (invalid_input "maximum packet size must be non-zero")
  received ← kernel.recvmsg maximum_size (cmsg_space (4 * maximum_descriptors))
  checked_packet maximum_size maximum_descriptors received

abbrev without_descriptors : Option (Bytes × List ℕ) → Result NativeError (Option Bytes)
without_descriptors none = ok none
without_descriptors (some (packet, [])) = ok (some packet)
without_descriptors (some (packet, (d ∷ ds))) =
    err (invalid_data "native packet unexpectedly contains file descriptors")

unfoldable pub receive_packet : Kernel → ℕ → Result NativeError (Option Bytes)
unfolding receive_packet_with_fds
receive_packet kernel maximum_size = do
  got ← receive_packet_with_fds kernel maximum_size 0
  without_descriptors got
