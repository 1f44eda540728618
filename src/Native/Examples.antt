-- ===== src/Native/Examples.antt =====
-- Packets with descriptors.
use busd.Prelude.{map, ◌+◌, ◌++◌, err, arith, ℕ, ◌≡◌, refl, [], ◌∷◌, ok, some, List, length}
use busd.Protocol.Types.{Bytes}
use busd.Protocol.Bytes.{ascii}
use busd.Native.{
  overflow, send_packet_with_fds, Kernel, control_message, parse_descriptors,
  receive_packet_with_fds,
}
use busd.Native.Parcels.{carried, receive-send_packet_with_fds}

parse_descriptors_test :
    parse_descriptors (control_message (7 ∷ 300 ∷ 70000 ∷ [])) ≡ ok (7 ∷ 300 ∷ 70000 ∷ [])
unfolding parse_descriptors control_message
parse_descriptors_test = refl

abbrev handles : List ℕ
handles = 7 ∷ 300 ∷ []

abbrev greeting : Bytes
greeting = ascii "fd"

-- The receiver's kernel installs the descriptors under other numbers.
abbrev install : ℕ → ℕ
install d = d + 1

abbrev quiet_kernel : Kernel
quiet_kernel = record {
  send = λ packet. ok (length packet);
  sendmsg = λ packet control. ok (length packet);
  recvmsg = λ size space. ok (carried greeting (map install handles));
}

receive-send_packet_with_fds_example :
    (send_packet_with_fds quiet_kernel greeting handles ≡ ok tt)
    × (receive_packet_with_fds quiet_kernel 64 4 ≡ ok (some (greeting, 8 ∷ 301 ∷ [])))
receive-send_packet_with_fds_example =
    receive-send_packet_with_fds quiet_kernel quiet_kernel install greeting handles 64 4
      (omega arith) (omega arith) (omega arith) (omega arith) (omega arith)
      (omega arith, (omega arith, tt)) refl refl

-- The second of two messages has a length that exceeds usize with its offset.
overflow_test :
    parse_descriptors (
      control_message (1 ∷ 2 ∷ [])
      ++ (255 ∷ 255 ∷ 255 ∷ 255 ∷ 255 ∷ 255 ∷ 255 ∷ 255 ∷ 1 ∷ 0 ∷ 0 ∷ 0 ∷ 1 ∷ 0 ∷ 0 ∷ 0 ∷ []))
    ≡ err overflow
unfolding parse_descriptors control_message
overflow_test = refl
