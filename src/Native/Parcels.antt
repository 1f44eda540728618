-- ===== src/Native/Parcels.antt =====
-- What one side sends with `send_packet_with_fds` the other side receives.
use busd.Prelude.{
  if◌then◌else◌, map, leb, ◌^◌, Bool-cases, inl, inr, append-nil, arith, ℕ, zero, suc, ◌+◌, ◌*◌,
  ◌-◌, ◌/◌, ◌%◌, ◌<◌, ◌≤◌, ◌≡◌, refl, ap, ◌∙◌, true, false, not, List, [], ◌∷◌, ◌++◌, All, length,
  length-append, take, drop, ltb, ◌==◌, ok, some, ◌&&◌,
}
use busd.Protocol.Types.{Bytes}
use busd.Native.{
  Kernel, Received, to_le, from_le, write_descriptors, read_descriptors, zeros, control_message,
  header_length, body_size, is_rights, message_descriptors, append_to, parse_messages,
  parse_descriptors, checked_packet, receive_packet_with_fds, send_packet_with_fds, cmsg_align,
  cmsg_space, cmsg_len,
}

-- A file descriptor as the bits of an i32.
abbrev pub IsDescriptor : ℕ → Type 0
IsDescriptor d = d < 4294967296

from_le-to_le4 : (n : ℕ) → n < 4294967296 → from_le (to_le 4 n) ≡ n
unfolding from_le to_le
from_le-to_le4 n h = omega arith

from_le-to_le8 : (n : ℕ) → n < 18446744073709551616 → from_le (to_le 8 n) ≡ n
unfolding from_le to_le
from_le-to_le8 n h = omega arith

read_descriptors-write :
    (ds : List ℕ)
    → (rest : Bytes) → All IsDescriptor ds
    → read_descriptors (length ds) (write_descriptors ds ++ rest) ≡ ds
unfolding read_descriptors write_descriptors to_le from_le
read_descriptors-write [] rest h = refl
read_descriptors-write (d ∷ ds) rest h =
    rw (read_descriptors-write ds rest h.1) (ap (λ x. x ∷ ds) (from_le-to_le4 d h.0))

length-write : (ds : List ℕ) → length (write_descriptors ds) ≡ 4 * length ds
unfolding write_descriptors to_le
length-write [] = refl
length-write (d ∷ ds) = omega (arith, length-write ds)

length-zeros : (n : ℕ) → length (zeros n) ≡ n
unfolding zeros
length-zeros zero = refl
length-zeros (suc n) = ap suc (length-zeros n)

drop_all : (bs : Bytes) → (n : ℕ) → length bs ≤ n → drop n bs ≡ []
drop_all [] zero h = refl
drop_all [] (suc n) h = refl
drop_all (b ∷ bs) zero h = absurd (omega arith)
drop_all (b ∷ bs) (suc n) h = drop_all bs n (omega arith)

-- What follows the header of a message.
abbrev body : List ℕ → Bytes
body ds = write_descriptors ds ++ zeros (cmsg_space (4 * length ds) - cmsg_len (4 * length ds))

length-body : (ds : List ℕ) → 16 + length (body ds) ≡ cmsg_align (cmsg_len (4 * length ds))
length-body ds =
    let z = length-zeros (cmsg_space (4 * length ds) - cmsg_len (4 * length ds)) in
    omega (
      arith,
      length-append (write_descriptors ds)
          (zeros (cmsg_space (4 * length ds) - cmsg_len (4 * length ds))),
      length-write ds,
      z,
    )

parse_messages_nil : (fuel offset : ℕ) → parse_messages fuel offset [] ≡ ok []
unfolding parse_messages
parse_messages_nil zero offset = refl
parse_messages_nil (suc fuel) offset = refl

parse_messages_step :
    (fuel offset : ℕ) (bs : Bytes)
    → ltb (length bs) 16 ≡ false
    → ltb (header_length bs) 16 ≡ false
    → leb (2 ^ 64) (offset + header_length bs) ≡ false
    → ltb (length bs) (header_length bs) ≡ false
    → (is_rights bs && not (body_size bs % 4 == 0)) ≡ false
    → parse_messages (suc fuel) offset bs
      ≡ append_to (message_descriptors bs) (
          parse_messages fuel
            (offset + cmsg_align (header_length bs))
            (drop (cmsg_align (header_length bs)) bs))
unfolding parse_messages
parse_messages_step fuel offset bs h k o m l = rw (h, k, o, m, l) refl

append_nothing : (ds : List ℕ) → append_to ds (ok []) ≡ ok ds
append_nothing ds = ap ok (append-nil ds)

module _ (ds : List ℕ) (few : length ds ≤ 16) where
  header_length-control : header_length (control_message ds) ≡ 16 + 4 * length ds
  unfolding control_message to_le
  header_length-control = from_le-to_le8 (16 + 4 * length ds) (omega arith)

  is_rights-control : is_rights (control_message ds) ≡ true
  unfolding control_message to_le from_le
  is_rights-control = refl

  length-control : length (control_message ds) ≡ cmsg_align (16 + 4 * length ds)
  unfolding control_message to_le
  length-control = omega (arith, length-body ds)

  body_size-control : body_size (control_message ds) ≡ 4 * length ds
  body_size-control = omega (arith, header_length-control)

  body-control : drop 16 (control_message ds) ≡ body ds
  unfolding control_message to_le
  body-control = refl

  message_descriptors-control : All IsDescriptor ds → message_descriptors (control_message ds) ≡ ds
  message_descriptors-control h =
      let count : body_size (control_message ds) / 4 ≡ length ds =
        omega (arith, body_size-control) in
      rw (is_rights-control, count, body-control) (read_descriptors-write ds _ h)

  drop-control : drop (cmsg_align (header_length (control_message ds))) (control_message ds) ≡ []
  drop-control =
      drop_all (control_message ds) (cmsg_align (header_length (control_message ds)))
        (omega (arith, length-control, header_length-control))

  pub parse_descriptors-control :
      All IsDescriptor ds → parse_descriptors (control_message ds) ≡ ok ds
  unfolding parse_descriptors
  parse_descriptors-control h =
      let control = control_message ds in
      let step =
        parse_messages_step (length control) 0 control (ground (arith, length-control))
          (ground (arith, header_length-control)) (ground (arith, header_length-control))
          (ground (arith, length-control, header_length-control))
          (ground (arith, body_size-control)) in
      let rest : parse_messages (length control) (0 + cmsg_align (header_length control))
            (drop (cmsg_align (header_length control)) control)
          ≡ ok [] =
        rw drop-control (parse_messages_nil (length control) _) in
      step ∙ rw (rest, message_descriptors-control h) (append_nothing ds)

-- The control data of descriptors as cmsg(3) and unix(7) describe it, on a little-endian machine of 64
-- bits: a length of eight bytes, SOL_SOCKET and SCM_RIGHTS, which are both 1, the descriptors as
-- integers of four bytes, and padding to a multiple of eight.
abbrev pub word : ℕ → ℕ → Bytes
word zero n = []
word (suc width) n = (n % 256) ∷ word width (n / 256)

abbrev pub integers : List ℕ → Bytes
integers [] = []
integers (d ∷ ds) = word 4 d ++ integers ds

abbrev pub padding : List ℕ → Bytes
padding ds = if length ds % 2 == 0 then [] else 0 ∷ 0 ∷ 0 ∷ 0 ∷ []

abbrev pub rights_message : List ℕ → Bytes
rights_message ds = word 8 (16 + 4 * length ds) ++ word 4 1 ++ word 4 1 ++ integers ds ++ padding ds

write_descriptors-integers : (ds : List ℕ) → write_descriptors ds ≡ integers ds
unfolding write_descriptors to_le
write_descriptors-integers [] = refl
write_descriptors-integers (d ∷ ds) = rw (write_descriptors-integers ds) refl

zeros-padding :
    (ds : List ℕ) → zeros (cmsg_space (4 * length ds) - cmsg_len (4 * length ds)) ≡ padding ds
unfolding zeros
zeros-padding ds = elim (Bool-cases (length ds % 2 == 0)) [
  | inl e ↦
      let n : cmsg_space (4 * length ds) - cmsg_len (4 * length ds) ≡ 0 = ground arith in
      rw (n, e) refl
  | inr e ↦
      let n : cmsg_space (4 * length ds) - cmsg_len (4 * length ds) ≡ 4 = ground arith in
      rw (n, e) refl
]

control_message-rights : (ds : List ℕ) → control_message ds ≡ rights_message ds
unfolding control_message to_le
control_message-rights ds = rw (write_descriptors-integers ds, zeros-padding ds) refl

length-map : (f : ℕ → ℕ) (l : List ℕ) → length (map f l) ≡ length l
length-map f [] = refl
length-map f (x ∷ l) = ap suc (length-map f l)

take_all : (bs : Bytes) → take (length bs) bs ≡ bs
take_all [] = refl
take_all (b ∷ bs) = ap (λ t. b ∷ t) (take_all bs)

-- What the kernel gives of a packet with descriptors, when it fits. They have the numbers that they
-- get in the receiver.
abbrev pub carried : Bytes → List ℕ → Received
carried packet descriptors = record {
  count = length packet;
  data_bytes = packet;
  control = rights_message descriptors;
  control_truncated = false;
}

checked_packet-carried :
    (packet : Bytes) (descriptors : List ℕ) (maximum_size maximum_descriptors : ℕ)
    → 0 < length packet
    → length packet ≤ maximum_size
    → length descriptors ≤ maximum_descriptors
    → maximum_descriptors ≤ 16
    → All IsDescriptor descriptors
    → checked_packet maximum_size maximum_descriptors (carried packet descriptors)
      ≡ ok (some (packet, descriptors))
unfolding checked_packet
checked_packet-carried packet ds m k some_bytes fits few most h =
    let empty : (length packet == 0) ≡ false = ground arith in
    let large : ltb m (length packet) ≡ false = ground arith in
    let many : ltb k (length ds) ≡ false = ground arith in
    let parsed : parse_descriptors (rights_message ds) ≡ ok ds =
      rw (control_message-rights ds) at (parse_descriptors-control ds (omega arith) h) in
    rw (empty, large, parsed, many, take_all packet) refl

send_packet_with_fds-carried :
    (kernel : Kernel) (packet : Bytes) (descriptors : List ℕ)
    → 0 < length packet
    → 0 < length descriptors
    → length descriptors ≤ 16
    → kernel.sendmsg packet (rights_message descriptors) ≡ ok (length packet)
    → send_packet_with_fds kernel packet descriptors ≡ ok tt
unfolding send_packet_with_fds
send_packet_with_fds-carried kernel packet ds some_bytes present few sent =
    let empty : (length packet == 0) ≡ false = ground arith in
    let many : ltb 16 (length ds) ≡ false = ground arith in
    let bare : (length ds == 0) ≡ false = ground arith in
    let whole : (length packet == length packet) ≡ true = ground arith in
    rw (empty, many, bare, control_message-rights ds, sent, whole) refl

-- A packet that is not empty is sent with descriptors, and received with as many: where the sender's
-- kernel takes the packet and the control data of SCM_RIGHTS for the descriptors, and the receiver's
-- kernel gives it the packet and the control data for the numbers that it has installed them under,
-- and the packet and the number of descriptors are within the receiver's limits. The receiver's buffer
-- for control data has a header of sixteen bytes and four for each descriptor that it takes, in
-- multiples of eight.
pub receive-send_packet_with_fds :
    (sender receiver : Kernel) (install : ℕ → ℕ) (packet : Bytes) (descriptors : List ℕ)
    (maximum_size maximum_descriptors : ℕ)
    → 0 < length packet
    → length packet ≤ maximum_size
    → 0 < length descriptors
    → length descriptors ≤ maximum_descriptors
    → maximum_descriptors ≤ 16
    → All IsDescriptor (map install descriptors)
    → sender.sendmsg packet (rights_message descriptors) ≡ ok (length packet)
    → receiver.recvmsg maximum_size (16 + (4 * maximum_descriptors + 7) / 8 * 8)
      ≡ ok (carried packet (map install descriptors))
    → (send_packet_with_fds sender packet descriptors ≡ ok tt)
      × (receive_packet_with_fds receiver maximum_size maximum_descriptors
          ≡ ok (some (packet, map install descriptors)))
unfolding receive_packet_with_fds
receive-send_packet_with_fds sender receiver install packet ds m k some_bytes fits present few most
      h sent given =
    let limit : ltb 16 k ≡ false = ground arith in
    let nonzero : (m == 0) ≡ false = ground arith in
    let as_few : length (map install ds) ≤ k = omega (arith, length-map install ds) in
    (
      send_packet_with_fds-carried sender packet ds some_bytes present (omega arith) sent,
      rw (limit, nonzero, given)
          (checked_packet-carried packet (map install ds) m k some_bytes fits as_few most h),
    )

length-drop : (n : ℕ) → (bs : Bytes) → length (drop n bs) ≡ length bs - n
length-drop zero bs = omega arith
length-drop (suc n) [] = omega arith
length-drop (suc n) (b ∷ bs) = omega (arith, length-drop n bs)

-- Rounds beyond the number of bytes change nothing, so that `parse_descriptors` reads to the end.
parse_messages_enough :
    (f g offset : ℕ) (bs : Bytes)
    → length bs < f
    → length bs < g
    → parse_messages f offset bs ≡ parse_messages g offset bs
unfolding parse_messages
parse_messages_enough zero g offset bs h k = absurd (omega arith)
parse_messages_enough (suc f) zero offset bs h k = absurd (omega arith)
parse_messages_enough (suc f) (suc g) offset bs h k = elim (Bool-cases (ltb (length bs) 16)) [
  | inl e ↦ rw e refl
  | inr e ↦ elim (Bool-cases (ltb (header_length bs) 16)) [
    | inl s ↦ rw (e, s) refl
    | inr s ↦
        let shrinks : length (drop (cmsg_align (header_length bs)) bs)
            ≡ length bs - cmsg_align (header_length bs) =
          length-drop (cmsg_align (header_length bs)) bs in
        let bigger : 16 ≤ header_length bs = ground arith in
        let some_bytes : 16 ≤ length bs = ground arith in
        rw
          (parse_messages_enough f g (offset + cmsg_align (header_length bs))
            (drop (cmsg_align (header_length bs)) bs) (omega arith) (omega arith))
          refl
  ]
]
