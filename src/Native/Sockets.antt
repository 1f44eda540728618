-- ===== src/Native/Sockets.antt =====
-- crates/bus-transport-unix/src/lib.rs: socket addresses, the making of sockets, and peer credentials.
use busd.Prelude.{
  ℕ, ◌+◌, ◌-◌, Bool, not, ◌||◌, ◌++◌, ltb, ◌==◌, length, any, Result, ok, reject_if, ◌>>=◌, ◌>>◌,
}
use busd.Protocol.Types.{Bytes}
use busd.Native.{NativeError, invalid_input, invalid_data, already_exists, to_le, zeros}

-- The address of a path: what is copied into `SockAddrUn`, and the length that the kernel is told.
unfoldable pub socket_address : Bytes → Result NativeError (Bytes × ℕ)
unfolding zeros
socket_address path = do
  reject_if (length path == 0 || not (ltb (length path) 108) || any (λ b. b == 0) path)
      (invalid_input "socket path must be non-empty, NUL-free, and shorter than 108 bytes")
  ok (to_le 2 1 ++ path ++ zeros (108 - length path), 2 + length path + 1)

-- `UCred`, with the bits of the i32 pid.
pub record UCred : Type 0 where
  pub pid : ℕ
  pub uid : ℕ
  pub gid : ℕ

-- `PeerCredentials`, identities that the kernel vouches for.
pub record PeerCredentials : Type 0 where
  pub pid : ℕ
  pub uid : ℕ
  pub gid : ℕ

-- What `getsockopt` writes: the length of the record and the record, of twelve bytes.
unfoldable pub peer_credentials :
    Result NativeError (ℕ × UCred) → Result NativeError PeerCredentials
peer_credentials answer = do
  (size, credentials) ← answer
  reject_if (not (size == 12)) (invalid_data "kernel returned an invalid peer credential record")
  reject_if (not (ltb credentials.pid 2147483648))
      (invalid_data "kernel returned a negative peer process identifier")
  ok (record { pid = credentials.pid; uid = credentials.uid; gid = credentials.gid })

-- The calls with which a socket is made, and the file system's answers for a path.
pub record Setup : Type 0 where
  pub create_parent : Bytes → Result NativeError (Unit {0})
  pub exists : Bytes → Bool
  pub socket : Result NativeError ℕ
  pub bind : ℕ → Bytes × ℕ → Result NativeError (Unit {0})
  pub listen : ℕ → Result NativeError (Unit {0})
  pub connect : ℕ → Bytes × ℕ → Result NativeError (Unit {0})

-- `Connection::connect`; a connection is its file descriptor.
unfoldable pub connect : Setup → Bytes → Result NativeError ℕ
unfolding socket_address
connect setup path = do
  address ← socket_address path
  fd ← setup.socket
  setup.connect fd address
  ok fd

-- `Listener::bind`; a listener is its file descriptor and its path.
unfoldable pub bind : Setup → Bytes → Result NativeError (ℕ × Bytes)
unfolding socket_address
bind setup path = do
  setup.create_parent path
  reject_if (setup.exists path) already_exists
  address ← socket_address path
  fd ← setup.socket
  setup.bind fd address
  setup.listen fd
  ok (fd, path)
