-- ===== src/Daemon/Command.antt =====
-- `parse_command`: the command line of busd.
use busd.Prelude.{
  not, ℕ, zero, suc, ◌^◌, Bool, true, false, ◌≡◌, refl, Option, none, some, List, [], ◌∷◌, ◌==◌,
  Result, ok, err, reject_if, ok_or, ◌>>=◌, ◌>>◌, if◌then◌else◌,
}
use busd.Order.{bytes_order, same}
use busd.Protocol.Types.{Text, Bytes, FrameLimits, default_frame_limits}
use busd.Protocol.Bytes.{ascii, is_utf8}
use busd.Strings.{parse_unsigned}
use busd.Broker.Types.{Limits, default_limits}
mod Bounds
mod Examples

-- An argument and a path are any bytes.
pub data PolicySource : Type 0 where
  safe_defaults : PolicySource
  file : Bytes → PolicySource
  unsafe_allow_all : PolicySource

pub record DaemonCommand : Type 0 where
  pub socket : Bytes
  pub policy : PolicySource
  pub limits : Limits
  pub maximum_frame_size : ℕ

pub data Command : Type 0 where
  daemon : DaemonCommand → Command
  health : Bytes → Command

-- The only error.
pub data Usage : Type 0 where
  usage : Usage

abbrev pub default_socket : Bytes
default_socket = ascii "/run/busd/busd.sock"

abbrev pub default_command : DaemonCommand
default_command = record {
  socket = default_socket;
  policy = PolicySource.safe_defaults;
  limits = default_limits;
  maximum_frame_size = default_frame_limits.maximum_frame_size;
}

-- `into_string` fails on bytes that are no UTF-8.
unfoldable pub parse_limit : Bytes → Result Usage ℕ
parse_limit value = do
  reject_if (not (is_utf8 value)) Usage.usage
  n ← ok_or (parse_unsigned (2 ^ 64) value) Usage.usage
  reject_if (n == 0) Usage.usage
  ok n

abbrev pub is_allow_all : PolicySource → Bool
is_allow_all PolicySource.unsafe_allow_all = true
is_allow_all PolicySource.safe_defaults = false
is_allow_all (PolicySource.file path) = false

abbrev pub is_file : PolicySource → Bool
is_file (PolicySource.file path) = true
is_file PolicySource.safe_defaults = false
is_file PolicySource.unsafe_allow_all = false

abbrev pub set_policy : Bytes → DaemonCommand → Result Usage DaemonCommand
set_policy value c = do
  reject_if (is_allow_all c.policy) Usage.usage
  ok (record c { policy = PolicySource.file value })

abbrev pub set_allow_all : DaemonCommand → Result Usage DaemonCommand
set_allow_all c = do
  reject_if (is_file c.policy) Usage.usage
  ok (record c { policy = PolicySource.unsafe_allow_all })

abbrev pub set_limit : Bytes → (ℕ → DaemonCommand) → Result Usage DaemonCommand
set_limit value f = do n ← parse_limit value; ok (f n)

-- An option that is followed by its value.
unfoldable pub set_option : Bytes → Bytes → DaemonCommand → Result Usage DaemonCommand
unfolding parse_limit
set_option argument value c =
    if same argument (ascii "--socket")
    then ok (record c { socket = value })
    else if same argument (ascii "--policy")
    then set_policy value c
    else if same argument (ascii "--maximum-frame-size")
    then set_limit value (λ n. record c { maximum_frame_size = n })
    else if same argument (ascii "--maximum-queued-bytes")
    then set_limit value (λ n. record c { limits = record c.limits { maximum_queued_bytes = n } })
    else if same argument (ascii "--maximum-queued-messages")
    then set_limit value
        (λ n. record c { limits = record c.limits { maximum_queued_messages = n } })
    else if same argument (ascii "--maximum-in-flight-requests")
    then set_limit value
        (λ n. record c { limits = record c.limits { maximum_in_flight_requests = n } })
    else if same argument (ascii "--maximum-subscriptions")
    then set_limit value (λ n. record c { limits = record c.limits { maximum_subscriptions = n } })
    else if same argument (ascii "--maximum-namespace-claims")
    then set_limit value
        (λ n. record c { limits = record c.limits { maximum_namespace_claims = n } })
    else err Usage.usage

abbrev pub allow_all_option : Bytes
allow_all_option = ascii "--unsafe-allow-all"

-- The loop of `parse_daemon_command`. An option at the end lacks its value.
unfoldable pub set_options : List Bytes → DaemonCommand → Result Usage DaemonCommand
unfolding set_option
set_options [] c = ok c
set_options (argument ∷ []) c =
    if same argument allow_all_option then set_allow_all c else err Usage.usage
set_options (argument ∷ value ∷ rest) c =
    if same argument allow_all_option
    then (set_allow_all c >>= λ d. set_options (value ∷ rest) d)
    else (set_option argument value c >>= λ d. set_options rest d)

unfoldable pub parse_daemon_command : List Bytes → Result Usage Command
unfolding set_options
parse_daemon_command arguments = do c ← set_options arguments default_command; ok (Command.daemon c)

unfoldable pub health_socket : List Bytes → Bytes → Result Usage Bytes
health_socket [] socket = ok socket
health_socket (argument ∷ []) socket = err Usage.usage
health_socket (argument ∷ value ∷ rest) socket =
    let last = health_socket rest value in
    if same argument (ascii "--socket") then last else err Usage.usage

unfoldable pub parse_health_command : List Bytes → Result Usage Command
unfolding health_socket
parse_health_command arguments = do
  socket ← health_socket arguments default_socket
  ok (Command.health socket)

unfoldable pub parse_command : List Bytes → Result Usage Command
unfolding parse_daemon_command parse_health_command
parse_command [] = err Usage.usage
parse_command (command ∷ arguments) =
    if same command (ascii "daemon")
    then parse_daemon_command arguments
    else if same command (ascii "health")
    then parse_health_command arguments
    else err Usage.usage
