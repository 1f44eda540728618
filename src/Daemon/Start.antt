-- ===== src/Daemon/Start.antt =====
-- `run_daemon` up to its loops: the policy and the limits that the command line asks for.
use busd.Prelude.{Result, ok, err}
use busd.Protocol.Types.{Text, Bytes, FrameLimits, default_frame_limits}
use busd.Policy.{Policy, allow_all, safe_defaults}
use busd.Policy.Config.{Config, ConfigError, permits}
use busd.Policy.Parse.{parse_policy}
use busd.Transport.{IoError}
use busd.Daemon.Command.{PolicySource, DaemonCommand}

pub data DaemonPolicy : Type 0 where
  safe_defaults_policy : DaemonPolicy
  file_policy : Config → DaemonPolicy
  allow_all_policy : DaemonPolicy

unfoldable pub daemon_permits : DaemonPolicy → Policy
unfolding safe_defaults allow_all permits
daemon_permits DaemonPolicy.safe_defaults_policy request = safe_defaults request
daemon_permits (DaemonPolicy.file_policy config) request = permits config request
daemon_permits DaemonPolicy.allow_all_policy request = allow_all request

pub data StartError : Type 0 where
  unreadable : IoError → StartError
  malformed : ConfigError → StartError

abbrev pub malformed_or : Result ConfigError Config → Result StartError DaemonPolicy
malformed_or (ok config) = ok (DaemonPolicy.file_policy config)
malformed_or (err e) = err (StartError.malformed e)

abbrev pub parse_file : Result IoError Text → Result StartError DaemonPolicy
parse_file (ok text) = malformed_or (parse_policy text)
parse_file (err e) = err (StartError.unreadable e)

-- The files are what `read_to_string` answers for a path.
unfoldable pub load_policy :
    (Bytes → Result IoError Text) → PolicySource → Result StartError DaemonPolicy
unfolding parse_policy
load_policy files PolicySource.safe_defaults = ok DaemonPolicy.safe_defaults_policy
load_policy files (PolicySource.file path) = parse_file (files path)
load_policy files PolicySource.unsafe_allow_all = ok DaemonPolicy.allow_all_policy

abbrev pub frame_limits : DaemonCommand → FrameLimits
frame_limits c = record default_frame_limits { maximum_frame_size = c.maximum_frame_size }
