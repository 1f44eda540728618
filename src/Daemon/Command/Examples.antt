-- ===== src/Daemon/Command/Examples.antt =====
-- Command lines to try.
use busd.Prelude.{some, none, Result, ◌≡◌, refl, List, [], ◌∷◌, ok, err}
use busd.Protocol.Bytes.{is_utf8, ascii}
use busd.Protocol.Types.{Bytes, Text}
use busd.Policy.Config.{Config, Effect, default_rule}
use busd.Policy.{PolicyRequest, Action}
use busd.Strings.{parse_unsigned}
use busd.Transport.{IoError}
use busd.Daemon.Command.{
  Command, DaemonCommand, PolicySource, Usage, default_command, parse_command,
}
use busd.Daemon.Command.Bounds.{IsBounded, parse_command-IsBounded}

abbrev words : List Bytes
words =
    ascii "daemon"
    ∷ ascii "--unsafe-allow-all"
    ∷ ascii "--maximum-queued-bytes"
    ∷ ascii "4096"
    ∷ ascii "--socket"
    ∷ ascii "/tmp/busd.sock"
    ∷ []

abbrev open_daemon : DaemonCommand
open_daemon = record default_command {
  socket = ascii "/tmp/busd.sock";
  policy = PolicySource.unsafe_allow_all;
  limits = record default_command.limits { maximum_queued_bytes = 4096 };
}

words_test : parse_command words ≡ ok (Command.daemon open_daemon)
unfolding parse_command is_utf8 parse_unsigned
words_test = refl

parse_command-IsBounded_example : IsBounded open_daemon
parse_command-IsBounded_example = parse_command-IsBounded words open_daemon words_test

no_command_test : parse_command [] ≡ err Usage.usage
unfolding parse_command
no_command_test = refl

two_policies_test :
    parse_command (ascii "daemon" ∷ ascii "--policy" ∷ ascii "p" ∷ ascii "--unsafe-allow-all" ∷ [])
    ≡ err Usage.usage
unfolding parse_command
two_policies_test = refl

zero_limit_test :
    parse_command (ascii "daemon" ∷ ascii "--maximum-subscriptions" ∷ ascii "0" ∷ [])
    ≡ err Usage.usage
unfolding parse_command is_utf8 parse_unsigned
zero_limit_test = refl

health_test :
    parse_command (ascii "health" ∷ ascii "--socket" ∷ ascii "/tmp/busd.sock" ∷ [])
    ≡ ok (Command.health (ascii "/tmp/busd.sock"))
unfolding parse_command
health_test = refl

abbrev policy_text : Text
policy_text =
    ascii
      "version = 1\n[[rule]]\neffect = allow\nactions = broadcast\nuid = 7\n[[rule]]\neffect = deny\nuid = 7\n"

abbrev policy_files : Bytes → Result IoError Text
policy_files path = ok policy_text

abbrev loaded : Config
loaded = record {
  version = 1;
  default = Effect.deny;
  rules =
      record default_rule {
        effect = some Effect.allow;
        actions = ascii "broadcast" ∷ [];
        uid = some 7;
      }
      ∷ record default_rule { effect = some Effect.deny; uid = some 7 }
      ∷ [];
}

abbrev announcement : PolicyRequest
announcement = record {
  credentials = record {
    pid = 1;
    uid = 7;
    gid = 7;
    executable = none;
    security_label = none;
    cgroup = none;
  };
  client_id = none;
  claimed_headers = [];
  action = Action.broadcast;
}
