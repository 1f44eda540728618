-- ===== src/Daemon/Identity.antt =====
-- `credentials_from_peer`: what the daemon reads of a peer's process.
use busd.Prelude.{Option, none, some, List, [], ◌∷◌, ◌≡◌, refl}
use busd.Protocol.Types.{Text}
use busd.Protocol.Bytes.{ascii}
use busd.Policy.{Credentials}
use busd.Strings.{trim, lines, split_once}
use busd.Native.Sockets.{PeerCredentials}

-- What can be read below /proc/<pid>: the link exe, in UTF-8, and the files attr/current and cgroup.
pub record Proc : Type 0 where
  pub exe : Option Text
  pub current : Option Text
  pub cgroup_file : Option Text

-- `filter(|value| !value.is_empty())`
abbrev pub non_empty : Option Text → Option Text
non_empty none = none
non_empty (some []) = none
non_empty (some (c ∷ t)) = some (c ∷ t)

abbrev trimmed : Option Text → Option Text
trimmed none = none
trimmed (some value) = some (trim value)

abbrev first_line : List Text → Option Text
first_line [] = none
first_line (line ∷ rest) = some line

abbrev after : Option (Text × Text) → Option Text
after none = none
after (some (start, rest)) = some rest

abbrev after_colon : Option Text → Option Text
after_colon none = none
after_colon (some t) = after (split_once b':' t)

-- `splitn(3, ':').nth(2)`: what follows the second colon.
unfoldable pub third_field : Option Text → Option Text
third_field line = after_colon (after_colon line)

unfoldable pub cgroup_of : Option Text → Option Text
unfolding third_field
cgroup_of none = none
cgroup_of (some value) = non_empty (third_field (first_line (lines value)))

unfoldable pub credentials_from_peer : PeerCredentials → Proc → Credentials
unfolding cgroup_of
credentials_from_peer peer proc = record {
  pid = peer.pid;
  uid = peer.uid;
  gid = peer.gid;
  executable = proc.exe;
  security_label = non_empty (trimmed proc.current);
  cgroup = cgroup_of proc.cgroup_file;
}

cgroup_test : cgroup_of (some (ascii "0::/user.slice:a\n1:x:/y\n")) ≡ some (ascii "/user.slice:a")
unfolding cgroup_of lines split_once
cgroup_test = refl

cgroup_short_test : cgroup_of (some (ascii "0:\n")) ≡ none
unfolding cgroup_of lines split_once
cgroup_short_test = refl
