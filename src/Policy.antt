-- ===== src/Policy.antt =====
-- crates/bus-policy/src/lib.rs: credentials, actions and the built-in policies.
use busd.Prelude.{ℕ, Bool, true, false, not, Option}
use busd.Protocol.Types.{Text, PeerId, ClientId, Namespace, Channel, Headers}
pub mod Config
pub mod Parse
mod Lines
mod Significant
pub mod Files
mod Errors
mod Samples
pub mod Decision
mod Examples

pub record Credentials : Type 0 where
  pub pid : ℕ
  pub uid : ℕ
  pub gid : ℕ
  pub executable : Option Text
  pub security_label : Option Text
  pub cgroup : Option Text

pub data Action : Type 0 where
  connect : Action
  claim_namespace : Namespace → Action
  subscribe : Channel → Action
  publish : Channel → Action
  send_peer : PeerId → Action
  send_namespace : Namespace → Action
  send_client : ClientId → Action
  broadcast acknowledge monitor : Action
  register_dbus_name : Text → Action

-- `Request` of the policy crate.
pub record PolicyRequest : Type 0 where
  pub credentials : Credentials
  pub client_id : Option ClientId
  pub claimed_headers : Headers
  pub action : Action

-- `trait Policy`, its one method.
abbrev pub Policy : Type 0
Policy = PolicyRequest → Bool

unfoldable pub allow_all : Policy
allow_all request = true

-- `matches!(action, Broadcast | Monitor | RegisterDbusName(_))`
abbrev pub is_privileged : Action → Bool
is_privileged Action.broadcast = true
is_privileged Action.monitor = true
is_privileged (Action.register_dbus_name n) = true
is_privileged Action.connect = false
is_privileged _ = false

unfoldable pub safe_defaults : Policy
safe_defaults request = not (is_privileged request.action)
