-- ===== src/Policy/Config.antt =====
-- Policy configurations: `validate_config` and the `ConfigPolicy`.
use busd.Prelude.{
  ℕ, Bool, true, false, not, ◌&&◌, Option, none, some, String, List, [], ◌∷◌, ◌==◌, any, Result, ok,
  err, reject_if, if◌then◌else◌, ◌>>◌,
}
use busd.Order.{bytes_order, same}
use busd.Map.{Map, get}
use busd.Protocol.Types.{Text, Headers, HeaderValue, text}
use busd.Protocol.Bytes.{ascii}
use busd.Protocol.Names.{strip_prefix}
use busd.Protocol.Display.{peer_label}
use busd.Policy.{Action, PolicyRequest, Policy}

pub data Effect : Type 0 where
  allow deny : Effect

pub record Rule : Type 0 where
  pub effect : Option Effect
  pub actions : List Text
  pub uid : Option ℕ
  pub gid : Option ℕ
  pub executable : Option Text
  pub security_label : Option Text
  pub cgroup : Option Text
  pub client_id : Option Text
  pub target : Option Text
  pub headers : Map Text Text

abbrev pub default_rule : Rule
default_rule = record {
  effect = none;
  actions = [];
  uid = none;
  gid = none;
  executable = none;
  security_label = none;
  cgroup = none;
  client_id = none;
  target = none;
  headers = [];
}

pub record Config : Type 0 where
  pub version : ℕ
  pub default : Effect
  pub rules : List Rule

abbrev pub default_config : Config
default_config = record { version = 1; default = Effect.deny; rules = [] }

pub record ConfigError : Type 0 where
  pub line : ℕ
  pub message : String

abbrev pub action_name : Action → Text
action_name Action.connect = ascii "connect"
action_name (Action.claim_namespace n) = ascii "claim-namespace"
action_name (Action.subscribe c) = ascii "subscribe"
action_name (Action.publish c) = ascii "publish"
action_name (Action.send_peer p) = ascii "send-peer"
action_name (Action.send_namespace n) = ascii "send-namespace"
action_name (Action.send_client c) = ascii "send-client"
action_name Action.broadcast = ascii "broadcast"
action_name Action.acknowledge = ascii "acknowledge"
action_name Action.monitor = ascii "monitor"
action_name (Action.register_dbus_name n) = ascii "register-dbus-name"

-- `Action::target`
abbrev pub action_target : Action → Option Text
action_target (Action.claim_namespace n) = some n
action_target (Action.send_namespace n) = some n
action_target (Action.subscribe c) = some c
action_target (Action.publish c) = some c
action_target (Action.send_peer p) = some (peer_label p)
action_target (Action.send_client c) = some c
action_target (Action.register_dbus_name n) = some n
action_target _ = none

-- `matches!(action, ...)`
abbrev pub known_actions : List Text
known_actions =
    ascii "connect"
    ∷ ascii "claim-namespace"
    ∷ ascii "subscribe"
    ∷ ascii "publish"
    ∷ ascii "send-peer"
    ∷ ascii "send-namespace"
    ∷ ascii "send-client"
    ∷ ascii "broadcast"
    ∷ ascii "acknowledge"
    ∷ ascii "monitor"
    ∷ ascii "register-dbus-name"
    ∷ []

unfoldable pub is_known_action : Text → Bool
is_known_action action = any (same action) known_actions

abbrev pub config_error : String → ConfigError
config_error message = record { line = 0; message = message }

abbrev pub is_none {ℓ} : {A : Type ℓ} → Option A → Bool
is_none none = true
is_none (some a) = false

unfoldable pub validate_actions : List Text → Result ConfigError (Unit {0})
validate_actions [] = ok tt
validate_actions (action ∷ actions) =
    if is_known_action action then validate_actions actions else err (config_error "unknown action")

unfoldable pub validate_rules : List Rule → Result ConfigError (Unit {0})
validate_rules [] = ok tt
validate_rules (rule ∷ rules) = do
  reject_if (is_none rule.effect) (config_error "every rule requires an effect")
  validate_actions rule.actions
  validate_rules rules

unfoldable pub validate_config : Config → Result ConfigError (Unit {0})
validate_config config = do
  reject_if (not (config.version == 1)) (config_error "unsupported policy version")
  validate_rules config.rules

-- `strip_suffix('*')`
unfoldable pub strip_star : Text → Option Text
strip_star [] = none
strip_star (c ∷ []) = if c == b'*' then some [] else none
strip_star (c ∷ d ∷ cs) = elim (strip_star (d ∷ cs)) [ none ↦ none | some p ↦ some (c ∷ p) ]

abbrev pub has_prefix : Text → Text → Bool
has_prefix p t = not (is_none (strip_prefix p t))

-- The selector ends in a star, or is the target.
abbrev pub selects : Text → Option Text → Text → Bool
selects selector none t = same selector t
selects selector (some p) t = has_prefix p t

unfoldable pub target_matches : Text → Option Text → Bool
unfolding strip_star
target_matches selector none = false
target_matches selector (some t) = selects selector (strip_star selector) t

-- `is_none_or(|value| value == actual)`, of numbers and of optional texts.
abbrev pub number_is : Option ℕ → ℕ → Bool
number_is none n = true
number_is (some m) n = m == n

abbrev pub equals : Option Text → Text → Bool
equals none value = false
equals (some actual) value = same actual value

abbrev pub text_is : Option Text → Option Text → Bool
text_is none actual = true
text_is (some value) actual = equals actual value

abbrev pub target_is : Option Text → Option Text → Bool
target_is none target = true
target_is (some selector) target = target_matches selector target

abbrev pub header_is : Option HeaderValue → Text → Bool
header_is (some (text actual)) value = same actual value
header_is _ value = false

-- `all(|(name, value)| ...)`
unfoldable pub headers_match : Map Text Text → Headers → Bool
headers_match [] claimed = true
headers_match ((name, value) ∷ headers) claimed =
    header_is (get name claimed) value && headers_match headers claimed

abbrev pub action_is : List Text → Text → Bool
action_is [] name = true
action_is (action ∷ actions) name = any (λ a. same a name) (action ∷ actions)

unfoldable pub rule_matches : Rule → PolicyRequest → Bool
unfolding target_matches headers_match
rule_matches rule request =
    let credentials = request.credentials in
    action_is rule.actions (action_name request.action)
    && number_is rule.uid credentials.uid
    && number_is rule.gid credentials.gid
    && text_is rule.executable credentials.executable
    && text_is rule.security_label credentials.security_label
    && text_is rule.cgroup credentials.cgroup
    && text_is rule.client_id request.client_id
    && target_is rule.target (action_target request.action)
    && headers_match rule.headers request.claimed_headers

-- `find(|rule| rule_matches(rule, request))`
unfoldable pub find_rule : List Rule → PolicyRequest → Option Rule
unfolding rule_matches
find_rule [] request = none
find_rule (rule ∷ rules) request =
    let rest = find_rule rules request in if rule_matches rule request then some rule else rest

-- `and_then(|rule| rule.effect).unwrap_or(self.config.default)`
abbrev pub effect_or : Effect → Option Effect → Effect
effect_or default none = default
effect_or default (some effect) = effect

abbrev pub effect_of : Effect → Option Rule → Effect
effect_of default none = default
effect_of default (some rule) = effect_or default rule.effect

abbrev pub is_allow : Effect → Bool
is_allow Effect.allow = true
is_allow Effect.deny = false

-- `ConfigPolicy::permits`
unfoldable pub permits : Config → Policy
unfolding find_rule
permits config request = is_allow (effect_of config.default (find_rule config.rules request))
