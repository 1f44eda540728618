-- ===== src/Policy/Examples.antt =====
-- A configuration with two rules.
use busd.Prelude.{◌≡◌, refl, [], ◌∷◌, some, none}
use busd.Protocol.Types.{text}
use busd.Protocol.Bytes.{ascii}
use busd.Policy.{Credentials, Action, PolicyRequest}
use busd.Policy.Config.{Effect, Config, default_rule, permits}
use busd.Policy.Decision.{permits-Authenticated}

abbrev operator : Credentials
operator = record {
  pid = 7;
  uid = 1000;
  gid = 1000;
  executable = none;
  security_label = none;
  cgroup = none;
}

abbrev claim_jobs : Action
claim_jobs = Action.claim_namespace (ascii "bus://jobs")

abbrev plain : PolicyRequest
plain = record {
  credentials = operator;
  client_id = none;
  claimed_headers = [];
  action = claim_jobs;
}

abbrev boasting : PolicyRequest
boasting = record {
  credentials = operator;
  client_id = some (ascii "root");
  claimed_headers = (ascii "role", text (ascii "admin")) ∷ [];
  action = claim_jobs;
}

-- User 1000 may claim what begins with bus://j; nobody may broadcast.
abbrev two_rules : Config
two_rules = record {
  version = 1;
  default = Effect.deny;
  rules =
      record default_rule { effect = some Effect.deny; actions = ascii "broadcast" ∷ [] }
      ∷ record default_rule {
        effect = some Effect.allow;
        actions = ascii "claim-namespace" ∷ [];
        uid = some 1000;
        target = some (ascii "bus://j*");
      }
      ∷ [];
}

permits-Authenticated_example : permits two_rules plain ≡ permits two_rules boasting
permits-Authenticated_example =
    permits-Authenticated two_rules plain boasting ((refl, refl), ((refl, refl), tt)) refl refl
