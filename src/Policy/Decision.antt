-- ===== src/Policy/Decision.antt =====
-- How a configured policy decides, and on what.
use busd.Prelude.{
  ◌≡◌, ◌↔◌, refl, ap, true, false, Option, none, some, List, [], ◌∷◌, ◌++◌, All, ok, arith,
  Bool-cases, inl, inr,
}
use busd.Order.{bytes_order}
use busd.Protocol.Types.{Text}
use busd.Protocol.Names.{strip_prefix}
use busd.Policy.{PolicyRequest}
use busd.Policy.Config.{
  Effect, Rule, Config, validate_config, validate_rules, rule_matches, find_rule, effect_or,
  effect_of, is_allow, permits, is_none, strip_star, has_prefix, target_matches, headers_match,
}

-- The effect of the first rule that matches, or the default if none does.
pub data Decides (default : Effect) (request : PolicyRequest) : List Rule → Effect → Type 0 where
  by_default : Decides default request [] default
  by_rule :
      (rule : Rule) (rules : List Rule) (effect : Effect)
      → rule_matches rule request ≡ true
      → rule.effect ≡ some effect
      → Decides default request (rule ∷ rules) effect
  skip :
      (rule : Rule) (rules : List Rule) (effect : Effect)
      → rule_matches rule request ≡ false
      → Decides default request rules effect
      → Decides default request (rule ∷ rules) effect

decided :
    (default : Effect) (request : PolicyRequest) (rules : List Rule) (effect : Effect)
    → Decides default request rules effect
    → effect_of default (find_rule rules request) ≡ effect
unfolding find_rule
decided default request _ _ by_default = refl
decided default request _ _ (by_rule rule rules effect m e) = ground arith
decided default request _ _ (skip rule rules effect m d) =
    ground (arith, decided default request rules effect d)

-- Every rule of a valid configuration has an effect.
abbrev pub HasEffects : List Rule → Type 0
HasEffects rules = All (λ rule. is_none rule.effect ≡ false) rules

validate_rules-HasEffects : (rules : List Rule) → validate_rules rules ≡ ok tt → HasEffects rules
unfolding validate_rules
validate_rules-HasEffects [] h = tt
validate_rules-HasEffects (rule ∷ rules) h = ground (arith, validate_rules-HasEffects rules)

has_effect :
    (default : Effect) (o : Option Effect) → is_none o ≡ false → o ≡ some (effect_or default o)
has_effect default none h = cc
has_effect default (some effect) h = refl

decides :
    (default : Effect) (request : PolicyRequest) (rules : List Rule)
    → HasEffects rules
    → Decides default request rules (effect_of default (find_rule rules request))
unfolding find_rule
decides default request [] h = by_default
decides default request (rule ∷ rules) h = elim (Bool-cases (rule_matches rule request)) [
  | inr m ↦ rw m (skip rule rules _ m (decides default request rules h.1))
  | inl m ↦ rw m (by_rule rule rules _ m (has_effect default rule.effect h.0))
]

allows : (effect : Effect) → is_allow effect ≡ true → effect ≡ Effect.allow
allows Effect.allow h = refl
allows Effect.deny h = cc

-- A valid configuration permits a request exactly when the first of its rules that matches allows
-- it, or none matches and its default is to allow.
pub permits-Decides :
    (config : Config) (request : PolicyRequest)
    → validate_config config ≡ ok tt
    → (permits config request ≡ true) ↔ Decides config.default request config.rules Effect.allow
unfolding permits validate_config
permits-Decides config request h =
    let found = effect_of config.default (find_rule config.rules request) in
    let valid : HasEffects config.rules = validate_rules-HasEffects config.rules (ground arith) in
    let d : Decides config.default request config.rules found =
      decides config.default request config.rules valid in
    (
      λ p. rw (allows found p) at d,
      λ a. ap is_allow (decided config.default request config.rules Effect.allow a),
    )

-- No rule looks at what the client claims of itself.
abbrev pub Authenticated : Rule → Type 0
Authenticated rule = (rule.client_id ≡ none) × (rule.headers ≡ [])

rule_matches-Authenticated :
    (rule : Rule) (p q : PolicyRequest)
    → Authenticated rule
    → p.credentials ≡ q.credentials
    → p.action ≡ q.action
    → rule_matches rule p ≡ rule_matches rule q
unfolding rule_matches headers_match
rule_matches-Authenticated rule p q h c a = rw (h.0, h.1, c, a) refl

find_rule-Authenticated :
    (rules : List Rule) (p q : PolicyRequest)
    → All Authenticated rules
    → p.credentials ≡ q.credentials
    → p.action ≡ q.action
    → find_rule rules p ≡ find_rule rules q
unfolding find_rule
find_rule-Authenticated [] p q h c a = refl
find_rule-Authenticated (rule ∷ rules) p q h c a =
    ground (
      arith,
      rule_matches-Authenticated rule p q h.0 c a,
      find_rule-Authenticated rules p q h.1 c a,
    )

-- A policy whose rules select no client identifier and no header decides by the authenticated
-- credentials and the action alone: what else the client claims makes no difference.
pub permits-Authenticated :
    (config : Config) (p q : PolicyRequest)
    → All Authenticated config.rules
    → p.credentials ≡ q.credentials
    → p.action ≡ q.action
    → permits config p ≡ permits config q
unfolding permits
permits-Authenticated config p q h c a =
    ap (λ o. is_allow (effect_of config.default o)) (find_rule-Authenticated config.rules p q h c a)

strip_star-append : (p : Text) → strip_star (p ++ b'*' ∷ []) ≡ some p
unfolding strip_star
strip_star-append [] = refl
strip_star-append (c ∷ []) = refl
strip_star-append (c ∷ d ∷ cs) = rw (strip_star-append (d ∷ cs)) refl

strip_prefix-some : (p t : Text) → has_prefix p t ≡ true → (rest : Text) × (t ≡ p ++ rest)
unfolding strip_prefix
strip_prefix-some [] t h = (t, refl)
strip_prefix-some (c ∷ p) [] h = cc
strip_prefix-some (c ∷ p) (d ∷ t) h =
    let q : d ≡ c = ground arith in
    let k : has_prefix p t ≡ true = ground arith in
    let (rest, e) = strip_prefix-some p t k in (rest, cc)

strip_prefix-append : (p rest : Text) → has_prefix p (p ++ rest) ≡ true
unfolding strip_prefix
strip_prefix-append [] rest = refl
strip_prefix-append (c ∷ p) rest = ground (arith, strip_prefix-append p rest)

-- A selector that ends in a star matches exactly the targets that begin with the rest of it.
pub target_matches_star :
    (p t : Text)
    → (target_matches (p ++ b'*' ∷ []) (some t) ≡ true) ↔ ((rest : Text) × (t ≡ p ++ rest))
unfolding target_matches
target_matches_star p t = (
  λ h. strip_prefix-some p t (rw (strip_star-append p) at h),
  λ r. rw (strip_star-append p, r.1) (strip_prefix-append p r.0),
)
