-- ===== src/Policy/Errors.antt =====
-- The line that an error of a policy file names.
use busd.Prelude.{
  Bool, true, not, any, ◌||◌, ◌==◌, sym, arith, ◌∙◌, suc, ℕ, ◌+◌, ◌<◌, ◌≡◌, ◌⊎◌, inl, inr, refl, ap,
  List, [], ◌∷◌, length, take, Result, ok, err, ◌>>=◌,
}
use busd.Protocol.Types.{Text}
use busd.Policy.Significant.{validated_twice}
use busd.Policy.Config.{
  is_none, is_known_action, Rule, Config, ConfigError, validate_config, validate_rules,
  validate_actions,
}
use busd.Policy.Parse.{
  error_at, Parsing, content, parse_content, parse_lines, finish, empty, parse, parse_policy,
  validated,
}
use busd.Policy.Lines.{IsPlaced, parse_content-IsPlaced}
use busd.Strings.{lines}

-- The line after `k` others, counted from `n`, is the first that is not read.
abbrev pub StopsAfter : List Text → ℕ → Parsing → ConfigError → ℕ → Type 0
StopsAfter input n p e k =
    (e.line ≡ n + k)
    × (k < length input)
    × ((q : Parsing) × (parse_lines (take k input) n p ≡ ok q))
    × (parse_lines (take (suc k) input) n p ≡ err e)

stops_here :
    (line : Text)
    → (rest : List Text) → (n : ℕ) → (p : Parsing) → (e : ConfigError)
    → parse_content (content line) n p ≡ err e
    → e.line ≡ n
    → StopsAfter (line ∷ rest) n p e 0
unfolding parse_lines
stops_here line rest n p e h l = (omega arith, omega arith, (p, refl), rw h refl)

stops_later :
    (line : Text)
    → (rest : List Text) → (n k : ℕ) → (p q : Parsing) → (e : ConfigError)
    → parse_content (content line) n p ≡ ok q
    → StopsAfter rest (n + 1) q e k
    → StopsAfter (line ∷ rest) n p e (suc k)
unfolding parse_lines
stops_later line rest n k p q e g (l, b, (r, t), u) =
    (omega arith, omega arith, (r, rw g t), rw g u)

parse_lines_stops :
    (input : List Text)
    → (n : ℕ) → (p : Parsing) → (e : ConfigError) → parse_lines input n p ≡ err e
    → (k : ℕ) × StopsAfter input n p e k
unfolding parse_lines
parse_lines_stops [] n p e h = cc
parse_lines_stops (line ∷ rest) n p e h = elim (parse_content-IsPlaced (content line) p) [
  | IsPlaced.fails message f ↦
      let same_error : err (error_at n message) ≡ err e = rw (f n) at h in
      (0, stops_here line rest n p e (f n ∙ same_error) (cc))
  | IsPlaced.gives q g ↦
      let (k, t) = parse_lines_stops rest (n + 1) q e (rw (g n) at h) in
      (suc k, stops_later line rest n k p q e (g n) t)
]

-- A rule that no valid configuration has.
abbrev pub is_invalid_rule : Rule → Bool
is_invalid_rule rule =
    is_none rule.effect || any (λ action. not (is_known_action action)) rule.actions

abbrev pub IsInvalid : Config → Type 0
IsInvalid config = (not (config.version == 1) || any is_invalid_rule config.rules) ≡ true

-- Every line is read, and the configuration as a whole is not valid.
abbrev pub InvalidAfter : List Text → ConfigError → Type 0
InvalidAfter input e =
    (e.line ≡ 0) × ((p : Parsing) × (parse_lines input 1 empty ≡ ok p) × IsInvalid (finish p))

validate_actions_error :
    (actions : List Text) (e : ConfigError)
    → validate_actions actions ≡ err e
    → (e.line ≡ 0) × (any (λ action. not (is_known_action action)) actions ≡ true)
unfolding validate_actions
validate_actions_error [] e h = cc
validate_actions_error (action ∷ actions) e h = ground (arith, validate_actions_error actions e)

validate_rules_error :
    (rules : List Rule) (e : ConfigError)
    → validate_rules rules ≡ err e
    → (e.line ≡ 0) × (any is_invalid_rule rules ≡ true)
unfolding validate_rules
validate_rules_error [] e h = cc
validate_rules_error (rule ∷ rules) e h =
    ground (arith, validate_rules_error rules e, validate_actions_error rule.actions e)

validated_error :
    (config : Config) (e : ConfigError) → validated config ≡ err e → (e.line ≡ 0) × IsInvalid config
unfolding validate_config
validated_error config e h = ground (arith, validate_rules_error config.rules e)

stops_or_invalid :
    (input : List Text) (r : Result ConfigError Parsing)
    → parse_lines input 1 empty ≡ r
    → (e : ConfigError) → ((r >>= λ p. validated (finish p)) >>= validated) ≡ err e
    → InvalidAfter input e ⊎ ((k : ℕ) × StopsAfter input 1 empty e k)
stops_or_invalid input (ok p) g e h =
    let (line, invalid) = validated_error (finish p) e (sym (validated_twice (finish p)) ∙ h) in
    inl (line, (p, g, invalid))
stops_or_invalid input (err f) g e h =
    let same_error : f ≡ e = cc in inr (parse_lines_stops input 1 empty e (g ∙ ap err same_error))

-- The error of a policy file either has line 0, and then every line is read and the configuration as a
-- whole is not valid: its version is not 1, or a rule has no effect or an unknown action; or it names
-- the first line of the file, counted from 1, that is not read.
pub parse_policy_stops :
    (input : Text) (e : ConfigError)
    → parse_policy input ≡ err e
    → InvalidAfter (lines input) e ⊎ ((k : ℕ) × StopsAfter (lines input) 1 empty e k)
unfolding parse_policy parse
parse_policy_stops input e h =
    stops_or_invalid (lines input) (parse_lines (lines input) 1 empty) refl e h
