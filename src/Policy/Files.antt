-- ===== src/Policy/Files.antt =====
-- What a policy file says, line by line, and that `Config::parse` reads that.
use busd.Prelude.{
  arith, ◌∙◌, ℕ, ◌+◌, ◌≡◌, ◌⊎◌, inl, inr, refl, ap, sym, List, [], ◌∷◌, ◌++◌, append_assoc, map,
  length, ◌==◌, Result, Option, some, none, true, ok, err, ◌>>=◌, Result-cases, Bool-cases,
}
use busd.Order.{bytes_order, same, same→eq}
use busd.Protocol.Types.{Text}
use busd.Protocol.Bytes.{ascii}
use busd.Policy.Config.{Rule, Config, ConfigError, validate_config, default_rule, default_config}
use busd.Policy.Parse.{
  Parsing, content, parse_content, parse_lines, set_pair, set_top, set_rule, unquote, finish, empty,
  parse, parse_policy, validated,
}
use busd.Policy.Significant.{validated_twice}
use busd.Strings.{lines, trim, split_once}

-- The line `key = value` makes one rule, or one top level, of the other.
abbrev pub Sets :
    {A : Type 0} → (Text → Text → ℕ → A → Result ConfigError A) → Text → A → A → Type 0
Sets set line a b =
    (key : Text) × (raw : Text) × (value : Text) × (n : ℕ) × (split_once b'=' line
      ≡ some (key, raw))
    × (unquote (trim raw) n ≡ ok value)
    × (set (trim key) value n a ≡ ok b)

abbrev pub mark : Text
mark = ascii "[[rule]]"

-- The lines that follow in a rule that is so far `rule`, and the rules that they give with it, in the
-- order in which they stand: each mark ends one and begins the next from the default.
pub data RuleLines : List Text → Rule → List Rule → Type 0 where
  last_rule : {rule : Rule} → RuleLines [] rule (rule ∷ [])
  blank_line :
      {rest : List Text} {rule : Rule} {rules : List Rule}
      → RuleLines rest rule rules
      → RuleLines ([] ∷ rest) rule rules
  next_rule :
      {rest : List Text} {rule : Rule} {rules : List Rule}
      → RuleLines rest default_rule rules
      → RuleLines (mark ∷ rest) rule (rule ∷ rules)
  rule_key :
      {line : Text} {rest : List Text} {rule : Rule} {rules : List Rule} (rule' : Rule)
      → Sets set_rule line rule rule'
      → RuleLines rest rule' rules
      → RuleLines (line ∷ rest) rule rules

-- The lines of a file whose top level is so far `config`, and the configuration that it has.
pub data FileLines : List Text → Config → Config → Type 0 where
  no_rules : {config : Config} → FileLines [] config config
  blank_top :
      {rest : List Text} {config config' : Config}
      → FileLines rest config config'
      → FileLines ([] ∷ rest) config config'
  first_rule :
      {rest : List Text} {config : Config} {rules : List Rule}
      → RuleLines rest default_rule rules
      → FileLines (mark ∷ rest) config (record config { rules = rules })
  top_key :
      {line : Text} {rest : List Text} {config config' : Config} (top : Config)
      → Sets set_top line config top
      → FileLines rest top config'
      → FileLines (line ∷ rest) config config'

-- The configuration is what the file says.
abbrev pub Says : Text → Config → Type 0
Says input config = FileLines (map content (lines input)) default_config config

length-zero : (t : Text) → (length t == 0) ≡ true → t ≡ []
length-zero [] h = refl
length-zero (c ∷ t) h = ground arith

abbrev in_rule : Config → Rule → Parsing
in_rule config rule = record { config = config; rule = some rule }

abbrev at_top : Config → Parsing
at_top config = record { config = config; rule = none }

set_pair-rule :
    (o : Option (Text × Text)) (line : Text) (n : ℕ) (config : Config) (rule : Rule) (q : Parsing)
    → split_once b'=' line ≡ o
    → set_pair o n (in_rule config rule) ≡ ok q
    → (rule' : Rule) × Sets set_rule line rule rule' × (q ≡ in_rule config rule')
set_pair-rule none line n config rule q s h = absurd (cc)
set_pair-rule (some (key, raw)) line n config rule q s h =
    elim (Result-cases (unquote (trim raw) n)) [
      | inr (e, u) ↦ absurd (ground arith)
      | inl (value, u) ↦ elim (Result-cases (set_rule (trim key) value n rule)) [
        | inr (e, v) ↦ absurd (ground arith)
        | inl (rule', v) ↦ (rule', (key, raw, value, n, s, u, v), ground arith)
      ]
    ]

set_pair-top :
    (o : Option (Text × Text)) (line : Text) (n : ℕ) (config : Config) (q : Parsing)
    → split_once b'=' line ≡ o
    → set_pair o n (at_top config) ≡ ok q
    → (top : Config) × Sets set_top line config top × (q ≡ at_top top)
set_pair-top none line n config q s h = absurd (cc)
set_pair-top (some (key, raw)) line n config q s h = elim (Result-cases (unquote (trim raw) n)) [
  | inr (e, u) ↦ absurd (ground arith)
  | inl (value, u) ↦ elim (Result-cases (set_top (trim key) value n config)) [
    | inr (e, v) ↦ absurd (ground arith)
    | inl (top, v) ↦ (top, (key, raw, value, n, s, u, v), ground arith)
  ]
]

set_top-rules :
    (key value : Text) (n : ℕ) (config top : Config)
    → set_top key value n config ≡ ok top
    → top.rules ≡ config.rules
unfolding set_top
set_top-rules key value n config top h = ground arith

parse_content-rule :
    (line : Text) (n : ℕ) (config : Config) (rule : Rule) (q : Parsing)
    → parse_content line n (in_rule config rule) ≡ ok q
    → ((line ≡ []) × (q ≡ in_rule config rule))
      ⊎ (((line ≡ mark)
            × (q ≡ in_rule (record config { rules = config.rules ++ rule ∷ [] }) default_rule))
          ⊎ ((rule' : Rule) × Sets set_rule line rule rule' × (q ≡ in_rule config rule')))
unfolding parse_content
parse_content-rule line n config rule q h = elim (Bool-cases (length line == 0)) [
  | inl e ↦ inl (length-zero line e, ground arith)
  | inr e ↦ elim (Bool-cases (same line mark)) [
    | inl f ↦ inr (inl (same→eq line mark f, ground arith))
    | inr f ↦
        inr (inr (set_pair-rule (split_once b'=' line) line n config rule q refl (ground arith)))
  ]
]

parse_content-top :
    (line : Text) (n : ℕ) (config : Config) (q : Parsing)
    → parse_content line n (at_top config) ≡ ok q
    → ((line ≡ []) × (q ≡ at_top config))
      ⊎ (((line ≡ mark) × (q ≡ in_rule config default_rule))
          ⊎ ((top : Config) × Sets set_top line config top × (q ≡ at_top top)))
unfolding parse_content
parse_content-top line n config q h = elim (Bool-cases (length line == 0)) [
  | inl e ↦ inl (length-zero line e, ground arith)
  | inr e ↦ elim (Bool-cases (same line mark)) [
    | inl f ↦ inr (inl (same→eq line mark f, ground arith))
    | inr f ↦ inr (inr (set_pair-top (split_once b'=' line) line n config q refl (ground arith)))
  ]
]

-- From a line in a rule on, `parse_lines` appends the rules that the lines give.
abbrev RulesRead : List Text → Config → Rule → Parsing → Type 0
RulesRead input config rule q =
    (rules : List Rule) × RuleLines (map content input) rule rules
    × (finish q ≡ record config { rules = config.rules ++ rules })

rules-after_mark :
    (input : List Text) (line : Text) (config : Config) (rule : Rule) (q : Parsing)
    → content line ≡ mark
    → RulesRead input (record config { rules = config.rules ++ rule ∷ [] }) default_rule q
    → RulesRead (line ∷ input) config rule q
rules-after_mark input line config rule q e (rules, l, f) = (
  rule ∷ rules,
  rw e (next_rule l),
  f ∙ ap (λ rs. record config { rules = rs }) (append_assoc config.rules (rule ∷ []) rules),
)

parse_lines-rules :
    (input : List Text) (n : ℕ) (config : Config) (rule : Rule) (q : Parsing)
    → parse_lines input n (in_rule config rule) ≡ ok q
    → RulesRead input config rule q
unfolding parse_lines
parse_lines-rules [] n config rule q h =
    let same_parsing : in_rule config rule ≡ q = cc in
    (rule ∷ [], last_rule, sym (ap finish same_parsing))
parse_lines-rules (line ∷ rest) n config rule q h =
    elim (Result-cases (parse_content (content line) n (in_rule config rule))) [
      | inr (x, e) ↦ absurd (ground arith)
      | inl (p, e) ↦
          let k : parse_lines rest (n + 1) p ≡ ok q = rw e at h in
          elim (parse_content-rule (content line) n config rule p e) [
            | inl (f, g) ↦
                let (rules, l, m) = parse_lines-rules rest (n + 1) config rule q (rw g at k) in
                (rules, rw f (blank_line l), m)
            | inr o ↦ elim o [
              | inl (f, g) ↦
                  rules-after_mark rest line config rule q f
                    (parse_lines-rules rest (n + 1) _ default_rule q (rw g at k))
              | inr (rule', f, g) ↦
                  let (rules, l, m) = parse_lines-rules rest (n + 1) config rule' q (rw g at k) in
                  (rules, rule_key rule' f l, m)
            ]
          ]
    ]

parse_lines-file :
    (input : List Text) (n : ℕ) (config : Config) (q : Parsing)
    → config.rules ≡ []
    → parse_lines input n (at_top config) ≡ ok q
    → FileLines (map content input) config (finish q)
unfolding parse_lines
parse_lines-file [] n config q z h =
    let same_parsing : at_top config ≡ q = cc in rw (sym same_parsing) no_rules
parse_lines-file (line ∷ rest) n config q z h =
    elim (Result-cases (parse_content (content line) n (at_top config))) [
      | inr (x, e) ↦ absurd (ground arith)
      | inl (p, e) ↦
          let k : parse_lines rest (n + 1) p ≡ ok q = rw e at h in
          elim (parse_content-top (content line) n config p e) [
            | inl (f, g) ↦ rw f (blank_top (parse_lines-file rest (n + 1) config q z (rw g at k)))
            | inr o ↦ elim o [
              | inl (f, g) ↦
                  let (rules, l, m) =
                    parse_lines-rules rest (n + 1) config default_rule q (rw g at k) in
                  rw (f, m, z) (first_rule l)
              | inr (top, f, g) ↦
                  let (key, raw, value, number, s, u, v) = f in
                  let bare : top.rules ≡ [] =
                    set_top-rules (trim key) value number config top v ∙ z in
                  top_key top f (parse_lines-file rest (n + 1) top q bare (rw g at k))
            ]
          ]
    ]

validated-same : (c config : Config) → validated c ≡ ok config → c ≡ config
validated-same c config h = elim (Result-cases (validate_config c)) [
  | inl (u, e) ↦ let same_result = rw e at h in cc
  | inr (x, e) ↦ absurd (ground arith)
]

finished-file :
    (input : List Text) (r : Result ConfigError Parsing) (config : Config)
    → parse_lines input 1 empty ≡ r
    → ((r >>= λ p. validated (finish p)) >>= validated) ≡ ok config
    → FileLines (map content input) default_config config
finished-file input (err e) config g h = absurd (cc)
finished-file input (ok p) config g h =
    let same_config = validated-same (finish p) config (sym (validated_twice (finish p)) ∙ h) in
    rw same_config at (parse_lines-file input 1 default_config p refl g)

-- `parse_policy` gives what the file says.
pub parse_policy-Says :
    (input : Text) (config : Config) → parse_policy input ≡ ok config → Says input config
unfolding parse_policy parse
parse_policy-Says input config h =
    finished-file (lines input) (parse_lines (lines input) 1 empty) config refl h
