-- ===== src/Policy/Samples.antt =====
-- Policy files to try.
use busd.Prelude.{◌≡◌, ◌⊎◌, ℕ, refl, some, [], ◌∷◌, ok, err}
use busd.Protocol.Types.{Text}
use busd.Protocol.Bytes.{ascii}
use busd.Policy.Parse.{content, error_at, empty, parse_policy}
use busd.Policy.Config.{
  is_known_action, validate_actions, validate_config, validate_rules, Effect, Config, ConfigError,
  default_rule, default_config,
}
use busd.Policy.Significant.{significant, accepted, parse_policy_alike}
use busd.Policy.Errors.{InvalidAfter, StopsAfter, parse_policy_stops}
use busd.Strings.{parse_unsigned, split_once, strip_last, strip_space, trim, lines}

abbrev plain_file : Text
plain_file = ascii "version = 1\n[[rule]]\neffect = allow\nactions = connect, publish\nuid = 7\n"

abbrev commented_file : Text
commented_file =
    ascii
      "# users\nversion = 1 # first\n\n  [[rule]]\neffect = allow\r\n  actions = connect, publish\n\tuid = 7"

abbrev one_rule : Config
one_rule = record {
  version = 1;
  default = Effect.deny;
  rules =
      record default_rule {
        effect = some Effect.allow;
        actions = ascii "connect" ∷ ascii "publish" ∷ [];
        uid = some 7;
      }
      ∷ [];
}

plain_file_test : parse_policy plain_file ≡ ok one_rule
unfolding parse_policy lines trim split_once strip_space strip_last parse_unsigned validate_config
    validate_rules validate_actions is_known_action
plain_file_test = refl

same_lines : significant (lines plain_file) ≡ significant (lines commented_file)
unfolding lines content split_once trim strip_space strip_last
same_lines = refl

parse_policy_alike_example :
    accepted (parse_policy plain_file) ≡ accepted (parse_policy commented_file)
parse_policy_alike_example = parse_policy_alike plain_file commented_file same_lines

abbrev broken_file : Text
broken_file = ascii "version = 1\n# rules\n[[rule]]\nuid = me\n"

abbrev broken : ConfigError
broken = error_at 4 "uid must be an unsigned integer"

broken_file_test : parse_policy broken_file ≡ err broken
unfolding parse_policy lines trim split_once strip_space strip_last parse_unsigned
broken_file_test = refl

parse_policy_stops_example :
    InvalidAfter (lines broken_file) broken
    ⊎ ((k : ℕ) × StopsAfter (lines broken_file) 1 empty broken k)
parse_policy_stops_example = parse_policy_stops broken_file broken broken_file_test

-- A file need not have a line for its version.
empty_file_test : parse_policy [] ≡ ok default_config
unfolding parse_policy lines validate_config validate_rules
empty_file_test = refl
