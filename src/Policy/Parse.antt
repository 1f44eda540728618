-- ===== src/Policy/Parse.antt =====
-- `Config::parse`: policy files.
use busd.Prelude.{
  ℕ, ◌+◌, ◌-◌, Bool, false, not, ◌||◌, Option, none, some, List, [], ◌∷◌, ◌++◌, map, filter, ltb,
  ◌==◌, length, take, drop, Result, ok, err, ◌>>=◌, ◌>>◌, if◌then◌else◌, String,
}
use busd.Order.{bytes_order, same}
use busd.Map.{insert}
use busd.Protocol.Types.{Text}
use busd.Protocol.Bytes.{ascii}
use busd.Protocol.Names.{strip_prefix}
use busd.Policy.Config.{
  Effect, Rule, default_rule, Config, default_config, ConfigError, validate_config, has_prefix,
}
use busd.Strings.{split, split_once, trim, lines, strip_all, backwards, parse_unsigned}

abbrev pub error_at : ℕ → String → ConfigError
error_at line message = record { line = line; message = message }

unfoldable pub parse_effect : Text → ℕ → Result ConfigError Effect
parse_effect value line =
    if same value (ascii "allow")
    then ok Effect.allow
    else if same value (ascii "deny")
    then ok Effect.deny
    else err (error_at line "effect must be allow or deny")

abbrev pub number_or : Option ℕ → ConfigError → Result ConfigError ℕ
number_or none e = err e
number_or (some n) e = ok n

-- `parse_number`, with the text of its error.
abbrev pub parse_number : Text → ℕ → String → Result ConfigError ℕ
parse_number value line message =
    number_or (parse_unsigned 4294967296 value) (error_at line message)

abbrev starts_with : ℕ → Text → Bool
starts_with c [] = false
starts_with c (d ∷ t) = c == d

unfoldable pub unquote : Text → ℕ → Result ConfigError Text
unfolding backwards
unquote value line =
    let opens = starts_with 34 value in
    let closes = starts_with 34 (backwards value) in
    if opens || closes
    then (if ltb (length value) 2 || not opens || not closes
        then err (error_at line "strings must use matching double quotes")
        else ok (take (length value - 2) (drop 1 value)))
    else ok value

-- What has been read: the top level and the finished rules, and the rule that is being read.
pub record Parsing : Type 0 where
  pub config : Config
  pub rule : Option Rule

abbrev push_rule : Option Rule → Config → Config
push_rule none config = config
push_rule (some rule) config = record config { rules = config.rules ++ rule ∷ [] }

abbrev pub start_rule : Parsing → Parsing
start_rule p = record { config = push_rule p.rule p.config; rule = some default_rule }

-- `value.split(',').map(str::trim).filter(|item| !item.is_empty())`
unfoldable pub parse_actions : Text → List Text
parse_actions value = filter (λ item. not (length item == 0)) (map trim (split b',' value))

abbrev pub header_prefix : Text
header_prefix = ascii "header."

-- `trim_start_matches("header.")` removes the prefix as often as it stands there.
unfoldable pub header_name : Text → Text
unfolding strip_all strip_prefix
header_name key = strip_all (strip_prefix header_prefix) (length key) key

unfoldable pub set_header : Text → Text → ℕ → Rule → Result ConfigError Rule
unfolding header_name
set_header key value line rule =
    let name = header_name key in
    if length name == 0
    then err (error_at line "header selector needs a name")
    else ok (record rule { headers = insert name value rule.headers })

-- The keys of a rule.
unfoldable pub set_rule : Text → Text → ℕ → Rule → Result ConfigError Rule
unfolding parse_effect parse_actions set_header strip_prefix
set_rule key value line rule =
    if same key (ascii "effect")
    then (do effect ← parse_effect value line; ok (record rule { effect = some effect }))
    else if same key (ascii "actions")
    then ok (record rule { actions = parse_actions value })
    else if same key (ascii "uid")
    then (do
      n ← parse_number value line "uid must be an unsigned integer"
      ok (record rule { uid = some n }))
    else if same key (ascii "gid")
    then (do
      n ← parse_number value line "gid must be an unsigned integer"
      ok (record rule { gid = some n }))
    else if same key (ascii "executable")
    then ok (record rule { executable = some value })
    else if same key (ascii "security-label")
    then ok (record rule { security_label = some value })
    else if same key (ascii "cgroup")
    then ok (record rule { cgroup = some value })
    else if same key (ascii "client-id")
    then ok (record rule { client_id = some value })
    else if same key (ascii "target")
    then ok (record rule { target = some value })
    else if has_prefix header_prefix key
    then set_header key value line rule
    else err (error_at line "unknown rule key")

-- The keys of the top level.
unfoldable pub set_top : Text → Text → ℕ → Config → Result ConfigError Config
unfolding parse_effect
set_top key value line config =
    if same key (ascii "version")
    then (do
      n ← number_or (parse_unsigned 256 value) (error_at line "version must be an integer")
      ok (record config { version = n }))
    else if same key (ascii "default")
    then (do effect ← parse_effect value line; ok (record config { default = effect }))
    else err (error_at line "unknown top-level key")

abbrev pub set_in : Option Rule → Text → Text → ℕ → Config → Result ConfigError Parsing
set_in none key value line config = do
  config' ← set_top key value line config
  ok (record { config = config'; rule = none })
set_in (some rule) key value line config = do
  rule' ← set_rule key value line rule
  ok (record { config = config; rule = some rule' })

abbrev pub set_pair : Option (Text × Text) → ℕ → Parsing → Result ConfigError Parsing
set_pair none line p = err (error_at line "expected key = value")
set_pair (some (key, raw)) line p = do
  value ← unquote (trim raw) line
  set_in p.rule (trim key) value line p.config

abbrev before : Text → Option (Text × Text) → Text
before line none = line
before line (some (start, rest)) = start

-- `split_once('#').map_or(raw_line, |(line, _)| line).trim()`
unfoldable pub content : Text → Text
content raw_line = trim (before raw_line (split_once b'#' raw_line))

-- A line without its comment and the white space around it.
unfoldable pub parse_content : Text → ℕ → Parsing → Result ConfigError Parsing
unfolding set_top set_rule unquote
parse_content line number p =
    if length line == 0
    then ok p
    else if same line (ascii "[[rule]]")
    then ok (start_rule p)
    else set_pair (split_once b'=' line) number p

unfoldable pub parse_lines : List Text → ℕ → Parsing → Result ConfigError Parsing
unfolding parse_content content
parse_lines [] number p = ok p
parse_lines (line ∷ rest) number p = do
  q ← parse_content (content line) number p
  parse_lines rest (number + 1) q

abbrev pub finish : Parsing → Config
finish p = push_rule p.rule p.config

abbrev pub validated : Config → Result ConfigError Config
validated config = do validate_config config; ok config

abbrev pub empty : Parsing
empty = record { config = default_config; rule = none }

unfoldable pub parse : Text → Result ConfigError Config
unfolding parse_lines
parse input = do p ← parse_lines (lines input) 1 empty; validated (finish p)

-- `ConfigPolicy::new` and `ConfigPolicy::parse`, which validates once more.
unfoldable pub parse_policy : Text → Result ConfigError Config
unfolding parse
parse_policy input = do config ← parse input; validated config
