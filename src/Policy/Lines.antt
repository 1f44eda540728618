-- ===== src/Policy/Lines.antt =====
-- The lines of a policy file: what an error of `Config::parse` names, and what a configuration
-- depends on.
use busd.Prelude.{
  ℕ, Bool, true, false, ◌≡◌, refl, Option, none, some, ◌==◌, length, Result, ok, err, ◌>>=◌,
  if◌then◌else◌, String,
}
use busd.Order.{bytes_order, same}
use busd.Protocol.Types.{Text}
use busd.Protocol.Bytes.{ascii}
use busd.Policy.Config.{Effect, Rule, Config, ConfigError, has_prefix}
use busd.Policy.Parse.{
  header_prefix, error_at, parse_effect, number_or, unquote, Parsing, start_rule, set_header,
  set_rule, set_top, set_in, set_pair, parse_content,
}
use busd.Strings.{split_once, trim}

-- A reading of one line: the line's number stands in its error and nowhere else.
pub data IsPlaced {A : Type 0} (f : ℕ → Result ConfigError A) : Type 0 where
  fails : (message : String) → ((n : ℕ) → f n ≡ err (error_at n message)) → IsPlaced f
  gives : (a : A) → ((n : ℕ) → f n ≡ ok a) → IsPlaced f

IsPlaced-ok : {A : Type 0} → (a : A) → IsPlaced (λ n. ok a)
IsPlaced-ok a = gives a (λ n. refl)

IsPlaced-err : {A : Type 0} → (message : String) → IsPlaced {A = A} (λ n. err (error_at n message))
IsPlaced-err message = fails message (λ n. refl)

IsPlaced-if :
    {A : Type 0}
    → {f g : ℕ → Result ConfigError A} → (b : Bool) → IsPlaced f
    → IsPlaced g
    → IsPlaced (λ n. if b then f n else g n)
IsPlaced-if true p q = p
IsPlaced-if false p q = q

IsPlaced-after :
    {A B : Type 0}
    → {f : ℕ → Result ConfigError A} → (g : A → ℕ → Result ConfigError B) → (a : A)
    → ((n : ℕ) → f n ≡ ok a)
    → IsPlaced (g a)
    → IsPlaced (λ n. f n >>= λ x. g x n)
IsPlaced-after g a h (fails message k) = fails message (λ n. rw (h n) (k n))
IsPlaced-after g a h (gives b k) = gives b (λ n. rw (h n) (k n))

IsPlaced-then :
    {A B : Type 0}
    → {f : ℕ → Result ConfigError A} → (g : A → ℕ → Result ConfigError B) → IsPlaced f
    → ((a : A) → IsPlaced (g a))
    → IsPlaced (λ n. f n >>= λ x. g x n)
IsPlaced-then g (fails message h) q = fails message (λ n. rw (h n) refl)
IsPlaced-then g (gives a h) q = IsPlaced-after g a h (q a)

parse_effect-IsPlaced : (value : Text) → IsPlaced (parse_effect value)
unfolding parse_effect
parse_effect-IsPlaced value = IsPlaced-if (same value (ascii "allow")) (IsPlaced-ok Effect.allow) (
    IsPlaced-if (same value (ascii "deny")) (IsPlaced-ok Effect.deny)
      (IsPlaced-err "effect must be allow or deny"))

number_or-IsPlaced :
    (o : Option ℕ) → (message : String) → IsPlaced (λ n. number_or o (error_at n message))
number_or-IsPlaced none message = IsPlaced-err message
number_or-IsPlaced (some n) message = IsPlaced-ok n

unquote-IsPlaced : (value : Text) → IsPlaced (unquote value)
unfolding unquote
unquote-IsPlaced value =
    IsPlaced-if _
      (IsPlaced-if _ (IsPlaced-err "strings must use matching double quotes") (IsPlaced-ok _))
      (IsPlaced-ok value)

set_header-IsPlaced :
    (key value : Text) → (rule : Rule) → IsPlaced (λ n. set_header key value n rule)
unfolding set_header
set_header-IsPlaced key value rule =
    IsPlaced-if _ (IsPlaced-err "header selector needs a name") (IsPlaced-ok _)

set_rule-IsPlaced : (key value : Text) → (rule : Rule) → IsPlaced (λ n. set_rule key value n rule)
unfolding set_rule
set_rule-IsPlaced key value rule =
    IsPlaced-if (same key (ascii "effect"))
      (IsPlaced-then _ (parse_effect-IsPlaced value) (λ a. IsPlaced-ok _))
      (IsPlaced-if (same key (ascii "actions")) (IsPlaced-ok _) (
        IsPlaced-if (same key (ascii "uid"))
          (IsPlaced-then _ (number_or-IsPlaced _ "uid must be an unsigned integer")
            (λ a. IsPlaced-ok _))
          (IsPlaced-if (same key (ascii "gid"))
            (IsPlaced-then _ (number_or-IsPlaced _ "gid must be an unsigned integer")
              (λ a. IsPlaced-ok _))
            (IsPlaced-if (same key (ascii "executable")) (IsPlaced-ok _) (
              IsPlaced-if (same key (ascii "security-label")) (IsPlaced-ok _) (
                IsPlaced-if (same key (ascii "cgroup")) (IsPlaced-ok _) (
                  IsPlaced-if (same key (ascii "client-id")) (IsPlaced-ok _) (
                    IsPlaced-if (same key (ascii "target")) (IsPlaced-ok _) (
                      IsPlaced-if (has_prefix header_prefix key)
                        (set_header-IsPlaced key value rule)
                        (IsPlaced-err "unknown rule key"))))))))))

set_top-IsPlaced :
    (key value : Text) → (config : Config) → IsPlaced (λ n. set_top key value n config)
unfolding set_top
set_top-IsPlaced key value config =
    IsPlaced-if (same key (ascii "version"))
      (IsPlaced-then _ (number_or-IsPlaced _ "version must be an integer") (λ a. IsPlaced-ok _))
      (IsPlaced-if (same key (ascii "default"))
        (IsPlaced-then _ (parse_effect-IsPlaced value) (λ a. IsPlaced-ok _))
        (IsPlaced-err "unknown top-level key"))

set_in-IsPlaced :
    (o : Option Rule)
    → (key value : Text) → (config : Config) → IsPlaced (λ n. set_in o key value n config)
set_in-IsPlaced none key value config =
    IsPlaced-then _ (set_top-IsPlaced key value config) (λ a. IsPlaced-ok _)
set_in-IsPlaced (some rule) key value config =
    IsPlaced-then _ (set_rule-IsPlaced key value rule) (λ a. IsPlaced-ok _)

set_pair-IsPlaced : (o : Option (Text × Text)) → (p : Parsing) → IsPlaced (λ n. set_pair o n p)
set_pair-IsPlaced none p = IsPlaced-err "expected key = value"
set_pair-IsPlaced (some (key, raw)) p =
    IsPlaced-then _ (unquote-IsPlaced (trim raw))
      (λ value. set_in-IsPlaced p.rule (trim key) value p.config)

pub parse_content-IsPlaced : (line : Text) → (p : Parsing) → IsPlaced (λ n. parse_content line n p)
unfolding parse_content
parse_content-IsPlaced line p = IsPlaced-if (length line == 0) (IsPlaced-ok p) (
    IsPlaced-if (same line (ascii "[[rule]]")) (IsPlaced-ok (start_rule p))
      (set_pair-IsPlaced (split_once b'=' line) p))
