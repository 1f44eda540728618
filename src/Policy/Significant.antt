-- ===== src/Policy/Significant.antt =====
-- The lines of a policy file that matter, and the line that an error names.
use busd.Prelude.{
  Result-cases, ◌∙◌, ap, sym, Bool-cases, inl, inr, ℕ, ◌+◌, Bool, true, not, ◌≡◌, refl, Option,
  none, some, List, [], ◌∷◌, map, filter, ◌==◌, length, Result, ok, err, ◌>>=◌, if◌then◌else◌,
}
use busd.Protocol.Types.{Text}
use busd.Policy.Config.{Config, ConfigError, validate_config}
use busd.Policy.Parse.{
  Parsing, content, parse_content, parse_lines, finish, empty, parse, parse_policy, validated,
}
use busd.Policy.Lines.{IsPlaced, parse_content-IsPlaced}
use busd.Strings.{lines}

abbrev pub is_written : Text → Bool
is_written line = not (length line == 0)

-- The lines without comments and white space around them, less those that are then empty.
abbrev pub significant : List Text → List Text
significant input = filter is_written (map content input)

-- What is read, when it is read.
abbrev pub accepted : {A : Type 0} → Result ConfigError A → Option A
accepted (ok a) = some a
accepted (err e) = none

abbrev and_then : {A B : Type 0} → Option A → (A → Option B) → Option B
and_then none f = none
and_then (some a) f = f a

abbrev reading : List Text → Parsing → Option Parsing
reading [] p = some p
reading (line ∷ rest) p = and_then (accepted (parse_content line 0 p)) (reading rest)

parse_content_blank :
    (line : Text)
    → (n : ℕ) → (p : Parsing) → (length line == 0) ≡ true
    → parse_content line n p ≡ ok p
unfolding parse_content
parse_content_blank line n p h = rw h refl

module _ (rest : List Text) (n : ℕ)
    (h : (q : Parsing) → accepted (parse_lines rest (n + 1) q) ≡ reading (significant rest) q) where
  written_reading :
      (line : Text)
      → (p : Parsing)
      → accepted (parse_content line n p >>= parse_lines rest (n + 1))
        ≡ reading (line ∷ significant rest) p
  written_reading line p = elim (parse_content-IsPlaced line p) [
    | IsPlaced.fails message k ↦ rw (k n, k 0) refl
    | IsPlaced.gives q k ↦ rw (k n, k 0) (h q)
  ]

  line_reading :
      (line : Text)
      → (p : Parsing)
      → accepted (parse_content line n p >>= parse_lines rest (n + 1))
        ≡ reading (if is_written line then line ∷ significant rest else significant rest) p
  line_reading line p = elim (Bool-cases (length line == 0)) [
    | inl e ↦ rw (parse_content_blank line n p e, e) (h p)
    | inr e ↦ rw e (written_reading line p)
  ]

parse_lines-reading :
    (input : List Text)
    → (n : ℕ) → (p : Parsing) → accepted (parse_lines input n p) ≡ reading (significant input) p
unfolding parse_lines
parse_lines-reading [] n p = refl
parse_lines-reading (line ∷ rest) n p =
    line_reading rest n (parse_lines-reading rest (n + 1)) (content line) p

pub validated_twice : (config : Config) → (validated config >>= validated) ≡ validated config
validated_twice config = elim (Result-cases (validate_config config)) [
  | inl (u, h) ↦ rw (h, h) refl
  | inr (e, h) ↦ rw h refl
]

-- `Config::parse` has already done what `ConfigPolicy::new` does.
validated_again :
    (r : Result ConfigError Parsing)
    → ((r >>= λ p. validated (finish p)) >>= validated) ≡ (r >>= λ p. validated (finish p))
validated_again (ok p) = validated_twice (finish p)
validated_again (err e) = refl

accepted_after :
    (r : Result ConfigError Parsing)
    → accepted (r >>= λ p. validated (finish p))
      ≡ and_then (accepted r) (λ p. accepted (validated (finish p)))
accepted_after (ok p) = refl
accepted_after (err e) = refl

parse_policy-reading :
    (input : Text)
    → accepted (parse_policy input)
      ≡ and_then (reading (significant (lines input)) empty) (λ p. accepted (validated (finish p)))
unfolding parse_policy parse
parse_policy-reading input =
    let r = parse_lines (lines input) 1 empty in
    ap accepted (validated_again r)
    ∙ accepted_after r
    ∙ ap (λ o. and_then o (λ p. accepted (validated (finish p))))
        (parse_lines-reading (lines input) 1 empty)

-- Two policy files with the same lines, less comments, blank lines and white space around a
-- line, are both refused, or give the same policy.
pub parse_policy_alike :
    (input other : Text)
    → significant (lines input) ≡ significant (lines other)
    → accepted (parse_policy input) ≡ accepted (parse_policy other)
parse_policy_alike input other h =
    parse_policy-reading input
    ∙ ap (λ ls. and_then (reading ls empty) (λ p. accepted (validated (finish p)))) h
    ∙ sym (parse_policy-reading other)
