-- ===== src/Daemon/Command/Bounds.antt =====
-- The limits that a command line sets.
use busd.Prelude.{
  arith, ℕ, ◌^◌, ◌<◌, ◌≡◌, refl, Bool, true, false, Bool-cases, inl, inr, Option, none, some, List,
  [], ◌∷◌, ◌==◌, Result, ok, err, reject_if, ok_or, Result-cases, ◌>>=◌, ◌>>◌, if◌then◌else◌,
}
use busd.Order.{bytes_order, same}
use busd.Protocol.Types.{Bytes}
use busd.Protocol.Bytes.{ascii, is_utf8}
use busd.Strings.{parse_unsigned}
use busd.Strings.Bounds.{parse_unsigned_below}
use busd.Daemon.Command.{
  is_allow_all, is_file, health_socket, default_socket, PolicySource, DaemonCommand, Command, Usage,
  default_command, parse_limit, set_policy, set_allow_all, set_limit, set_option, set_options,
  allow_all_option, parse_daemon_command, parse_health_command, parse_command,
}

abbrev pub IsLimit : ℕ → Type 0
IsLimit n = (0 < n) × (n < 2 ^ 64)

abbrev pub IsBounded : DaemonCommand → Type 0
IsBounded c =
    IsLimit c.maximum_frame_size
    × IsLimit c.limits.maximum_queued_bytes
    × IsLimit c.limits.maximum_queued_messages
    × IsLimit c.limits.maximum_in_flight_requests
    × IsLimit c.limits.maximum_subscriptions
    × IsLimit c.limits.maximum_namespace_claims

default_command-IsBounded : IsBounded default_command
default_command-IsBounded =
    let o : (n : ℕ) → 0 < n → n < 2 ^ 64 → IsLimit n = λ n h k. (h, k) in
    (
      o _ (omega arith) (omega arith),
      o _ (omega arith) (omega arith),
      o _ (omega arith) (omega arith),
      o _ (omega arith) (omega arith),
      o _ (omega arith) (omega arith),
      o _ (omega arith) (omega arith),
    )

abbrev given : {A : Type 0} → A → Result Usage A
given a = ok a

number-IsLimit :
    (o : Option ℕ)
    → ((m : ℕ) → o ≡ some m → m < 2 ^ 64)
    → (n : ℕ) → (ok_or o Usage.usage >>= λ m. reject_if (m == 0) Usage.usage >> ok m) ≡ ok n
    → IsLimit n
number-IsLimit none below n h = cc
number-IsLimit (some m) below n h = elim (Bool-cases (m == 0)) [
  | inl e ↦ absurd (cc)
  | inr e ↦
      let small : m < 2 ^ 64 = below m refl in
      let value : ok m ≡ ok n = rw e at h in
      let same_number : m ≡ n = cc in (ground arith, omega arith)
]

parse_limit-IsLimit : (value : Bytes) → (n : ℕ) → parse_limit value ≡ ok n → IsLimit n
unfolding parse_limit
parse_limit-IsLimit value n h = elim (Bool-cases (is_utf8 value)) [
  | inl e ↦
      number-IsLimit (parse_unsigned (2 ^ 64) value)
        (λ m k. parse_unsigned_below (2 ^ 64) value m (omega arith) k) n (rw e at h)
  | inr e ↦ absurd (cc)
]

-- What a test chooses between, both of which give `Q`.
either :
    {Q : Type 0}
    → {A : Type 0} → {r s t : Result Usage A} → (b : Bool) → (r ≡ t → Q)
    → (s ≡ t → Q)
    → (if b then r else s) ≡ t
    → Q
either true f g h = f h
either false f g h = g h

set_limit-IsBounded :
    (value : Bytes)
    → (f : ℕ → DaemonCommand) → ((n : ℕ) → IsLimit n → IsBounded (f n))
    → (d : DaemonCommand) → set_limit value f ≡ ok d
    → IsBounded d
set_limit-IsBounded value f keeps d h = elim (Result-cases (parse_limit value)) [
  | inl (n, e) ↦
      let same_result : given (f n) ≡ ok d = rw e at h in
      let same_command : f n ≡ d = cc in
      rw same_command at (keeps n (parse_limit-IsLimit value n e))
  | inr (u, e) ↦ absurd (cc)
]

IsBounded-ok : (c d : DaemonCommand) → IsBounded c → given c ≡ ok d → IsBounded d
IsBounded-ok c d w h = let same_command : c ≡ d = cc in rw same_command at w

IsBounded-then :
    (r : Result Usage DaemonCommand)
    → (f : DaemonCommand → Result Usage DaemonCommand) → (d : DaemonCommand)
    → ((x : DaemonCommand) → r ≡ ok x → IsBounded x)
    → ((x : DaemonCommand) → IsBounded x → f x ≡ ok d → IsBounded d)
    → (r >>= f) ≡ ok d
    → IsBounded d
IsBounded-then (ok x) f d w k h = k x (w x refl) h
IsBounded-then (err u) f d w k h = absurd (cc)

set_policy-IsBounded :
    (value : Bytes) → (c d : DaemonCommand) → IsBounded c → set_policy value c ≡ ok d → IsBounded d
set_policy-IsBounded value c d w h = elim (Bool-cases (is_allow_all c.policy)) [
  | inl e ↦ absurd (cc)
  | inr e ↦ IsBounded-ok (record c { policy = PolicySource.file value }) d w (rw e at h)
]

set_allow_all-IsBounded : (c d : DaemonCommand) → IsBounded c → set_allow_all c ≡ ok d → IsBounded d
set_allow_all-IsBounded c d w h = elim (Bool-cases (is_file c.policy)) [
  | inl e ↦ absurd (cc)
  | inr e ↦ IsBounded-ok (record c { policy = PolicySource.unsafe_allow_all }) d w (rw e at h)
]

set_option-IsBounded :
    (argument value : Bytes)
    → (c d : DaemonCommand) → IsBounded c
    → set_option argument value c ≡ ok d
    → IsBounded d
unfolding set_option
set_option-IsBounded argument value c d w =
    either (same argument (ascii "--socket")) (IsBounded-ok (record c { socket = value }) d w) (
      either (same argument (ascii "--policy")) (set_policy-IsBounded value c d w) (
        either (same argument (ascii "--maximum-frame-size"))
          (set_limit-IsBounded value _ (λ n b. (b, w.1, w.2, w.3, w.4, w.5)) d)
          (either (same argument (ascii "--maximum-queued-bytes"))
            (set_limit-IsBounded value _ (λ n b. (w.0, b, w.2, w.3, w.4, w.5)) d)
            (either (same argument (ascii "--maximum-queued-messages"))
              (set_limit-IsBounded value _ (λ n b. (w.0, w.1, b, w.3, w.4, w.5)) d)
              (either (same argument (ascii "--maximum-in-flight-requests"))
                (set_limit-IsBounded value _ (λ n b. (w.0, w.1, w.2, b, w.4, w.5)) d)
                (either (same argument (ascii "--maximum-subscriptions"))
                  (set_limit-IsBounded value _ (λ n b. (w.0, w.1, w.2, w.3, b, w.5)) d)
                  (either (same argument (ascii "--maximum-namespace-claims"))
                    (set_limit-IsBounded value _ (λ n b. (w.0, w.1, w.2, w.3, w.4, b)) d)
                    (λ h. cc))))))))

set_options-IsBounded :
    (arguments : List Bytes)
    → (c d : DaemonCommand) → IsBounded c
    → set_options arguments c ≡ ok d
    → IsBounded d
unfolding set_options
set_options-IsBounded [] c d w h = IsBounded-ok c d w h
set_options-IsBounded (argument ∷ []) c d w h =
    either (same argument allow_all_option) (set_allow_all-IsBounded c d w) (λ k. cc) h
set_options-IsBounded (argument ∷ value ∷ rest) c d w h =
    either (same argument allow_all_option)
      (IsBounded-then (set_allow_all c) _ d (λ x. set_allow_all-IsBounded c x w)
        (λ x v k. set_options-IsBounded (value ∷ rest) x d v k))
      (IsBounded-then (set_option argument value c) _ d
        (λ x. set_option-IsBounded argument value c x w)
        (λ x v k. set_options-IsBounded rest x d v k))
      h

parse_daemon_command-IsBounded :
    (arguments : List Bytes)
    → (c : DaemonCommand) → parse_daemon_command arguments ≡ ok (Command.daemon c)
    → IsBounded c
unfolding parse_daemon_command
parse_daemon_command-IsBounded arguments c h =
    elim (Result-cases (set_options arguments default_command)) [
      | inl (d, e) ↦
          let same_result : given (Command.daemon d) ≡ ok (Command.daemon c) = rw e at h in
          let same_command : d ≡ c = cc in
          rw same_command at
            (set_options-IsBounded arguments default_command d default_command-IsBounded e)
      | inr (u, e) ↦ absurd (cc)
    ]

parse_health_command-daemon :
    (arguments : List Bytes)
    → (c : DaemonCommand) → parse_health_command arguments ≡ ok (Command.daemon c)
    → ⊥
unfolding parse_health_command
parse_health_command-daemon arguments c h =
    elim (Result-cases (health_socket arguments default_socket)) [
      | inl (s, e) ↦ cc
      | inr (u, e) ↦ cc
    ]

-- The limits with which a command line starts the daemon are positive and fit in 64 bits: the
-- maximum frame size, and each limit of the broker.
pub parse_command-IsBounded :
    (arguments : List Bytes)
    → (c : DaemonCommand) → parse_command arguments ≡ ok (Command.daemon c)
    → IsBounded c
unfolding parse_command
parse_command-IsBounded [] c h = absurd (cc)
parse_command-IsBounded (command ∷ arguments) c h =
    either (same command (ascii "daemon")) (parse_daemon_command-IsBounded arguments c)
      (either (same command (ascii "health"))
        (λ k. absurd (parse_health_command-daemon arguments c k)) (λ k. absurd (cc)))
      h
