-- ===== src/Protocol/RoundTrip/Names.antt =====
-- Validated names and namespaces.
use busd.Prelude.{
  ◌<◌, ◌≡◌, true, ◌++◌, [], ◌∷◌, some, ok, arith, All, all, All-append, Option-cases, inl, inr,
}
use busd.Protocol.Types.{Bytes, Text, Namespace}
use busd.Protocol.Bytes.{is_utf8, is_utf8-ascii}
use busd.Protocol.Names.{
  validate_name, parse_client_id, parse_channel, strip_prefix, scheme, parse_namespace,
  is_name_byte,
}
use busd.Protocol.Limits.{IsNamespace}
use busd.Protocol.Writer.{push_text, push_name, push_namespace, checked_name}
use busd.Protocol.Reader.{read_text, read_name, read_namespace, read_channel, read_client_id}
use busd.Protocol.RoundTrip.Rules.{Reads, Reads-checked, Reads-then}
use busd.Protocol.RoundTrip.Scalars.{text-Reads}

name_bytes-ascii : (t : Text) → all is_name_byte t ≡ true → All (λ b. b < 128) t
name_bytes-ascii [] h = tt
name_bytes-ascii (b ∷ bs) h = (ground arith, name_bytes-ascii bs (ground arith))

-- A valid name consists of ASCII bytes.
pub validate_name-ascii : (t : Text) → validate_name t ≡ ok tt → All (λ b. b < 128) t
unfolding validate_name
validate_name-ascii t h = name_bytes-ascii t (ground arith)

strip_prefix-append : (p v name : Bytes) → strip_prefix p v ≡ some name → v ≡ p ++ name
unfolding strip_prefix
strip_prefix-append [] v name h = cc
strip_prefix-append (a ∷ p) [] name h = cc
strip_prefix-append (a ∷ p) (b ∷ v) name h = ground (arith, strip_prefix-append p v name)

scheme-ascii : All (λ b. b < 128) scheme
scheme-ascii = omega arith

-- A namespace is its scheme followed by a valid name.
namespace_parts :
    (n : Namespace)
    → IsNamespace n
    → (name : Text) × (n ≡ scheme ++ name) × (validate_name name ≡ ok tt)
unfolding parse_namespace
namespace_parts n h = elim (Option-cases (strip_prefix scheme n)) [
  | inl e ↦ absurd (ground arith)
  | inr (name, e) ↦ (name, strip_prefix-append scheme n name e, ground arith)
]

pub namespace-utf8 : (n : Namespace) → IsNamespace n → is_utf8 n ≡ true
namespace-utf8 n h =
    let (name, e, valid) = namespace_parts n h in
    rw e (
      is_utf8-ascii (scheme ++ name)
        (All-append (λ b. b < 128) scheme name scheme-ascii (validate_name-ascii name valid)))

checked_name-valid : (t : Text) → checked_name t ≡ ok tt → validate_name t ≡ ok tt
unfolding checked_name
checked_name-valid t h = ground arith

valid_name-Reads : (t : Text) → validate_name t ≡ ok tt → Reads (push_text t) read_name t
unfolding read_name
valid_name-Reads t valid =
    Reads-then (push_text t) read_text _ t t
      (text-Reads t (is_utf8-ascii t (validate_name-ascii t valid))) (λ rest. rw valid)

pub name-Reads : (t : Text) → Reads (push_name t) read_name t
unfolding push_name
name-Reads t =
    Reads-checked (checked_name t) (push_text t) read_name t
      λ h. valid_name-Reads t (checked_name-valid t h)

-- `Channel::parse` and `ClientId::parse` accept what `name` has validated.
pub channel-Reads : (t : Text) → Reads (push_name t) read_channel t
unfolding push_name read_channel parse_channel
channel-Reads t = Reads-checked (checked_name t) (push_text t) _ t λ h.
    Reads-then (push_text t) read_name _ t t (valid_name-Reads t (checked_name-valid t h))
      (λ rest. rw (checked_name-valid t h))

pub client_id-Reads : (t : Text) → Reads (push_name t) read_client_id t
unfolding push_name read_client_id parse_client_id
client_id-Reads t = Reads-checked (checked_name t) (push_text t) _ t λ h.
    Reads-then (push_text t) read_name _ t t (valid_name-Reads t (checked_name-valid t h))
      (λ rest. rw (checked_name-valid t h))

pub namespace-Reads : (n : Namespace) → IsNamespace n → Reads (push_namespace n) read_namespace n
unfolding push_namespace read_namespace
namespace-Reads n h =
    Reads-then (push_text n) read_text _ n n (text-Reads n (namespace-utf8 n h)) (λ rest. rw h)
