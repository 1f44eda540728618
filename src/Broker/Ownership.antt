-- ===== src/Broker/Ownership.antt =====
-- Who may claim a namespace, and what a claim changes.
use busd.Prelude.{
  Option-cases, inl, inr, refl, ◌<◌, ◌≡◌, Bool, true, false, none, some, arith, ok, err, Result,
  if◌then◌else◌, ◌&&◌,
}
use busd.Order.{nat_order, bytes_order, same}
use busd.Map.{get}
use busd.Map.Laws.{get-insert}
use busd.Protocol.Types.{PeerId, Namespace}
use busd.Policy.{Action}
use busd.Broker.Types.{Broker, Peer}
use busd.Broker.Session.{authorize, authorize_hello, record_monitor}
use busd.Broker.Quotas.{owned, claims_of-owned}
use busd.Broker.Registry.{claim, claim_quota, add_claim}

abbrev pub is_ok {ℓ κ} : {E : Type ℓ} {A : Type κ} → Result E A → Bool
is_ok (ok a) = true
is_ok (err e) = false

-- The policy of `b` allows the peer to claim the namespace: it is asked about the credentials with
-- which the peer connected and the identifier and headers that it claimed then.
abbrev pub IsAllowed : PeerId → Namespace → Broker → Type 0
IsAllowed peer namespace b =
    (p : Peer) × (get peer b.peers ≡ some p)
    × (b.policy (record {
      credentials = p.credentials;
      client_id = p.hello.client_id;
      claimed_headers = p.hello.headers;
      action = Action.claim_namespace namespace;
    })
        ≡ true)

-- `peer` may claim `namespace` in `b`.
pub record MayClaim (peer : PeerId) (namespace : Namespace) (b : Broker) : Type 0 where
  pub allowed : IsAllowed peer namespace b
  pub below_quota : owned peer b.namespaces < b.limits.maximum_namespace_claims
  pub free : get namespace b.namespaces ≡ none

authorize-IsAllowed :
    (peer : PeerId) (namespace : Namespace) (b : Broker)
    → authorize b peer (Action.claim_namespace namespace) ≡ ok tt
    → IsAllowed peer namespace b
unfolding authorize authorize_hello
authorize-IsAllowed peer namespace b h = elim (Option-cases (get peer b.peers)) [
  | inl q ↦ absurd (ground arith)
  | inr (p, q) ↦ (p, q, ground arith)
]

IsAllowed-authorize :
    (peer : PeerId) (namespace : Namespace) (b : Broker)
    → IsAllowed peer namespace b
    → authorize b peer (Action.claim_namespace namespace) ≡ ok tt
unfolding authorize authorize_hello
IsAllowed-authorize peer namespace b (p, q, h) = rw (q, h) refl

-- A claim succeeds exactly when the policy allows it to the peer, by the credentials, identifier and
-- headers with which the peer connected, the peer holds fewer namespaces than the quota, and nobody
-- owns the namespace.
pub claim_succeeds :
    (peer : PeerId) (namespace : Namespace) (b : Broker)
    → (MayClaim peer namespace b → (claim peer namespace b).0 ≡ ok tt)
      × ((claim peer namespace b).0 ≡ ok tt → MayClaim peer namespace b)
unfolding claim claim_quota
claim_succeeds peer namespace b = (
  λ m.
      let a : authorize b peer (Action.claim_namespace namespace) ≡ ok tt =
        IsAllowed-authorize peer namespace b m.allowed in
      ground (arith, m.below_quota, m.free, claims_of-owned peer b.namespaces),
  λ e.
      let a : authorize b peer (Action.claim_namespace namespace) ≡ ok tt = ground arith in
      record {
        allowed = authorize-IsAllowed peer namespace b a;
        below_quota = ground (arith, claims_of-owned peer b.namespaces);
        free = ground arith;
      },
)

-- After a claim, successful or refused, each namespace has the owner it had, except that a
-- successful claim makes the peer the owner of the namespace it claimed.
pub claim_owners :
    (peer : PeerId) (namespace n : Namespace) (b : Broker)
    → get n (claim peer namespace b).1.namespaces ≡ (
        if is_ok (claim peer namespace b).0 && same n namespace
        then some peer
        else get n b.namespaces)
unfolding claim add_claim record_monitor
claim_owners peer namespace n b = ground (arith, get-insert n namespace peer b.namespaces)
