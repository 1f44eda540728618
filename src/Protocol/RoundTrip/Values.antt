-- ===== src/Protocol/RoundTrip/Values.antt =====
-- Header values, delivery options and destinations.
use busd.Prelude.{ℕ, ◌≡◌, refl, true, false, arith, Bool-cases, inl, inr, ◌==◌, ◌&&◌, not, leb}
use busd.Protocol.Types.{
  HeaderValue, text, unsigned, boolean, binary, AckRequirement, RetryPolicy, Destination,
}
use busd.Protocol.Limits.{IsValue, IsRequirement, IsRetry, IsDestination, IsU64}
use busd.Protocol.Tags.{client_selection_tag}
use busd.Protocol.Writer.{
  ◌⊕◌, push_u8, push_u16, push_u32, push_u64, push_text, push_binary, push_name, push_namespace,
  push_value, push_ack_requirement, push_retry_policy, push_destination,
}
use busd.Protocol.Reader.{
  read_u8, read_u16, read_u32, read_u64, read_text, read_binary, read_value, read_ack_requirement,
  read_retry_policy, read_destination, read_peer_id, read_namespace, read_channel, read_client_id,
}
use busd.Protocol.RoundTrip.Rules.{Reads, Reads-bind, Reads-then}
use busd.Protocol.RoundTrip.Scalars.{
  u8-Reads, u16-Reads, u32-Reads, u64-Reads, text-Reads, binary-Reads,
}
use busd.Protocol.RoundTrip.Names.{namespace-Reads, channel-Reads, client_id-Reads}
use busd.Protocol.RoundTrip.Tags.{decode_client_selection-client_selection_tag}

pub value-Reads : (v : HeaderValue) → IsValue v → Reads (push_value v) read_value v
unfolding push_value read_value
value-Reads (text t) h =
    Reads-bind (push_u8 0) (push_text t) read_u8 _ 0 (text t) (u8-Reads 0)
      (Reads-then (push_text t) read_text _ t (text t) (text-Reads t h) (λ rest. refl))
value-Reads (unsigned n) h =
    Reads-bind (push_u8 1) (push_u64 n) read_u8 _ 1 (unsigned n) (u8-Reads 1)
      (Reads-then (push_u64 n) read_u64 _ n (unsigned n) (u64-Reads n h) (λ rest. refl))
value-Reads (boolean false) h =
    Reads-bind (push_u8 2) (push_u8 0) read_u8 _ 2 (boolean false) (u8-Reads 2)
      (Reads-then (push_u8 0) read_u8 _ 0 (boolean false) (u8-Reads 0) (λ rest. refl))
value-Reads (boolean true) h =
    Reads-bind (push_u8 2) (push_u8 1) read_u8 _ 2 (boolean true) (u8-Reads 2)
      (Reads-then (push_u8 1) read_u8 _ 1 (boolean true) (u8-Reads 1) (λ rest. refl))
value-Reads (binary bs) h =
    Reads-bind (push_u8 3) (push_binary bs) read_u8 _ 3 (binary bs) (u8-Reads 3)
      (Reads-then (push_binary bs) read_binary _ bs (binary bs) (binary-Reads bs) (λ rest. refl))

pub peer_id-Reads : (id : ℕ) → IsU64 id → (id == 0) ≡ false → Reads (push_u64 id) read_peer_id id
unfolding read_peer_id
peer_id-Reads id h k = Reads-then (push_u64 id) read_u64 _ id id (u64-Reads id h) (λ rest. rw k)

pub requirement-Reads :
    (r : AckRequirement) → IsRequirement r → Reads (push_ack_requirement r) read_ack_requirement r
unfolding push_ack_requirement read_ack_requirement
requirement-Reads AckRequirement.none h =
    Reads-then (push_u8 0) read_u8 _ 0 AckRequirement.none (u8-Reads 0) (λ rest. refl)
requirement-Reads AckRequirement.any_of h =
    Reads-then (push_u8 1) read_u8 _ 1 AckRequirement.any_of (u8-Reads 1) (λ rest. refl)
requirement-Reads AckRequirement.all_of h =
    Reads-then (push_u8 2) read_u8 _ 2 AckRequirement.all_of (u8-Reads 2) (λ rest. refl)
requirement-Reads (AckRequirement.minimum n) h = elim (Bool-cases (n == 0)) [
  | inl e ↦ rw e (record { at = λ code p rest. cc })
  | inr e ↦ rw e (
      Reads-bind (push_u8 3) (push_u16 n) read_u8 _ 3 (AckRequirement.minimum n) (u8-Reads 3) (
        Reads-then (push_u16 n) read_u16 _ n (AckRequirement.minimum n) (u16-Reads n h)
          (λ rest. rw e)))
]

pub retry-Reads : (r : RetryPolicy) → IsRetry r → Reads (push_retry_policy r) read_retry_policy r
unfolding push_retry_policy read_retry_policy
retry-Reads RetryPolicy.none h =
    Reads-then (push_u8 0) read_u8 _ 0 RetryPolicy.none (u8-Reads 0) (λ rest. refl)
retry-Reads (RetryPolicy.exponential b n) h = elim (Bool-cases (not (b == 0) && leb 2 n)) [
  | inl e ↦
      let r = RetryPolicy.exponential b n in
      rw e (
        Reads-bind (push_u8 1) (push_u32 b ⊕ push_u8 n) read_u8 _ 1 r (u8-Reads 1) (
          Reads-bind (push_u32 b) (push_u8 n) read_u32 _ b r (u32-Reads b h)
            (Reads-then (push_u8 n) read_u8 _ n r (u8-Reads n) (λ rest. ground arith))))
  | inr e ↦ rw e (record { at = λ code p rest. cc })
]

pub destination-Reads :
    (d : Destination) → IsDestination d → Reads (push_destination d) read_destination d
unfolding push_destination read_destination
destination-Reads Destination.broker h =
    Reads-then (push_u8 0) read_u8 _ 0 Destination.broker (u8-Reads 0) (λ rest. refl)
destination-Reads (Destination.peer id) h = elim (Bool-cases (id == 0)) [
  | inl e ↦ rw e (record { at = λ code p rest. cc })
  | inr e ↦ rw e (
      Reads-bind (push_u8 1) (push_u64 id) read_u8 _ 1 (Destination.peer id) (u8-Reads 1) (
        Reads-then (push_u64 id) read_peer_id _ id (Destination.peer id) (peer_id-Reads id h e)
          (λ rest. refl)))
]
destination-Reads (Destination.namespace n) h =
    Reads-bind (push_u8 2) (push_namespace n) read_u8 _ 2 (Destination.namespace n) (u8-Reads 2) (
      Reads-then (push_namespace n) read_namespace _ n (Destination.namespace n)
        (namespace-Reads n h) (λ rest. refl))
destination-Reads (Destination.channel n) h =
    Reads-bind (push_u8 3) (push_name n) read_u8 _ 3 (Destination.channel n) (u8-Reads 3) (
      Reads-then (push_name n) read_channel _ n (Destination.channel n) (channel-Reads n)
        (λ rest. refl))
destination-Reads Destination.broadcast h =
    Reads-then (push_u8 4) read_u8 _ 4 Destination.broadcast (u8-Reads 4) (λ rest. refl)
destination-Reads (Destination.client_id n s) h =
    let d = Destination.client_id n s in
    let tag = client_selection_tag s in
    Reads-bind (push_u8 5) (push_name n ⊕ push_u8 tag) read_u8 _ 5 d (u8-Reads 5) (
      Reads-bind (push_name n) (push_u8 tag) read_client_id _ n d (client_id-Reads n) (
        Reads-then (push_u8 tag) read_u8 _ tag d (u8-Reads tag)
          (λ rest. rw decode_client_selection-client_selection_tag)))
