-- ===== src/Protocol/RoundTrip/Frames.antt =====
-- The body of each frame kind.
use busd.Prelude.{List, ℕ, ◌≡◌, refl, ok, Option, none, some, Bool-cases, inl, inr, ◌==◌}
use busd.Protocol.Types.{
  Bytes, ClientId, PeerId, MessageId, Namespace, Channel, Headers, Capabilities, HeaderFilter,
  DeliveryOutcome, Message, Frame, hello, welcome, message, acknowledge, delivery_result,
  protocol_error, control_result, resolve_namespace, namespace_resolved, FrameLimits, AckPolicy,
}
use busd.Protocol.Tags.{
  Codec, message_kind_tag, ack_policy_tag, request_policy_tag, delivery_outcome_tag, status_tag,
  protocol_error_code_tag, control_operation_tag, decode_message_kind, decode_ack_policy,
  decode_request_policy, decode_delivery_outcome, decode_status, decode_protocol_error_code,
  decode_control_operation,
}
use busd.Protocol.Limits.{IsFrame, IsMessage, IsOwner, IsMessageId}
use busd.Protocol.Writer.{
  Written, ◌⊕◌, push_u8, push_u32, push_u64, push_text, push_name, push_namespace, push_binary,
  push_ack_requirement, push_retry_policy, push_headers, push_capabilities, push_filters,
  push_destination,
}
use busd.Protocol.Reader.{
  Reader, ◌>>=◌, lift, read_u8, read_u32, read_text, read_binary, read_headers, read_capabilities,
  read_filters, read_namespace, read_channel, read_client_id, read_peer_id, read_array_16,
  read_ack_requirement, read_retry_policy, read_destination,
}
use busd.Protocol.Encode.{
  push_client_id, push_owner, push_message, encode_body, frame_kind, message_check, peer_id_check,
  acknowledgement_check, message_id_check,
}
use busd.Protocol.Decode.{
  read_hello_client, read_owner, decode_hello, decode_welcome, decode_claim, decode_subscribe,
  decode_unsubscribe, decode_message, decode_acknowledge, decode_delivery_result,
  decode_protocol_error, decode_control_result, decode_resolve_namespace, decode_namespace_resolved,
  decode_body,
}
use busd.Protocol.RoundTrip.Rules.{
  Reads, Reads-checked, Reads-bind, Reads-then, Reads-lift, not_rejected,
}
use busd.Protocol.RoundTrip.Scalars.{
  u8-Reads, u32-Reads, text-Reads, binary-Reads, take_bytes-Reads,
}
use busd.Protocol.RoundTrip.Names.{channel-Reads, client_id-Reads, namespace-Reads}
use busd.Protocol.RoundTrip.Values.{
  peer_id-Reads, requirement-Reads, retry-Reads, destination-Reads,
}
use busd.Protocol.RoundTrip.Collections.{headers-Reads, capabilities-Reads}
use busd.Protocol.RoundTrip.Filters.{filters-Reads}
use busd.Protocol.RoundTrip.Tags.{
  decode_message_kind-message_kind_tag, decode_ack_policy-ack_policy_tag,
  decode_request_policy-request_policy_tag, decode_delivery_outcome-delivery_outcome_tag,
  decode_status-status_tag, decode_protocol_error_code-protocol_error_code_tag,
  decode_control_operation-control_operation_tag,
}

array_16-Reads : (id : Bytes) → IsMessageId id → Reads (ok id) read_array_16 id
unfolding read_array_16
array_16-Reads id h = take_bytes-Reads 16 id h

-- A tag byte and what follows it.
module _ {A B : Type 0} (t : ℕ) (decode : ℕ → Codec A) (x : A) (tag : decode t ≡ ok x) where
  tag-Reads :
      (e : Written) (f : A → Reader B) (b : B)
      → Reads e (f x) b
      → Reads (push_u8 t ⊕ e) (read_u8 >>= λ v. lift (decode v) >>= f) b
  tag-Reads e f b h =
      Reads-bind (push_u8 t) e read_u8 (λ v. lift (decode v) >>= f) t b (u8-Reads t)
        (Reads-lift (decode t) e f x b tag h)

  last_tag-Reads :
      (f : A → Reader B) (b : B)
      → ((rest : Bytes) → f x rest ≡ ok (b, rest))
      → Reads (push_u8 t) (read_u8 >>= λ v. lift (decode v) >>= f) b
  last_tag-Reads f b h =
      Reads-then (push_u8 t) read_u8 (λ v. lift (decode v) >>= f) t b (u8-Reads t)
        (λ rest. rw (tag, ◌>>=◌) (h rest))

hello_client-Reads : (id : Option ClientId) → Reads (push_client_id id) read_hello_client id
unfolding push_client_id read_hello_client
hello_client-Reads none = Reads-then (push_u8 0) read_u8 _ 0 none (u8-Reads 0) (λ rest. refl)
hello_client-Reads (some id) =
    Reads-bind (push_u8 1) (push_name id) read_u8 _ 1 (some id) (u8-Reads 1)
      (Reads-then (push_name id) read_client_id _ id (some id) (client_id-Reads id) (λ rest. refl))

owner-Reads : (id : Option PeerId) → IsOwner id → Reads (push_owner id) read_owner id
unfolding push_owner read_owner
owner-Reads none h = Reads-then (push_u8 0) read_u8 _ 0 none (u8-Reads 0) (λ rest. refl)
owner-Reads (some id) h = elim (Bool-cases (id == 0)) [
  | inl e ↦ rw e (record { at = λ code p rest. cc })
  | inr e ↦ rw e (
      Reads-bind (push_u8 1) (push_u64 id) read_u8 _ 1 (some id) (u8-Reads 1) (
        Reads-then (push_u64 id) read_peer_id _ id (some id) (peer_id-Reads id h e) (λ rest. refl)))
]

message-Reads :
    (m : Message) (limits : FrameLimits)
    → IsMessage m
    → Reads (push_message m limits) (decode_message limits) (message m)
unfolding push_message decode_message
message-Reads m limits h = Reads-checked (message_check m) _ _ (message m) λ c.
    tag-Reads (message_kind_tag m.kind) decode_message_kind m.kind
      (decode_message_kind-message_kind_tag m.kind) _ _ (message m)
      (tag-Reads (ack_policy_tag m.ack_policy) decode_ack_policy m.ack_policy
        (decode_ack_policy-ack_policy_tag m.ack_policy) _ _ (message m)
        (Reads-bind (push_ack_requirement m.ack_requirement) _ read_ack_requirement _
          m.ack_requirement (message m) (requirement-Reads m.ack_requirement h.requirement)
          (tag-Reads (request_policy_tag m.request_policy) decode_request_policy m.request_policy
            (decode_request_policy-request_policy_tag m.request_policy) _ _ (message m)
            (Reads-bind (push_u32 m.deadline_ms) _ read_u32 _ m.deadline_ms (message m)
              (u32-Reads m.deadline_ms h.deadline)
              (Reads-bind (push_retry_policy m.retry) _ read_retry_policy _ m.retry (message m)
                (retry-Reads m.retry h.retry)
                (Reads-bind (push_destination m.destination) _ read_destination _ m.destination
                  (message m) (destination-Reads m.destination h.destination)
                  (Reads-bind (ok m.message_id) _ read_array_16 _ m.message_id (message m)
                    (array_16-Reads m.message_id h.message_id)
                    (Reads-bind (ok m.correlation_id) _ read_array_16 _ m.correlation_id (message m)
                      (array_16-Reads m.correlation_id h.correlation_id)
                      (tag-Reads (status_tag m.status) decode_status m.status
                        (decode_status-status_tag m.status) _ _ (message m)
                        (rw c (
                          Reads-bind (push_headers m.headers limits) _ (read_headers limits) _
                            m.headers (message m) (headers-Reads m.headers limits h.headers)
                            (Reads-then (push_binary m.payload) read_binary _ m.payload (message m)
                              (binary-Reads m.payload) (λ rest. refl)))))))))))))

hello-Reads :
    (id : Option ClientId) (hs : Headers) (cs : Capabilities) (limits : FrameLimits)
    → IsFrame (hello id hs cs)
    → Reads (encode_body (hello id hs cs) limits) (decode_hello limits) (hello id hs cs)
unfolding encode_body decode_hello
hello-Reads id hs cs limits h =
    Reads-bind (push_client_id id) _ read_hello_client _ id (hello id hs cs) (hello_client-Reads id)
      (Reads-bind (push_headers hs limits) _ (read_headers limits) _ hs (hello id hs cs)
        (headers-Reads hs limits h.0)
        (Reads-then (push_capabilities cs limits) (read_capabilities limits) _ cs (hello id hs cs)
          (capabilities-Reads cs limits h.1) (λ rest. refl)))

welcome-Reads :
    (id : PeerId) (cs : Capabilities) (limits : FrameLimits)
    → IsFrame (welcome id cs)
    → Reads (encode_body (welcome id cs) limits) (decode_welcome limits) (welcome id cs)
unfolding encode_body decode_welcome
welcome-Reads id cs limits h = Reads-checked (peer_id_check id) _ _ (welcome id cs) λ c.
    Reads-bind (push_u64 id) _ read_peer_id _ id (welcome id cs)
      (peer_id-Reads id h.0 (not_rejected (id == 0) _ c))
      (Reads-then (push_capabilities cs limits) (read_capabilities limits) _ cs (welcome id cs)
        (capabilities-Reads cs limits h.1) (λ rest. refl))

claim-Reads :
    (n : Namespace) (hs : Headers) (limits : FrameLimits)
    → IsFrame (Frame.claim n hs)
    → Reads (encode_body (Frame.claim n hs) limits) (decode_claim limits) (Frame.claim n hs)
unfolding encode_body decode_claim
claim-Reads n hs limits h =
    Reads-bind (push_namespace n) _ read_namespace _ n (Frame.claim n hs) (namespace-Reads n h.0) (
      Reads-then (push_headers hs limits) (read_headers limits) _ hs (Frame.claim n hs)
        (headers-Reads hs limits h.1) (λ rest. refl))

subscribe-Reads :
    (n : Channel) (fs : List HeaderFilter) (limits : FrameLimits)
    → IsFrame (Frame.subscribe n fs)
    → Reads
        (encode_body (Frame.subscribe n fs) limits)
        (decode_subscribe limits)
        (Frame.subscribe n fs)
unfolding encode_body decode_subscribe
subscribe-Reads n fs limits h =
    Reads-bind (push_name n) _ read_channel _ n (Frame.subscribe n fs) (channel-Reads n) (
      Reads-then (push_filters fs limits) (read_filters limits) _ fs (Frame.subscribe n fs)
        (filters-Reads fs limits h) (λ rest. refl))

acknowledge-Reads :
    (id : MessageId) (policy : AckPolicy) (limits : FrameLimits)
    → IsMessageId id
    → Reads (encode_body (acknowledge id policy) limits) decode_acknowledge (acknowledge id policy)
unfolding encode_body decode_acknowledge
acknowledge-Reads id policy limits h =
    Reads-checked (acknowledgement_check id policy) _ _ (acknowledge id policy) λ c.
      Reads-bind (ok id) _ read_array_16 _ id (acknowledge id policy) (array_16-Reads id h) (
        last_tag-Reads (ack_policy_tag policy) decode_ack_policy policy
          (decode_ack_policy-ack_policy_tag policy) _ (acknowledge id policy) (λ rest. rw c))

delivery_result-Reads :
    (id : MessageId) (outcome : DeliveryOutcome) (limits : FrameLimits)
    → IsMessageId id
    → Reads
        (encode_body (delivery_result id outcome) limits)
        decode_delivery_result
        (delivery_result id outcome)
unfolding encode_body decode_delivery_result
delivery_result-Reads id outcome limits h =
    Reads-checked (message_id_check id) _ _ (delivery_result id outcome) λ c.
      Reads-bind (ok id) _ read_array_16 _ id (delivery_result id outcome) (array_16-Reads id h) (
        rw c (
          last_tag-Reads (delivery_outcome_tag outcome) decode_delivery_outcome outcome
            (decode_delivery_outcome-delivery_outcome_tag outcome) _ (delivery_result id outcome)
            (λ rest. refl)))

-- The decoder of a frame's kind reads back what the encoder wrote for its body.
pub body-Reads :
    (f : Frame) (limits : FrameLimits)
    → IsFrame f
    → Reads (encode_body f limits) (decode_body (frame_kind f) limits) f
unfolding encode_body decode_body
body-Reads (hello id hs cs) limits h = hello-Reads id hs cs limits h
body-Reads (welcome id cs) limits h = welcome-Reads id cs limits h
body-Reads (Frame.claim n hs) limits h = claim-Reads n hs limits h
body-Reads (Frame.subscribe n fs) limits h = subscribe-Reads n fs limits h
body-Reads (Frame.unsubscribe n) limits h =
    unfold decode_unsubscribe in
    Reads-then (push_name n) read_channel _ n (Frame.unsubscribe n) (channel-Reads n) (λ rest. refl)
body-Reads (message m) limits h = message-Reads m limits h
body-Reads (acknowledge id policy) limits h = acknowledge-Reads id policy limits h
body-Reads (delivery_result id outcome) limits h = delivery_result-Reads id outcome limits h
body-Reads (protocol_error code t) limits h =
    unfold decode_protocol_error in
    tag-Reads (protocol_error_code_tag code) decode_protocol_error_code code
      (decode_protocol_error_code-protocol_error_code_tag code) (push_text t) _
      (protocol_error code t)
      (Reads-then (push_text t) read_text _ t (protocol_error code t) (text-Reads t h)
        (λ rest. refl))
body-Reads (control_result operation) limits h =
    unfold decode_control_result in
    last_tag-Reads (control_operation_tag operation) decode_control_operation operation
      (decode_control_operation-control_operation_tag operation) _ (control_result operation)
      (λ rest. refl)
body-Reads (resolve_namespace n) limits h =
    unfold decode_resolve_namespace in
    Reads-then (push_namespace n) read_namespace _ n (resolve_namespace n) (namespace-Reads n h)
      (λ rest. refl)
body-Reads (namespace_resolved n id) limits h =
    unfold decode_namespace_resolved in
    Reads-bind (push_namespace n) (push_owner id) read_namespace _ n (namespace_resolved n id)
      (namespace-Reads n h.0)
      (Reads-then (push_owner id) read_owner _ id (namespace_resolved n id) (owner-Reads id h.1)
        (λ rest. refl))
