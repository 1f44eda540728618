-- ===== src/Daemon/Requests.antt =====
-- The calls of the broker that frames lead to.
use busd.Prelude.{
  Option-cases, ℕ, ◌≡◌, refl, Option, none, some, [], ◌∷◌, arith, Result-cases, inl, inr,
}
use busd.Order.{nat_order, bytes_order}
use busd.Protocol.Types.{Bytes, PeerId, Frame, message, FrameLimits, protocol_error, Headers}
use busd.Protocol.Decode.{decode_with_limits}
use busd.Broker.Types.{Broker}
use busd.Broker.Steps.{Operation, run, run-IsWellFormed}
use busd.Broker.Steps.Fixed.{Quiet, run-Quiet}
use busd.Broker.Invariant.{IsWellFormed}
use busd.Broker.Refusals.{failure, Kept, run_refused, Kept-refl}
use busd.Daemon.Session.{Reply, answer, dispatch, refuse, handle, handle_packet}

claim_call : PeerId → Bytes → Headers → Option Operation
claim_call id namespace [] = some (Operation.claim_namespace id namespace)
claim_call id namespace (h ∷ hs) = none

-- The call that a frame of the peer `id` makes, if any.
unfoldable pub call_of : PeerId → Frame → ℕ → Option Operation
unfolding claim_call
call_of id (Frame.claim namespace headers) now_ms = claim_call id namespace headers
call_of id (Frame.subscribe channel filters) now_ms =
    some (Operation.add_subscription id channel filters)
call_of id (Frame.unsubscribe channel) now_ms = some (Operation.remove_subscription id channel)
call_of id (message m) now_ms = some (Operation.send id (message m) now_ms)
call_of id (Frame.acknowledge mid policy) now_ms = some (Operation.confirm id mid policy)
call_of id _ now_ms = none

abbrev pub called : Option Operation → Broker → Broker
called none b = b
called (some o) b = run o b

pub handle-called :
    (id : PeerId) (f : Frame) (now : ℕ) (b : Broker)
    → (handle id f now b).1 ≡ called (call_of id f now) b
unfolding handle call_of run
handle-called id (Frame.claim n []) now b = refl
handle-called id (Frame.claim n (h ∷ hs)) now b = refl
handle-called id (Frame.subscribe c f) now b = refl
handle-called id (Frame.unsubscribe c) now b = refl
handle-called id (message m) now b = refl
handle-called id (Frame.acknowledge mid p) now b = refl
handle-called id _ now b = refl

called-Quiet :
    (id : PeerId) (f : Frame) (now : ℕ) (b : Broker) → Quiet b (called (call_of id f now) b)
unfolding call_of
called-Quiet id (Frame.claim n []) now b = run-Quiet (Operation.claim_namespace id n) b refl
called-Quiet id (Frame.claim n (h ∷ hs)) now b = (refl, refl, refl)
called-Quiet id (Frame.subscribe c f) now b = run-Quiet (Operation.add_subscription id c f) b refl
called-Quiet id (Frame.unsubscribe c) now b = run-Quiet (Operation.remove_subscription id c) b refl
called-Quiet id (message m) now b = run-Quiet (Operation.send id (message m) now) b refl
called-Quiet id (Frame.acknowledge mid p) now b = run-Quiet (Operation.confirm id mid p) b refl
called-Quiet id _ now b = (refl, refl, refl)

called-IsWellFormed :
    (o : Option Operation) (b : Broker) → IsWellFormed b → IsWellFormed (called o b)
called-IsWellFormed none b w = w
called-IsWellFormed (some o) b w = run-IsWellFormed o b w

handle-Quiet : (id : PeerId) (f : Frame) (now : ℕ) (b : Broker) → Quiet b (handle id f now b).1
handle-Quiet id f now b = rw (handle-called id f now b) (called-Quiet id f now b)

handle-IsWellFormed :
    (id : PeerId) (f : Frame) (now : ℕ) (b : Broker)
    → IsWellFormed b
    → IsWellFormed (handle id f now b).1
handle-IsWellFormed id f now b w =
    rw (handle-called id f now b) (called-IsWellFormed (call_of id f now) b w)

pub handle_packet-Quiet :
    (id : PeerId) (limits : FrameLimits) (packet : Bytes) (now : ℕ) (b : Broker)
    → Quiet b (handle_packet id limits packet now b).1
unfolding handle_packet
handle_packet-Quiet id limits packet now b =
    elim (Result-cases (decode_with_limits packet limits)) [
      | inl (f, e) ↦ rw e (handle-Quiet id f now b)
      | inr (x, e) ↦ rw e (refl, refl, refl)
    ]

pub handle_packet-IsWellFormed :
    (id : PeerId) (limits : FrameLimits) (packet : Bytes) (now : ℕ) (b : Broker)
    → IsWellFormed b
    → IsWellFormed (handle_packet id limits packet now b).1
unfolding handle_packet
handle_packet-IsWellFormed id limits packet now b w =
    elim (Result-cases (decode_with_limits packet limits)) [
      | inl (f, e) ↦ rw e (handle-IsWellFormed id f now b w)
      | inr (x, e) ↦ rw e w
    ]

-- A reply that tells the client of an error, or ends its session.
abbrev pub IsError : Reply → Type 0
IsError (answer (protocol_error code diagnostic)) = Unit {0}
IsError (answer _) = ⊥
IsError (dispatch events) = ⊥
IsError (refuse code diagnostic) = Unit {0}

refused-Kept : (o : Operation) (b : Broker) → (failure o b ≡ none → ⊥) → Kept b (run o b)
refused-Kept o b h = elim (Option-cases (failure o b)) [
  | inl e ↦ absurd (h e)
  | inr (x, e) ↦ run_refused o b x e
]

-- A frame that the daemon answers with an error, or that ends the session, leaves peers, namespaces,
-- D-Bus names, subscriptions, retained deliveries, lifecycle events, limits and the next identifier
-- of the broker as they were.
pub handle_error-Kept :
    (id : PeerId) (f : Frame) (now : ℕ) (b : Broker)
    → IsError (handle id f now b).0
    → Kept b (handle id f now b).1
unfolding handle
handle_error-Kept id (Frame.claim n []) now b h =
    unfold run in refused-Kept (Operation.claim_namespace id n) b (unfold failure in ground arith)
handle_error-Kept id (Frame.claim n (x ∷ xs)) now b h = Kept-refl b
handle_error-Kept id (Frame.subscribe c f) now b h =
    unfold run in
    refused-Kept (Operation.add_subscription id c f) b (unfold failure in ground arith)
handle_error-Kept id (Frame.unsubscribe c) now b h =
    unfold run in
    refused-Kept (Operation.remove_subscription id c) b (unfold failure in ground arith)
handle_error-Kept id (message m) now b h =
    unfold run in
    refused-Kept (Operation.send id (message m) now) b (unfold failure in ground arith)
handle_error-Kept id (Frame.acknowledge mid p) now b h =
    unfold run in refused-Kept (Operation.confirm id mid p) b (unfold failure in ground arith)
handle_error-Kept id _ now b h = Kept-refl b
