-- ===== src/Client/Await.antt =====
-- What a request waits for, and that it ends.
use busd.Prelude.{
  ap, ◌∙◌, ◌&&◌, ℕ, zero, suc, ◌<◌, ◌≡◌, refl, Bool, true, false, Option, none, some, List, [], ◌∷◌,
  arith, Result, ok, err, Result-cases, Bool-cases, inl, inr, length,
}
use busd.Order.{bytes_order, same, same→eq, same_refl}
use busd.Protocol.Types.{
  Bytes, Text, MessageId, Message, Frame, message, delivery_result, protocol_error,
  ProtocolErrorCode, DeliveryOutcome, FrameLimits, CodecError,
}
use busd.Protocol.Options.{is_response}
use busd.Protocol.Decode.{decode_with_limits}
use busd.Action.{pure}
use busd.Transport.{other, fail}
use busd.Client.Transport.{Error, codec, handshake, rejected, delivery, Transport, Bus}
use busd.Client.Bus.{receive_frame}
use busd.Client.Request.{is_progress, request_step, await_response}

-- A transport that takes every packet, and from which these packets are received before the close.
abbrev pub inbox : Transport (List Bytes)
inbox = record {
  connect = λ socket. fail other;
  send = λ connection packet. pure tt;
  receive = λ connection maximum packets. elim packets [
    | [] ↦ (ok none, [])
    | packet ∷ rest ↦ (ok (some packet), rest)
  ];
  disconnect = λ connection. pure tt;
  close = λ connection packets. packets;
}

-- The frame is about the request, or ends every wait.
abbrev pub is_related : MessageId → Frame → Bool
is_related id (message m) = is_response m.kind && same m.correlation_id id
is_related id (delivery_result result_id outcome) = same result_id id
is_related id (protocol_error code diagnostic) = true
is_related id _ = false

-- How the wait for the response to the request `id` ends over the packets, and what it leaves unread.
pub data Answers (id : MessageId) (limits : FrameLimits)
    : List Bytes → Result Error Frame → List Bytes → Type 0 where
  closed : Answers id limits [] (err (handshake "broker disconnected during request")) []
  waits :
      {p : Bytes} {outcome : DeliveryOutcome} {ps rest : List Bytes} {r : Result Error Frame}
      → decode_with_limits p limits ≡ ok (delivery_result id outcome)
      → is_progress outcome ≡ true
      → Answers id limits ps r rest
      → Answers id limits (p ∷ ps) r rest
  responds :
      {p : Bytes} {m : Message} {ps : List Bytes}
      → decode_with_limits p limits ≡ ok (message m)
      → is_response m.kind ≡ true
      → m.correlation_id ≡ id
      → Answers id limits (p ∷ ps) (ok (message m)) ps
  fails :
      {p : Bytes} {outcome : DeliveryOutcome} {ps : List Bytes}
      → decode_with_limits p limits ≡ ok (delivery_result id outcome)
      → is_progress outcome ≡ false
      → Answers id limits (p ∷ ps) (err (delivery outcome)) ps
  rejects :
      {p : Bytes} {code : ProtocolErrorCode} {diagnostic : Text} {ps : List Bytes}
      → decode_with_limits p limits ≡ ok (protocol_error code diagnostic)
      → Answers id limits (p ∷ ps) (err (rejected code diagnostic)) ps
  unrelated :
      {p : Bytes} {f : Frame} {ps : List Bytes}
      → decode_with_limits p limits ≡ ok f
      → is_related id f ≡ false
      → Answers id limits
          (p ∷ ps)
          (err (handshake "broker sent an unrelated frame during request"))
          ps
  malformed :
      {p : Bytes} {e : CodecError} {ps : List Bytes}
      → decode_with_limits p limits ≡ err e
      → Answers id limits (p ∷ ps) (err (codec e)) ps

abbrev pub answer_of : Result Error Frame → Result Error (Option Frame)
answer_of (ok f) = ok (some f)
answer_of (err e) = err e

-- Where a wait ends.
record Ends (bus : Bus) (id : MessageId) (fuel : ℕ) (packets : List Bytes) : Type 0 where
  pub outcome : Result Error Frame
  pub rest : List Bytes
  pub answers : Answers id bus.frame_limits packets outcome rest
  pub awaited : await_response inbox fuel bus id packets ≡ (answer_of outcome, rest)

module _ (bus : Bus) (id : MessageId) (fuel : ℕ) (p : Bytes) (ps : List Bytes) (f : Frame)
    (d : decode_with_limits p bus.frame_limits ≡ ok f) where
  round-Ends :
      (x : Result Error Frame)
      → request_step id (some f) ≡ answer_of x
      → Answers id bus.frame_limits (p ∷ ps) x ps
      → Ends bus id (suc fuel) (p ∷ ps)
  unfolding await_response receive_frame
  round-Ends (ok g) e a = record {
    outcome = ok g;
    rest = ps;
    answers = a;
    awaited = rw (d, e) refl;
  }
  round-Ends (err x) e a = record {
    outcome = err x;
    rest = ps;
    answers = a;
    awaited = rw (d, e) refl;
  }

  round_waits :
      (outcome : DeliveryOutcome)
      → f ≡ delivery_result id outcome
      → is_progress outcome ≡ true
      → Ends bus id fuel ps
      → Ends bus id (suc fuel) (p ∷ ps)
  unfolding await_response receive_frame request_step
  round_waits outcome q g n = record {
    outcome = n.outcome;
    rest = n.rest;
    answers = waits (d ∙ ap ok q) g n.answers;
    awaited = rw (d, q, g) (ground (arith, same_refl id, n.awaited));
  }

module _ (bus : Bus) (id : MessageId) (fuel : ℕ) (p : Bytes) (ps : List Bytes) where
  await_related :
      (f : Frame)
      → decode_with_limits p bus.frame_limits ≡ ok f
      → is_related id f ≡ true
      → Ends bus id fuel ps
      → Ends bus id (suc fuel) (p ∷ ps)
  unfolding request_step
  await_related (protocol_error code diagnostic) d q n =
      round-Ends bus id fuel p ps _ d (err (rejected code diagnostic)) refl (rejects d)
  await_related (message m) d q n =
      round-Ends bus id fuel p ps _ d (ok (message m)) (ground arith)
        (responds d (ground arith) (same→eq _ _ (ground arith)))
  await_related (delivery_result result_id outcome) d q n =
      let e : result_id ≡ id = same→eq result_id id q in
      elim (Bool-cases (is_progress outcome)) [
        | inl g ↦
            round_waits bus id fuel p ps _ d outcome (ap (λ i. delivery_result i outcome) e) g n
        | inr g ↦
            round-Ends bus id fuel p ps _ d (err (delivery outcome)) (ground arith)
              (fails (rw e at d) g)
      ]
  await_related _ d q n = absurd (ground arith)

  step_unrelated :
      (f : Frame)
      → is_related id f ≡ false
      → request_step id (some f) ≡ err (handshake "broker sent an unrelated frame during request")
  unfolding request_step
  step_unrelated f h = ground arith

  await_packet : Ends bus id fuel ps → Ends bus id (suc fuel) (p ∷ ps)
  unfolding await_response receive_frame
  await_packet n = elim (Result-cases (decode_with_limits p bus.frame_limits)) [
    | inr (x, d) ↦ record {
      outcome = err (codec x);
      rest = ps;
      answers = malformed d;
      awaited = rw d refl;
    }
    | inl (f, d) ↦ elim (Bool-cases (is_related id f)) [
      | inl q ↦ await_related f d q n
      | inr q ↦ round-Ends bus id fuel p ps f d _ (step_unrelated f q) (unrelated d q)
    ]
  ]

await_Ends :
    (bus : Bus) (id : MessageId) (fuel : ℕ) (packets : List Bytes)
    → length packets < fuel
    → Ends bus id fuel packets
unfolding await_response receive_frame request_step
await_Ends bus id zero packets h = absurd (omega (arith, h))
await_Ends bus id (suc fuel) [] h = record {
  outcome = err (handshake "broker disconnected during request");
  rest = [];
  answers = closed;
  awaited = refl;
}
await_Ends bus id (suc fuel) (p ∷ ps) h =
    await_packet bus id fuel p ps (await_Ends bus id fuel ps (omega arith))

-- A request ends, in as many rounds as packets arrive before the close of the connection and one
-- more: with the first response that is correlated to it, with its first terminal delivery outcome,
-- or with the error of a packet that is neither nor a progress report; what comes after is unread.
pub await_response-Answers :
    (bus : Bus) (id : MessageId) (fuel : ℕ) (packets : List Bytes)
    → length packets < fuel
    → (outcome : Result Error Frame) × (rest : List Bytes) × Answers id bus.frame_limits packets
        outcome rest
      × (await_response inbox fuel bus id packets ≡ (answer_of outcome, rest))
await_response-Answers bus id fuel packets h =
    let n = await_Ends bus id fuel packets h in (n.outcome, n.rest, n.answers, n.awaited)
