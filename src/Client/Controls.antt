-- ===== src/Client/Controls.antt =====
-- Controls and their confirmations.
use busd.Prelude.{
  ap, sym, ◌≡◌, refl, List, [], ◌∷◌, ◌++◌, arith, ok, Option, some, none, Result-cases, inl, inr,
  ◌∙◌, map, true,
}
use busd.Protocol.Types.{Frame, control_result, FrameLimits, Bytes, ControlOperation}
use busd.Protocol.Encode.{encode_with_limits}
use busd.Protocol.Decode.{decode_with_limits}
use busd.Transport.{Connection}
use busd.Client.Transport.{Transport, Bus, NamespaceClaim, Subscription}
use busd.Client.Bus.{
  send_control, send_frame, receive_frame, claim_with_headers, subscribe, same_operation,
  control_outcome, decoded,
}
use busd.Client.Reconnect.{restore, ReconnectingBus, restore_claims, restore_subscriptions}
use busd.Client.Log.{
  given, taken, Log, recorded, Confirmed, nothing, confirmed, claim_control, subscribe_control,
  restoring,
}

Confirmed-append :
    {limits : FrameLimits} {c : Connection} {fs gs : List (Frame × ControlOperation)} {a b d : Log}
    → Confirmed limits c fs a b
    → Confirmed limits c gs b d
    → Confirmed limits c (fs ++ gs) a d
Confirmed-append nothing v = v
Confirmed-append (confirmed reply e r u) v = confirmed reply e r (Confirmed-append u v)

-- What the check of an answer lets through.
same_operation-eq : (a b : ControlOperation) → same_operation a b ≡ true → a ≡ b
same_operation-eq ControlOperation.claim ControlOperation.claim h = refl
same_operation-eq ControlOperation.subscribe ControlOperation.subscribe h = refl
same_operation-eq ControlOperation.unsubscribe ControlOperation.unsubscribe h = refl
same_operation-eq _ _ h = cc

control_outcome-frame :
    (operation : ControlOperation) (f : Frame)
    → control_outcome operation (some f) ≡ ok tt
    → f ≡ control_result operation
control_outcome-frame operation (control_result done) h =
    let q : same_operation done operation ≡ true = ground arith in
    ap control_result (same_operation-eq done operation q)
control_outcome-frame operation _ h = cc

module _ {S : Type 0} (t : Transport S) where
  control_reply :
      (limits : FrameLimits) (operation : ControlOperation) (reply : Option Bytes)
      (o : Option Frame)
      → decoded limits reply ≡ ok o
      → control_outcome operation o ≡ ok tt
      → (packet : Bytes) × (reply ≡ some packet)
        × (decode_with_limits packet limits ≡ ok (control_result operation))
  control_reply limits operation none o h k = absurd (ground arith)
  control_reply limits operation (some packet) o h k =
      elim (Result-cases (decode_with_limits packet limits)) [
        | inr (x, e) ↦ absurd (ground arith)
        | inl (f, e) ↦
            let q : control_outcome operation (some f) ≡ ok tt = ground arith in
            (packet, refl, e ∙ ap ok (control_outcome-frame operation f q))
      ]

  one_control :
      (limits : FrameLimits) (c : Connection) (f : Frame) (operation : ControlOperation) (log : Log)
      (packet answer : Bytes) (reply : Option Bytes)
      → encode_with_limits f limits ≡ ok packet
      → reply ≡ some answer
      → decode_with_limits answer limits ≡ ok (control_result operation)
      → Confirmed limits c
          ((f, operation) ∷ [])
          log
          ((log ++ given c packet (ok tt) ∷ []) ++ taken c (ok reply) ∷ [])
  one_control limits c f operation log packet answer reply e q k =
      rw q (confirmed answer e k nothing)

  send_control-log :
      (bus : Bus) (f : Frame) (operation : ControlOperation) (w : S × Log) (packet : Bytes)
      (reply : Option Bytes) (o : Option Frame)
      → encode_with_limits f bus.frame_limits ≡ ok packet
      → (t.send bus.connection packet w.0).0 ≡ ok tt
      → (t.receive bus.connection bus.frame_limits.maximum_frame_size
          (t.send bus.connection packet w.0).1).0
        ≡ ok reply
      → decoded bus.frame_limits reply ≡ ok o
      → ((send_control (recorded t) bus f operation w).1.1
          ≡ (w.1 ++ given bus.connection packet (ok tt) ∷ [])
            ++ taken bus.connection (ok reply) ∷ [])
        × ((send_control (recorded t) bus f operation w).0 ≡ control_outcome operation o)
  unfolding send_control send_frame receive_frame
  send_control-log bus f operation w packet reply o e s q d =
      (rw (e, s, q, d) refl, rw (e, s, q, d) refl)

  finished :
      (bus : Bus) (f : Frame) (operation : ControlOperation) (w : S × Log) (packet : Bytes)
      (reply : Option Bytes) (o : Option Frame)
      → encode_with_limits f bus.frame_limits ≡ ok packet
      → (t.send bus.connection packet w.0).0 ≡ ok tt
      → (t.receive bus.connection bus.frame_limits.maximum_frame_size
          (t.send bus.connection packet w.0).1).0
        ≡ ok reply
      → decoded bus.frame_limits reply ≡ ok o
      → (send_control (recorded t) bus f operation w).0 ≡ ok tt
      → Confirmed bus.frame_limits bus.connection
          ((f, operation) ∷ [])
          w.1
          (send_control (recorded t) bus f operation w).1.1
  finished bus f operation w packet reply o e s q d h =
      let (log, outcome) = send_control-log bus f operation w packet reply o e s q d in
      let (answer, same_reply, k) =
        control_reply bus.frame_limits operation reply o d (sym outcome ∙ h) in
      rw log (
        one_control bus.frame_limits bus.connection f operation w.1 packet answer reply e same_reply
          k)

  send_control-Confirmed :
      (bus : Bus) (f : Frame) (operation : ControlOperation) (w : S × Log)
      → (send_control (recorded t) bus f operation w).0 ≡ ok tt
      → Confirmed bus.frame_limits bus.connection
          ((f, operation) ∷ [])
          w.1
          (send_control (recorded t) bus f operation w).1.1
  unfolding send_control send_frame receive_frame
  send_control-Confirmed bus f operation w h =
      let limits = bus.frame_limits in
      let c = bus.connection in
      elim (Result-cases (encode_with_limits f limits)) [
        | inr (x, e) ↦ absurd (ground arith)
        | inl (packet, e) ↦ elim (Result-cases (t.send c packet w.0).0) [
          | inr (x, s) ↦ absurd (ground arith)
          | inl (u, s) ↦
              elim (Result-cases
                (t.receive c limits.maximum_frame_size (t.send c packet w.0).1).0) [
                  | inr (x, q) ↦ absurd (ground arith)
                  | inl (reply, q) ↦ elim (Result-cases (decoded limits reply)) [
                    | inr (x, d) ↦ absurd (ground arith)
                    | inl (o, d) ↦ finished bus f operation w packet reply o e s q d h
                  ]
                ]
        ]
      ]

  restore_claims-Confirmed :
      (bus : Bus) (claims : List NamespaceClaim) (w : S × Log)
      → (restore_claims (recorded t) bus claims w).0 ≡ ok tt
      → Confirmed bus.frame_limits bus.connection
          (map claim_control claims)
          w.1
          (restore_claims (recorded t) bus claims w).1.1
  unfolding restore_claims claim_with_headers
  restore_claims-Confirmed bus [] w h = nothing
  restore_claims-Confirmed bus (claim ∷ claims) w h =
      let f = Frame.claim claim.namespace claim.headers in
      let m = send_control (recorded t) bus f ControlOperation.claim w in
      elim (Result-cases m.0) [
        | inr (x, e) ↦ absurd (ground arith)
        | inl (u, e) ↦
            let v = restore_claims-Confirmed bus claims m.1 (rw e at h) in
            rw e (Confirmed-append (send_control-Confirmed bus f ControlOperation.claim w e) v)
      ]

  restore_subscriptions-Confirmed :
      (bus : Bus) (subscriptions : List Subscription) (w : S × Log)
      → (restore_subscriptions (recorded t) bus subscriptions w).0 ≡ ok tt
      → Confirmed bus.frame_limits bus.connection
          (map subscribe_control subscriptions)
          w.1
          (restore_subscriptions (recorded t) bus subscriptions w).1.1
  unfolding restore_subscriptions subscribe
  restore_subscriptions-Confirmed bus [] w h = nothing
  restore_subscriptions-Confirmed bus (s ∷ subscriptions) w h =
      let f = Frame.subscribe s.channel s.filters in
      let m = send_control (recorded t) bus f ControlOperation.subscribe w in
      elim (Result-cases m.0) [
        | inr (x, e) ↦ absurd (ground arith)
        | inl (u, e) ↦
            let v = restore_subscriptions-Confirmed bus subscriptions m.1 (rw e at h) in
            rw e (Confirmed-append (send_control-Confirmed bus f ControlOperation.subscribe w e) v)
      ]

  pub restore-Confirmed :
      (bus : Bus) (c : ReconnectingBus) (w : S × Log)
      → (restore (recorded t) bus c w).0 ≡ ok tt
      → Confirmed bus.frame_limits bus.connection
          (restoring c)
          w.1
          (restore (recorded t) bus c w).1.1
  restore-Confirmed bus c w h =
      let m = restore_claims (recorded t) bus c.claims w in
      elim (Result-cases m.0) [
        | inr (x, e) ↦ absurd (ground arith)
        | inl (u, e) ↦ rw e (
            Confirmed-append (restore_claims-Confirmed bus c.claims w e)
              (restore_subscriptions-Confirmed bus c.subscriptions m.1 (rw e at h)))
      ]
