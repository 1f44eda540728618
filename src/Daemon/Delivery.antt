-- ===== src/Daemon/Delivery.antt =====
-- What `dispatch_delivery_events` sends, and to whom.
use busd.Prelude.{
  map, filter, Bool-cases, ◌≡◌, ◌⊎◌, err, true, refl, false, some, List, [], ◌∷◌, ◌++◌, arith, ok,
  Result-cases, inl, inr,
}
use busd.Order.{nat_order, bytes_order, same}
use busd.Map.{contains, get, insert}
use busd.Map.Laws.{get-insert}
use busd.Map.Keys.{IsAscending-insert, Entries-insert}
use busd.Protocol.Types.{Bytes, Text, PeerId, Message, message, FrameLimits, unsigned}
use busd.Protocol.Limits.{IsMessage, IsFrame, IsU64, IsValue}
use busd.Protocol.Encode.{encode_with_limits}
use busd.Protocol.Decode.{decode_with_limits}
use busd.Protocol.RoundTrip.Packets.{decode-encode}
use busd.Broker.Types.{DeliveryEvent, deliver}
use busd.Transport.{
  Connection, Sent, Sockets, send_packet, IoError, broken_pipe, connection_reset, is_gone,
}
use busd.Daemon.Events.{
  Sessions, sender_header, labelled, event_frame, event_recipients, outputs, clone_all,
  send_or_skip, send_all, dispatch_event,
}

-- The log grows from the one to the other: each connection in turn has got the packet, or the
-- kernel answered that the other side is gone.
pub data Sends (sockets : Sockets) (packet : Bytes) : List Connection → Sent → Sent → Type 0 where
  done : {s : Sent} → Sends sockets packet [] s s
  took :
      {c : Connection} {cs : List Connection} {s t : Sent}
      → sockets.send s c packet ≡ ok tt
      → Sends sockets packet cs (s ++ (c, packet) ∷ []) t
      → Sends sockets packet (c ∷ cs) s t
  gone :
      {c : Connection} {cs : List Connection} {s t : Sent} {e : IoError}
      → sockets.send s c packet ≡ err e
      → (e ≡ broken_pipe) ⊎ (e ≡ connection_reset)
      → Sends sockets packet cs s t
      → Sends sockets packet (c ∷ cs) s t

gone_kinds : (e : IoError) → is_gone e ≡ true → (e ≡ broken_pipe) ⊎ (e ≡ connection_reset)
gone_kinds broken_pipe h = inl refl
gone_kinds connection_reset h = inr refl
gone_kinds _ h = cc

-- The connections that are registered for the recipients.
abbrev pub connections_of : List PeerId → Sessions → List Connection
connections_of recipients sessions =
    map (λ entry. entry.1) (filter (λ entry. contains entry.0 recipients) sessions)

outputs-connections :
    (recipients : List PeerId) (sessions : Sessions)
    → outputs recipients sessions ≡ connections_of recipients sessions
unfolding outputs
outputs-connections recipients [] = refl
outputs-connections recipients ((id, connection) ∷ sessions) =
    elim (Bool-cases (contains id recipients)) [
      | inl e ↦ rw (e, outputs-connections recipients sessions) refl
      | inr e ↦ rw (e, outputs-connections recipients sessions) refl
    ]

-- The message as its recipients see it: the header `broker.sender` is the authenticated sender,
-- whatever the message had there, and all else is as it was sent.
pub record IsLabelled (sender : PeerId) (m m' : Message) : Type 0 where
  pub sender_named : get sender_header m'.headers ≡ some (unsigned sender)
  pub headers :
      (name : Text) → same name sender_header ≡ false → get name m'.headers ≡ get name m.headers
  pub rest : record m' { headers = m.headers } ≡ m

module _ (sockets : Sockets) where
  send_or_skip-Sends :
      (packet : Bytes) (c : Connection) (cs : List Connection) (s t : Sent)
      → (send_or_skip sockets packet c s).0 ≡ ok tt
      → Sends sockets packet cs (send_or_skip sockets packet c s).1 t
      → Sends sockets packet (c ∷ cs) s t
  unfolding send_or_skip send_packet
  send_or_skip-Sends packet c cs s t h k = elim (Result-cases (sockets.send s c packet)) [
    | inl (u, e) ↦ took e (rw e at k)
    | inr (x, e) ↦
        let q : (send_or_skip sockets packet c s).1 ≡ s = ground arith in
        let g : is_gone x ≡ true = ground arith in gone e (gone_kinds x g) (rw q at k)
  ]

  send_all-Sends :
      (packet : Bytes) (cs : List Connection) (s : Sent)
      → (send_all sockets packet cs s).0 ≡ ok tt
      → Sends sockets packet cs s (send_all sockets packet cs s).1
  unfolding send_all
  send_all-Sends packet [] s h = done
  send_all-Sends packet (c ∷ cs) s h = elim (Result-cases (send_or_skip sockets packet c s).0) [
    | inl (u, e) ↦
        send_or_skip-Sends packet c cs s _ e (rw e (send_all-Sends packet cs _ (rw e at h)))
    | inr (x, e) ↦ absurd (ground arith)
  ]

  clone_all-sent : (cs : List Connection) (s : Sent) → (clone_all sockets cs s).1 ≡ s
  unfolding clone_all
  clone_all-sent [] s = refl
  clone_all-sent (c ∷ cs) s = ground (arith, clone_all-sent cs s)

  -- What a round of the loop does when it succeeds.
  dispatch_event-Sends :
      (sessions : Sessions) (limits : FrameLimits) (e : DeliveryEvent) (s : Sent)
      → (dispatch_event sockets sessions limits e s).0 ≡ ok tt
      → (packet : Bytes) × (encode_with_limits (event_frame e) limits ≡ ok packet)
        × Sends sockets packet
            (outputs (event_recipients e) sessions)
            s
            (dispatch_event sockets sessions limits e s).1
  unfolding dispatch_event
  dispatch_event-Sends sessions limits e s h =
      elim (Result-cases (encode_with_limits (event_frame e) limits)) [
        | inr (x, p) ↦ absurd (ground arith)
        | inl (packet, p) ↦
            let cs = outputs (event_recipients e) sessions in
            elim (Result-cases (clone_all sockets cs s).0) [
              | inr (x, q) ↦ absurd (ground arith)
              | inl (u, q) ↦ (
                packet,
                p,
                rw (p, q, clone_all-sent cs s)
                    (send_all-Sends packet cs s (rw (p, q, clone_all-sent cs s) at h)),
              )
            ]
      ]

labelled-IsMessage :
    (sender : PeerId) (m : Message)
    → IsU64 sender
    → IsMessage m
    → IsFrame (labelled sender (message m))
unfolding labelled
labelled-IsMessage sender m u v = record {
  requirement = v.requirement;
  deadline = v.deadline;
  retry = v.retry;
  destination = v.destination;
  message_id = v.message_id;
  correlation_id = v.correlation_id;
  headers = (
    IsAscending-insert sender_header (unsigned sender) m.headers v.headers.0,
    Entries-insert (λ name value. IsValue value) sender_header (unsigned sender) m.headers u
        v.headers.1,
  );
}

labelled-IsLabelled :
    (sender : PeerId) (m : Message)
    → (m' : Message) × (labelled sender (message m) ≡ message m') × IsLabelled sender m m'
unfolding labelled
labelled-IsLabelled sender m = (
  record m { headers = insert sender_header (unsigned sender) m.headers },
  refl,
  record {
    sender_named = rw get-insert refl;
    headers = λ name h. rw (get-insert, h) refl;
    rest = refl;
  },
)

-- A delivery that is dispatched sends one packet to the connections of those recipients that are
-- registered, in order, each getting it unless the kernel answers that it is gone. Under the same limits the packet decodes
-- to the message, all as it was sent but for the header `broker.sender`, which is the authenticated
-- sender whatever the client had put there.
pub deliver-IsLabelled :
    (sockets : Sockets) (sessions : Sessions) (limits : FrameLimits) (sender : PeerId)
    (recipients : List PeerId) (m : Message) (s : Sent)
    → IsMessage m
    → IsU64 sender
    → (dispatch_event sockets sessions limits (deliver sender recipients (message m)) s).0 ≡ ok tt
    → (packet : Bytes) × (m' : Message) × (decode_with_limits packet limits ≡ ok (message m'))
      × IsLabelled sender m m'
      × Sends sockets packet
          (connections_of recipients sessions)
          s
          (dispatch_event sockets sessions limits (deliver sender recipients (message m)) s).1
deliver-IsLabelled sockets sessions limits sender recipients m s v u h =
    let (packet, e, sends) =
      dispatch_event-Sends sockets sessions limits (deliver sender recipients (message m)) s h in
    let (m', f, l) = labelled-IsLabelled sender m in
    let d =
      decode-encode (labelled sender (message m)) limits packet (labelled-IsMessage sender m u v)
        e in
    (packet, m', rw f at d, l, rw (outputs-connections recipients sessions) at sends)
