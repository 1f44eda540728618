-- ===== src/Broker/Answers.antt =====
-- Responses that come twice or too late, and what is left to wait for.
use busd.Prelude.{
  ℕ, ◌⊎◌, ◌||◌, not, ◌≡◌, refl, List, arith, ok, err, Option, none, some, Bool, true, false, suc,
  length, inl, inr, Option-cases, Bool-cases, if◌then◌else◌, [], ◌∷◌,
}
use busd.Order.{nat_order, bytes_order, same_refl, same, same→eq}
use busd.Map.{get, insert, contains_key, contains}
use busd.Map.Laws.{get-insert, get-remove, contains_key-insert, length-insert_fresh}
use busd.Protocol.Types.{PeerId, MessageId, Message, Frame, message, RequestPolicy, Status}
use busd.Protocol.Options.{is_request}
use busd.Broker.Types.{
  Broker, Error, PendingDelivery, DeliveryEvent, unknown_delivery, unexpected_response,
}
use busd.Broker.Responses.{completes, accept_response, respond, complete_response}

-- The delivery of `id`, if any is left, has a response of the sender.
abbrev pub Answered : PeerId → Option PendingDelivery → Type 0
Answered sender none = Unit {0}
Answered sender (some d) = contains_key sender d.responses ≡ true

accept_response-Answered :
    (sender : PeerId) (m : Message) (d : PendingDelivery) (request : Message) (b : Broker)
    → Answered sender (get m.correlation_id (accept_response sender m d request b).1.deliveries)
unfolding accept_response
accept_response-Answered sender m d request b =
    let id = m.correlation_id in
    let answered : PendingDelivery = record d {
      responses = insert sender (message m) d.responses;
    } in
    ground (
      arith,
      same_refl id,
      same_refl sender,
      get-insert id id answered b.deliveries,
      get-remove id id (insert id answered b.deliveries),
      contains_key-insert sender sender (message m) d.responses,
    )

respond-Answered :
    (sender : PeerId) (m : Message) (d : PendingDelivery) (f : Frame) (b : Broker)
    (es : List DeliveryEvent)
    → (respond sender m d f b).0 ≡ ok es
    → Answered sender (get m.correlation_id (respond sender m d f b).1.deliveries)
unfolding respond
respond-Answered sender m d (message request) b es h =
    ground (arith, accept_response-Answered sender m d request b)
respond-Answered sender m d _ b es h = cc

complete_response-Answered :
    (sender : PeerId) (m : Message) (b : Broker) (es : List DeliveryEvent)
    → (complete_response sender m b).0 ≡ ok es
    → Answered sender (get m.correlation_id (complete_response sender m b).1.deliveries)
unfolding complete_response
complete_response-Answered sender m b es h =
    elim (Option-cases (get m.correlation_id b.deliveries)) [
      | inl q ↦ absurd (ground arith)
      | inr (d, q) ↦ ground (arith, respond-Answered sender m d d.message b es)
    ]

respond-again :
    (sender : PeerId) (m : Message) (d : PendingDelivery) (f : Frame) (b : Broker)
    → contains_key sender d.responses ≡ true
    → (respond sender m d f b).0 ≡ err (unexpected_response m.correlation_id)
unfolding respond
respond-again sender m d (message request) b h = ground arith
respond-again sender m d _ b h = refl

Answered-complete_response :
    (sender : PeerId) (m : Message) (b : Broker)
    → Answered sender (get m.correlation_id b.deliveries)
    → (e : Error) × ((complete_response sender m b).0 ≡ err e)
unfolding complete_response
Answered-complete_response sender m b h = elim (Option-cases (get m.correlation_id b.deliveries)) [
  | inl q ↦ (unknown_delivery m.correlation_id, rw q refl)
  | inr (d, q) ↦ (
    unexpected_response m.correlation_id,
    rw q (respond-again sender m d d.message b (rw q at h)),
  )
]

-- What `accept_response` makes of each delivery.
accept_response-get :
    (sender : PeerId) (m : Message) (d : PendingDelivery) (request : Message) (b : Broker)
    (j : MessageId)
    → get j (accept_response sender m d request b).1.deliveries ≡ (
        if same j m.correlation_id
        then (if completes request.request_policy m.status
              (length (insert sender (message m) d.responses))
              (length d.recipients)
            then none
            else some (record d { responses = insert sender (message m) d.responses }))
        else get j b.deliveries)
unfolding accept_response
accept_response-get sender m d request b j =
    let id = m.correlation_id in
    let answered : PendingDelivery = record d {
      responses = insert sender (message m) d.responses;
    } in
    ground (
      arith,
      get-insert j id answered b.deliveries,
      get-remove j id (insert id answered b.deliveries),
    )

-- A response of anyone takes no answer back.
accept_response-keeps :
    (peer sender : PeerId) (m : Message) (d : PendingDelivery) (request : Message) (b : Broker)
    (j : MessageId)
    → get m.correlation_id b.deliveries ≡ some d
    → Answered peer (get j b.deliveries)
    → Answered peer (get j (accept_response sender m d request b).1.deliveries)
accept_response-keeps peer sender m d request b j q h =
    elim (Bool-cases (same j m.correlation_id)) [
      | inl e ↦
          let e' : j ≡ m.correlation_id = same→eq j m.correlation_id e in
          let known : contains_key peer d.responses ≡ true = rw (e', q) at h in
          elim (Bool-cases (
            completes request.request_policy m.status
              (length (insert sender (message m) d.responses)) (length d.recipients))) [
                | inl c ↦ rw (accept_response-get, e, c) tt
                | inr c ↦
                    rw (accept_response-get, e, c)
                      (ground (arith, contains_key-insert peer sender (message m) d.responses))
              ]
      | inr e ↦ rw (accept_response-get, e) h
    ]

accept_response-none :
    (sender : PeerId) (m : Message) (d : PendingDelivery) (request : Message) (b : Broker)
    (j : MessageId)
    → get m.correlation_id b.deliveries ≡ some d
    → get j b.deliveries ≡ none
    → get j (accept_response sender m d request b).1.deliveries ≡ none
accept_response-none sender m d request b j q h = elim (Bool-cases (same j m.correlation_id)) [
  | inl e ↦ let e' : j ≡ m.correlation_id = same→eq j m.correlation_id e in absurd (ground arith)
  | inr e ↦ rw (accept_response-get, e) h
]

respond-cases :
    (sender : PeerId) (m : Message) (d : PendingDelivery) (f : Frame) (b : Broker)
    → ((respond sender m d f b).1 ≡ b)
      ⊎ ((request : Message) × ((respond sender m d f b).1
            ≡ (accept_response sender m d request b).1))
unfolding respond
respond-cases sender m d (message request) b =
    elim (Bool-cases (
      not (is_request request.kind)
      || not (contains sender d.recipients)
      || contains_key sender d.responses)) [
        | inl e ↦ inl (rw e refl)
        | inr e ↦ inr (request, rw e refl)
      ]
respond-cases sender m d _ b = inl refl

-- A response changes nothing but by `accept_response`.
complete_response-cases :
    (sender : PeerId) (m : Message) (b : Broker)
    → ((complete_response sender m b).1 ≡ b)
      ⊎ ((d : PendingDelivery) × (request : Message) × (get m.correlation_id b.deliveries ≡ some d)
          × ((complete_response sender m b).1 ≡ (accept_response sender m d request b).1))
unfolding complete_response
complete_response-cases sender m b = elim (Option-cases (get m.correlation_id b.deliveries)) [
  | inl q ↦ inl (rw q refl)
  | inr (d, q) ↦ elim (respond-cases sender m d d.message b) [
    | inl e ↦ inl (rw q e)
    | inr (request, e) ↦ inr (d, request, q, rw q e)
  ]
]

complete_response-keeps :
    (peer sender : PeerId) (m : Message) (b : Broker) (j : MessageId)
    → Answered peer (get j b.deliveries)
    → Answered peer (get j (complete_response sender m b).1.deliveries)
complete_response-keeps peer sender m b j h = elim (complete_response-cases sender m b) [
  | inl e ↦ rw e h
  | inr (d, request, q, e) ↦ rw e (accept_response-keeps peer sender m d request b j q h)
]

complete_response-none :
    (sender : PeerId) (m : Message) (b : Broker) (j : MessageId)
    → get j b.deliveries ≡ none
    → get j (complete_response sender m b).1.deliveries ≡ none
complete_response-none sender m b j h = elim (complete_response-cases sender m b) [
  | inl e ↦ rw e h
  | inr (d, request, q, e) ↦ rw e (accept_response-none sender m d request b j q h)
]

-- The state after responses, each with its sender, accepted or refused.
abbrev pub after_responses : List (PeerId × Message) → Broker → Broker
after_responses [] b = b
after_responses ((sender, m) ∷ rest) b = after_responses rest (complete_response sender m b).1

after_responses-keeps :
    (peer : PeerId) (l : List (PeerId × Message)) (b : Broker) (j : MessageId)
    → Answered peer (get j b.deliveries)
    → Answered peer (get j (after_responses l b).deliveries)
after_responses-keeps peer [] b j h = h
after_responses-keeps peer ((sender, m) ∷ l) b j h =
    after_responses-keeps peer l _ j (complete_response-keeps peer sender m b j h)

after_responses-none :
    (l : List (PeerId × Message)) (b : Broker) (j : MessageId)
    → get j b.deliveries ≡ none
    → get j (after_responses l b).deliveries ≡ none
after_responses-none [] b j h = h
after_responses-none ((sender, m) ∷ l) b j h =
    after_responses-none l _ j (complete_response-none sender m b j h)

-- A recipient answers a request once: after an accepted response and any further responses, of
-- whichever senders to whichever requests, a response of the same sender to the same request is
-- refused.
pub complete_response_once :
    (sender : PeerId) (m n : Message) (b : Broker) (es : List DeliveryEvent)
    (between : List (PeerId × Message))
    → (complete_response sender m b).0 ≡ ok es
    → n.correlation_id ≡ m.correlation_id
    → (e : Error) × ((complete_response sender n
          (after_responses between (complete_response sender m b).1)).0
        ≡ err e)
complete_response_once sender m n b es between h q =
    Answered-complete_response sender n (after_responses between (complete_response sender m b).1) (
      rw q (
        after_responses-keeps sender between _ m.correlation_id
          (complete_response-Answered sender m b es h)))

-- The policies that one response satisfies.
abbrev pub takes_one : RequestPolicy → Bool
takes_one RequestPolicy.exact = true
takes_one RequestPolicy.first = true
takes_one RequestPolicy.first_success = false
takes_one RequestPolicy.all_of = false

accept_response-closes :
    (sender : PeerId) (m : Message) (d : PendingDelivery) (request : Message) (b : Broker)
    → takes_one request.request_policy ≡ true
    → get m.correlation_id (accept_response sender m d request b).1.deliveries ≡ none
unfolding accept_response
accept_response-closes sender m d request b h =
    let id = m.correlation_id in
    let answered : PendingDelivery = record d {
      responses = insert sender (message m) d.responses;
    } in
    ground (arith, same_refl id, get-remove id id (insert id answered b.deliveries))

-- The code completes a request of the policy FIRST with one response, and also a request of the policy
-- EXACT, for which docs/wire-protocol.md says otherwise: after an accepted response, each later
-- response to the request, of whichever recipient and after whichever other responses, finds no
-- delivery.
pub complete_response_closes :
    (sender other : PeerId) (m n : Message) (b : Broker) (es : List DeliveryEvent)
    (d : PendingDelivery) (request : Message) (between : List (PeerId × Message))
    → get m.correlation_id b.deliveries ≡ some d
    → d.message ≡ message request
    → takes_one request.request_policy ≡ true
    → (complete_response sender m b).0 ≡ ok es
    → n.correlation_id ≡ m.correlation_id
    → (complete_response other n (after_responses between (complete_response sender m b).1)).0
      ≡ err (unknown_delivery n.correlation_id)
unfolding complete_response respond
complete_response_closes sender other m n b es d request between h k t r q =
    let gone : get m.correlation_id (complete_response sender m b).1.deliveries ≡ none =
      ground (arith, accept_response-closes sender m d request b t) in
    let late : get n.correlation_id
          (after_responses between (complete_response sender m b).1).deliveries
        ≡ none =
      rw q (after_responses-none between _ m.correlation_id gone) in
    rw late refl

-- A response of this status is the last that a request needs, when it is the response of this number
-- among the recipients.
abbrev pub Ends : RequestPolicy → Status → ℕ → ℕ → Type 0
Ends RequestPolicy.exact status responses recipients = Unit {0}
Ends RequestPolicy.first status responses recipients = Unit {0}
Ends RequestPolicy.first_success status responses recipients =
    (status ≡ Status.success) ⊎ (responses ≡ recipients)
Ends RequestPolicy.all_of status responses recipients = responses ≡ recipients

-- What an accepted response `m` of `sender` makes of its delivery `d`: it is done when the response
-- is the last that its request needs, and otherwise it has that response as well.
abbrev pub Progressed :
    PeerId → Message → PendingDelivery → Message → Option PendingDelivery → Type 0
Progressed sender m d request none =
    Ends request.request_policy m.status (suc (length d.responses)) (length d.recipients)
Progressed sender m d request (some c) =
    (c ≡ record d { responses = insert sender (message m) d.responses })
    × (length c.responses ≡ suc (length d.responses))
    × ¬ Ends request.request_policy m.status (length c.responses) (length d.recipients)

completes-Ends :
    (policy : RequestPolicy) (status : Status) (responses recipients : ℕ)
    → completes policy status responses recipients ≡ true
    → Ends policy status responses recipients
unfolding completes
completes-Ends RequestPolicy.exact status responses recipients h = tt
completes-Ends RequestPolicy.first status responses recipients h = tt
completes-Ends RequestPolicy.first_success Status.success responses recipients h = inl refl
completes-Ends RequestPolicy.first_success _ responses recipients h = inr (ground arith)
completes-Ends RequestPolicy.all_of status responses recipients h = ground arith

Ends-completes :
    (policy : RequestPolicy) (status : Status) (responses recipients : ℕ)
    → Ends policy status responses recipients
    → completes policy status responses recipients ≡ true
unfolding completes
Ends-completes RequestPolicy.exact status responses recipients h = refl
Ends-completes RequestPolicy.first status responses recipients h = refl
Ends-completes RequestPolicy.first_success status responses recipients (inl h) = rw h refl
Ends-completes RequestPolicy.first_success status responses recipients (inr h) = ground arith
Ends-completes RequestPolicy.all_of status responses recipients h = ground arith

accept_response-Progressed :
    (sender : PeerId) (m : Message) (d : PendingDelivery) (request : Message) (b : Broker)
    → contains_key sender d.responses ≡ false
    → Progressed sender m d request
        (get m.correlation_id (accept_response sender m d request b).1.deliveries)
accept_response-Progressed sender m d request b fresh =
    let responses = insert sender (message m) d.responses in
    let count : length responses ≡ suc (length d.responses) =
      omega (arith, length-insert_fresh sender (message m) d.responses fresh) in
    elim (Bool-cases
      (completes request.request_policy m.status (length responses) (length d.recipients))) [
        | inl c ↦
            rw (accept_response-get, same_refl m.correlation_id, c)
              (completes-Ends request.request_policy m.status (suc (length d.responses))
                (length d.recipients) (rw count at c))
        | inr c ↦
            rw (accept_response-get, same_refl m.correlation_id, c)
              (
                refl,
                count,
                λ e.
                    let done : completes request.request_policy m.status (length responses)
                          (length d.recipients)
                        ≡ true =
                      Ends-completes request.request_policy m.status (length responses)
                        (length d.recipients) e in
                    cc,
              )
      ]

-- Every accepted response to a request is of a recipient that has not answered yet, and takes the
-- request nearer to its end: afterwards the request is done, if the response is the last that it
-- needs, or it is as it was with that response as well, and one response more is counted. In the code
-- EXACT and FIRST need one response, FIRST_SUCCESS a successful one or all, ALL one of every recipient.
pub complete_response_progress :
    (sender : PeerId) (m : Message) (b : Broker) (es : List DeliveryEvent) (d : PendingDelivery)
    (request : Message)
    → get m.correlation_id b.deliveries ≡ some d
    → d.message ≡ message request
    → (complete_response sender m b).0 ≡ ok es
    → (contains sender d.recipients ≡ true)
      × (contains_key sender d.responses ≡ false)
      × Progressed sender m d request
          (get m.correlation_id (complete_response sender m b).1.deliveries)
unfolding complete_response respond
complete_response_progress sender m b es d request h k r =
    let member : contains sender d.recipients ≡ true = ground arith in
    let fresh : contains_key sender d.responses ≡ false = ground arith in
    let after : (complete_response sender m b).1 ≡ (accept_response sender m d request b).1 =
      ground arith in
    (member, fresh, rw after (accept_response-Progressed sender m d request b fresh))
