-- ===== src/Client/Greeting.antt =====
-- The exchange of HELLO and WELCOME.
use busd.Prelude.{
  ap, ◌≡◌, refl, [], ◌∷◌, ◌++◌, arith, ok, Option, some, none, Result-cases, inl, inr, ◌∙◌,
}
use busd.Protocol.Types.{Frame, welcome, Bytes}
use busd.Protocol.Encode.{encode_with_limits}
use busd.Protocol.Decode.{decode_with_limits}
use busd.Transport.{Connection}
use busd.Client.Transport.{Transport, ConnectOptions, Bus}
use busd.Client.Bus.{connect, welcomed, welcome_outcome}
use busd.Client.Log.{opened, given, taken, Log, recorded, hello_frame, Greeted}

welcome_outcome-frame :
    (options : ConnectOptions) (c : Connection) (f : Frame) (bus : Bus)
    → welcome_outcome options c (ok f) ≡ ok bus
    → (f ≡ welcome bus.peer_id bus.capabilities)
      × (bus.connection ≡ c)
      × (bus.frame_limits ≡ options.frame_limits)
welcome_outcome-frame options c (welcome id capabilities) bus h = (cc, cc, cc)
welcome_outcome-frame options c _ bus h = cc

module _ {S : Type 0} (t : Transport S) where
  welcomed-frame :
      (options : ConnectOptions) (c : Connection) (reply : Option Bytes) (bus : Bus)
      → welcomed options c reply ≡ ok bus
      → (packet : Bytes) × (reply ≡ some packet)
        × (decode_with_limits packet options.frame_limits
            ≡ ok (welcome bus.peer_id bus.capabilities))
        × (bus.connection ≡ c)
        × (bus.frame_limits ≡ options.frame_limits)
  welcomed-frame options c none bus h = absurd (cc)
  welcomed-frame options c (some packet) bus h =
      elim (Result-cases (decode_with_limits packet options.frame_limits)) [
        | inr (x, e) ↦ absurd (ground arith)
        | inl (f, e) ↦
            let (q, k, l) = welcome_outcome-frame options c f bus (rw e at h) in
            (packet, refl, e ∙ ap ok q, k, l)
      ]

  connect-log :
      (options : ConnectOptions) (w : S × Log) (c : Connection) (packet : Bytes)
      (reply : Option Bytes) (bus : Bus)
      → (t.connect options.socket w.0).0 ≡ ok c
      → encode_with_limits (hello_frame options) options.frame_limits ≡ ok packet
      → (t.send c packet (t.connect options.socket w.0).1).0 ≡ ok tt
      → (t.receive c options.frame_limits.maximum_frame_size
          (t.send c packet (t.connect options.socket w.0).1).1).0
        ≡ ok reply
      → welcomed options c reply ≡ ok bus
      → (connect (recorded t) options w).1.1
        ≡ ((w.1 ++ opened options.socket (ok c) ∷ []) ++ given c packet (ok tt) ∷ [])
          ++ taken c (ok reply) ∷ []
  unfolding connect
  connect-log options w c packet reply bus a e s q g = rw (a, e, s, q, g) refl

  welcomed-Greeted :
      (options : ConnectOptions) (bus : Bus) (log log' : Log) (c : Connection) (packet : Bytes)
      (reply : Option Bytes)
      → encode_with_limits (hello_frame options) options.frame_limits ≡ ok packet
      → welcomed options c reply ≡ ok bus
      → log'
        ≡ ((log ++ opened options.socket (ok c) ∷ []) ++ given c packet (ok tt) ∷ [])
          ++ taken c (ok reply) ∷ []
      → Greeted options bus log log'
  welcomed-Greeted options bus log log' c packet reply e g calls =
      let (answer, same_reply, k, same_connection, l) = welcomed-frame options c reply bus g in
      record {
        hello_packet = packet;
        welcome_packet = answer;
        said = e;
        answered = k;
        limits = l;
        calls = calls ∙ rw (same_connection, same_reply) refl;
      }

  pub connect-Greeted :
      (options : ConnectOptions) (w : S × Log) (bus : Bus)
      → (connect (recorded t) options w).0 ≡ ok bus
      → Greeted options bus w.1 (connect (recorded t) options w).1.1
  unfolding connect
  connect-Greeted options w bus h =
      let o = t.connect options.socket w.0 in
      elim (Result-cases o.0) [
        | inr (x, a) ↦ absurd (ground arith)
        | inl (c, a) ↦
            elim (Result-cases (encode_with_limits (hello_frame options) options.frame_limits)) [
              | inr (x, e) ↦ absurd (ground arith)
              | inl (packet, e) ↦ elim (Result-cases (t.send c packet o.1).0) [
                | inr (x, s) ↦ absurd (ground arith)
                | inl (u, s) ↦
                    elim (Result-cases
                      (t.receive c options.frame_limits.maximum_frame_size
                        (t.send c packet o.1).1).0) [
                          | inr (x, q) ↦ absurd (ground arith)
                          | inl (reply, q) ↦
                              let got : welcomed options c reply ≡ ok bus = ground arith in
                              welcomed-Greeted options bus w.1 _ c packet reply e got
                                (connect-log options w c packet reply bus a e s q got)
                        ]
              ]
            ]
      ]
