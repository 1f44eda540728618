-- ===== src/Client/Replay.antt =====
-- The calls that a reconnection makes of the transport, in order.
use mathlib.Core.Path.{subst}
use busd.Prelude.{sym, ◌≡◌, refl, [], ◌∷◌, ◌++◌, arith, ok, Result-cases, inl, inr, ◌∙◌}
use busd.Protocol.Types.{PeerId, FrameLimits}
use busd.Client.Transport.{Transport, Bus}
use busd.Client.Bus.{connect}
use busd.Client.Reconnect.{restore, ReconnectingBus, reconnect}
use busd.Client.Log.{closed, Log, recorded, Confirmed, restoring, Restored}
use busd.Client.Controls.{restore-Confirmed}
use busd.Client.Greeting.{connect-Greeted}

module _ {S : Type 0} (t : Transport S) where
  reconnect-log :
      (c : ReconnectingBus) (w : S × Log) (bus : Bus)
      → (connect (recorded t) c.options w).0 ≡ ok bus
      → (restore (recorded t) bus c (connect (recorded t) c.options w).1).0 ≡ ok tt
      → ((reconnect (recorded t) (c, w)).0 ≡ ok bus.peer_id)
        × ((reconnect (recorded t) (c, w)).1.0 ≡ record c { bus = bus })
        × ((reconnect (recorded t) (c, w)).1.1.1
            ≡ (restore (recorded t) bus c (connect (recorded t) c.options w).1).1.1
              ++ closed c.bus.connection ∷ [])
  unfolding reconnect
  reconnect-log c w bus e q = (rw (e, q) refl, rw (e, q) refl, rw (e, q) refl)

-- A reconnection that succeeds has made these calls of the transport, in this order, and no others: it
-- opened a connection to the socket, sent HELLO on it and received WELCOME; on the same connection it
-- sent every recorded claim and then every recorded subscription, in the order in which they were
-- recorded, and received the confirmation of each before the next; and it closed the old connection.
-- The client keeps its records, uses the new session, and gets the identifier that WELCOME gave.
pub reconnect-Restored :
    {S : Type 0} (t : Transport S) (c : ReconnectingBus) (w : S × Log) (id : PeerId)
    → (reconnect (recorded t) (c, w)).0 ≡ ok id
    → Restored c (reconnect (recorded t) (c, w)).1.0 w.1 (reconnect (recorded t) (c, w)).1.1.1 id
unfolding reconnect
reconnect-Restored t c w id h =
    let m = connect (recorded t) c.options w in
    elim (Result-cases m.0) [
      | inr (x, e) ↦ absurd (ground arith)
      | inl (bus, e) ↦ elim (Result-cases (restore (recorded t) bus c m.1).0) [
        | inr (x, q) ↦ absurd (ground arith)
        | inl (u, q) ↦
            let (result, client, log) = reconnect-log t c w bus e q in
            let same_id = sym h ∙ result in
            let g = connect-Greeted t c.options w bus e in
            rw client (record {
              kept = refl;
              peer_id = cc;
              greeted_log = m.1.1;
              restored_log = (restore (recorded t) bus c m.1).1.1;
              greeted = g;
              restored =
                  subst
                    (λ (limits : FrameLimits).
                      Confirmed limits bus.connection (restoring c) m.1.1
                        (restore (recorded t) bus c m.1).1.1)
                    g.limits (restore-Confirmed t bus c m.1 q);
              replaced = log;
            })
      ]
    ]
