-- ===== src/Daemon/System/Orderly.antt =====
-- The peers of the broker, as long as no thread ends early.
use busd.Prelude.{◌≡◌, refl, true, arith, inl, inr, Bool-cases}
use busd.Order.{nat_order, bytes_order, same, same→eq, same_refl}
use busd.Map.{get, contains_key}
use busd.Protocol.Types.{PeerId, FrameLimits}
use busd.Policy.{Policy}
use busd.Broker.Types.{Limits}
use busd.Transport.{Sockets}
use busd.Daemon.System.{System, Move, advance, Runs, here, next, started}
use busd.Daemon.System.Invariant.{Effect, still, turn, is_attached, is_live}
use busd.Daemon.System.Reachable.{advance-Effect, Runs-IsRunning}

-- Sequences of moves in which no thread ends before it has disconnected its peer.
pub data Orderly (sockets : Sockets) (limits : FrameLimits) (s : System) : System → Type 0 where
  nothing : Orderly sockets limits s s
  orderly :
      {t : System}
      → Orderly sockets limits s t
      → (m : Move)
      → ((id : PeerId)
          → is_attached (get id t.threads) ≡ true
          → is_live (get id (advance sockets limits m t).threads) ≡ true)
      → Orderly sockets limits s (advance sockets limits m t)

abbrev IsExact : System → Type 0
IsExact s = (id : PeerId) → contains_key id s.broker.peers ≡ is_attached (get id s.threads)

Effect-IsExact :
    (s t : System)
    → Effect s t
    → ((id : PeerId) → is_attached (get id s.threads) ≡ true → is_live (get id t.threads) ≡ true)
    → IsExact s
    → IsExact t
Effect-IsExact s t (still h k q w) g x id = ground (arith, h, q.2, x id)
Effect-IsExact s t (turn j o u) g x id = elim (Bool-cases (same id j)) [
  | inl p ↦
      let i = same→eq id j p in
      let kept = λ (a : is_attached (get j s.threads) ≡ true).
        (rw (u.turns.threads j, same_refl j) at (g j a)) in
      rw (u.turns.threads id, p) (rw i (u.exact kept (x j)))
  | inr p ↦ ground (arith, u.others id p, u.turns.threads id, x id)
]

Orderly-Runs :
    (sockets : Sockets) (limits : FrameLimits) {s t : System}
    → Orderly sockets limits s t
    → Runs sockets limits s t
Orderly-Runs sockets limits nothing = here
Orderly-Runs sockets limits (orderly l m g) = next (Orderly-Runs sockets limits l) m

-- As long as no thread ends before it has disconnected its peer, however the threads are
-- interleaved, the broker's peers are exactly those of the threads between `connect_session` and the
-- disconnection: when these threads have ended, no peer is connected.
pub Orderly-peers :
    (sockets : Sockets) (frame_limits : FrameLimits) (policy : Policy) (limits : Limits)
    (id : PeerId) {s : System}
    → Orderly sockets frame_limits (started policy limits) s
    → contains_key id s.broker.peers ≡ is_attached (get id s.threads)
Orderly-peers sockets frame_limits policy limits id nothing = refl
Orderly-peers sockets frame_limits policy limits id (orderly {t} l m g) =
    let r =
      Runs-IsRunning sockets frame_limits policy limits (Orderly-Runs sockets frame_limits l) in
    Effect-IsExact t _ (advance-Effect sockets frame_limits m t r) g
      (λ j. Orderly-peers sockets frame_limits policy limits j l) id
