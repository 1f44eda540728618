-- ===== src/Daemon/Examples.antt =====
-- Runs of the daemon with a few clients.
use busd.Prelude.{◌≡◌, refl, true, none, some, List, [], ◌∷◌, ok, err, arith}
use busd.Order.{nat_order, bytes_order}
use busd.Map.{remove, insert, get, contains_key}
use busd.Protocol.Types.{default_frame_limits}
use busd.Protocol.Bytes.{to_be}
use busd.Protocol.Writer.{push_capabilities, push_length16, push_names, push_u16, push_u64}
use busd.Protocol.Encode.{encode_body, encode_with_limits}
use busd.Policy.{allow_all}
use busd.Broker.Scenario.{user, anonymous}
use busd.Transport.{Sockets, broken_pipe}
use busd.Broker.Release.{Released}
use busd.Broker.Disconnect.{disconnect_with_events}
use busd.Daemon.System.{
  wake, System, Move, join, greet, register, hang_up, unregister, departing, advance, Runs, here,
  next, started,
}
use busd.Daemon.System.Invariant.{is_attached, IsRunning}
use busd.Broker.Types.{DeliveryEvent, default_limits}
use busd.Broker.Checks.{validate_claimed_headers}
use busd.Broker.Session.{admit, authorize_hello, connect_session}
use busd.Daemon.System.Reachable.{Runs-IsRunning, Runs-depart, abandoned_stays}
use busd.Daemon.System.Orderly.{Orderly-peers, orderly, nothing}

abbrev good : Sockets
good = record { send = λ s c p. ok tt; clone = λ s c. ok tt }

abbrev broken : Sockets
broken = record { send = λ s c p. err broken_pipe; clone = λ s c. ok tt }

abbrev start : System
start = started allow_all default_limits

abbrev run_all : Sockets → List Move → System → System
run_all sockets [] s = s
run_all sockets (m ∷ ms) s = run_all sockets ms (advance sockets default_frame_limits m s)

abbrev leaving : System
leaving =
    run_all good (join user anonymous 7 ∷ greet 1 ∷ register 1 ∷ hang_up 1 ∷ unregister 1 ∷ [])
      start

leaving-departing : get 1 leaving.threads ≡ some departing
unfolding advance connect_session validate_claimed_headers authorize_hello allow_all admit insert
    encode_with_limits encode_body push_u64 push_capabilities push_length16 push_u16 push_names
    to_be
leaving-departing = refl

leaving-Runs : Runs good default_frame_limits start leaving
leaving-Runs =
    next (next (next (next (next here (join user anonymous 7)) (greet 1)) (register 1)) (hang_up 1))
      (unregister 1)

Runs-IsRunning_example : IsRunning leaving
Runs-IsRunning_example =
    Runs-IsRunning good default_frame_limits allow_all default_limits leaving-Runs

Runs-depart_example :
    ((events : List DeliveryEvent) × ((disconnect_with_events 1 leaving.broker).0 ≡ ok events))
    × Released 1 leaving.broker (disconnect_with_events 1 leaving.broker).1
Runs-depart_example =
    Runs-depart good default_frame_limits allow_all default_limits 1 leaving-Runs leaving-departing

-- The client has gone before WELCOME is sent.
abbrev joined : System
joined = run_all broken (join user anonymous 7 ∷ []) start

joined-attached : is_attached (get 1 joined.threads) ≡ true
unfolding advance connect_session validate_claimed_headers authorize_hello allow_all admit insert
joined-attached = refl

joined-ends : get 1 (advance broken default_frame_limits (greet 1) joined).threads ≡ none
unfolding advance connect_session validate_claimed_headers authorize_hello allow_all admit insert
    encode_with_limits encode_body push_u64 push_capabilities push_length16 push_u16 push_names
    to_be remove
joined-ends = refl

joined-IsRunning : IsRunning joined
joined-IsRunning =
    Runs-IsRunning broken default_frame_limits allow_all default_limits
      (next here (join user anonymous 7))

abandoned_stays_example :
    contains_key 1 (run_all broken (greet 1 ∷ wake 5 ∷ []) joined).broker.peers ≡ true
abandoned_stays_example =
    abandoned_stays broken default_frame_limits 1 (greet 1) joined joined-IsRunning joined-attached
      joined-ends (next here (wake 5))

Orderly-peers_example : contains_key 1 joined.broker.peers ≡ is_attached (get 1 joined.threads)
Orderly-peers_example =
    Orderly-peers broken default_frame_limits allow_all default_limits 1
      (orderly nothing (join user anonymous 7) (λ id h. absurd (ground arith)))
