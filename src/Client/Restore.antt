-- ===== src/Client/Restore.antt =====
-- What a reconnecting client keeps and restores.
use busd.Prelude.{◌≡◌, Bool, true, false, List, arith, Result, ok, err}
use busd.Order.{bytes_order}
use busd.Protocol.Types.{Namespace, Channel, Headers, HeaderFilter}
use busd.Client.Transport.{Transport}
use busd.Client.Reconnect.{ReconnectingBus, claim, add_subscription, remove_subscription, reconnect}

pub data Call : Type 0 where
  claims : Namespace → Headers → Call
  subscribes : Channel → List HeaderFilter → Call
  unsubscribes : Channel → Call
  reconnects : Call

abbrev pub is_failure {ℓ κ} : {E : Type ℓ} {A : Type κ} → Result E A → Bool
is_failure (ok a) = false
is_failure (err e) = true

module _ {S : Type 0} (t : Transport S) where
  -- Whether the call failed, and the client after it.
  abbrev pub after_call : Call → ReconnectingBus × S → Bool × ReconnectingBus
  after_call (claims n h) w = let r = claim t n h w in (is_failure r.0, r.1.0)
  after_call (subscribes c f) w = let r = add_subscription t c f w in (is_failure r.0, r.1.0)
  after_call (unsubscribes c) w = let r = remove_subscription t c w in (is_failure r.0, r.1.0)
  after_call reconnects w = let r = reconnect t w in (is_failure r.0, r.1.0)

  -- A call that fails, whichever it is and at whatever step, leaves the client as it was: the session
  -- that it uses, and the claims and subscriptions that it restores.
  pub failed_keeps :
      (call : Call) (c : ReconnectingBus) (s : S)
      → (after_call call (c, s)).0 ≡ true
      → (after_call call (c, s)).1 ≡ c
  unfolding claim add_subscription remove_subscription reconnect
  failed_keeps (claims n h) c s e = ground arith
  failed_keeps (subscribes n f) c s e = ground arith
  failed_keeps (unsubscribes n) c s e = ground arith
  failed_keeps reconnects c s e = ground arith
