-- ===== src/Client/Reconnect.antt =====
-- `ReconnectingBus`: a client that restores its claims and subscriptions.
use busd.Prelude.{not, List, [], ◌∷◌, ◌++◌, Result, ok, err, filter}
use busd.Order.{bytes_order, same}
use busd.Protocol.Types.{PeerId, Namespace, Channel, Headers, HeaderFilter}
use busd.Action.{Action, pure, ◌>>=◌, ◌>>◌}
use busd.Client.Transport.{Error, Transport, ConnectOptions, Bus, NamespaceClaim, Subscription}
use busd.Client.Bus.{connect, claim_with_headers, subscribe, unsubscribe}

pub record ReconnectingBus : Type 0 where
  pub bus : Bus
  pub options : ConnectOptions
  pub claims : List NamespaceClaim
  pub subscriptions : List Subscription

module _ {S : Type 0} (t : Transport S) where
  unfoldable pub open_client : ConnectOptions → Action S Error ReconnectingBus
  open_client options = do
    bus ← connect t options
    pure (record { bus = bus; options = options; claims = []; subscriptions = [] })

  -- A method that changes the client: its result and the client after it.
  abbrev pub Method {ℓ} : Type ℓ → Type ℓ
  Method A = Action (ReconnectingBus × S) Error A

  abbrev on_transport {ℓ} : {A : Type ℓ} → (ReconnectingBus → Action S Error A) → Method A
  on_transport m (c, s) = let r = m c s in (r.0, (c, r.1))

  abbrev modify : (ReconnectingBus → ReconnectingBus) → Method (Unit {0})
  modify f (c, s) = (ok tt, (f c, s))

  unfoldable pub claim : Namespace → Headers → Method (Unit {0})
  claim namespace headers = do
    on_transport (λ c. claim_with_headers t c.bus namespace headers)
    modify (λ c. record c {
      claims = c.claims ++ record { namespace = namespace; headers = headers } ∷ [];
    })

  unfoldable pub add_subscription : Channel → List HeaderFilter → Method (Unit {0})
  add_subscription channel filters = do
    on_transport (λ c. subscribe t c.bus channel filters)
    modify (λ c. record c {
      subscriptions = c.subscriptions ++ record { channel = channel; filters = filters } ∷ [];
    })

  -- `retain(|subscription| subscription.channel != channel)`
  unfoldable pub retain_others : Channel → List Subscription → List Subscription
  retain_others channel subscriptions = filter (λ s. not (same s.channel channel)) subscriptions

  unfoldable pub remove_subscription : Channel → Method (Unit {0})
  unfolding retain_others
  remove_subscription channel = do
    on_transport (λ c. unsubscribe t c.bus channel)
    modify (λ c. record c { subscriptions = retain_others channel c.subscriptions })

  unfoldable pub restore_claims : Bus → List NamespaceClaim → Action S Error (Unit {0})
  restore_claims bus [] = pure tt
  restore_claims bus (claim ∷ claims) = do
    claim_with_headers t bus claim.namespace claim.headers
    restore_claims bus claims

  unfoldable pub restore_subscriptions : Bus → List Subscription → Action S Error (Unit {0})
  restore_subscriptions bus [] = pure tt
  restore_subscriptions bus (subscription ∷ subscriptions) = do
    subscribe t bus subscription.channel subscription.filters
    restore_subscriptions bus subscriptions

  abbrev pub restore : Bus → ReconnectingBus → Action S Error (Unit {0})
  restore bus c = do restore_claims bus c.claims; restore_subscriptions bus c.subscriptions

  -- The new session replaces the old one, which is closed; where it cannot be restored the new one
  -- is closed.
  abbrev pub replace :
      Bus
      → ReconnectingBus
      → Result Error (Unit {0}) × S
      → Result Error PeerId × (ReconnectingBus × S)
  replace bus c (ok u, s) = (ok bus.peer_id, (record c { bus = bus }, t.close c.bus.connection s))
  replace bus c (err e, s) = (err e, (c, t.close bus.connection s))

  unfoldable pub reconnect : Method PeerId
  unfolding restore_claims restore_subscriptions
  reconnect = do
    bus ← on_transport (λ c. connect t c.options)
    λ w. replace bus w.0 (restore bus w.0 w.1)
