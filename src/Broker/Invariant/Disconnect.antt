-- ===== src/Broker/Invariant/Disconnect.antt =====
-- `disconnect_with_events` and the invariant: what refers to the peer that leaves.
use busd.Prelude.{
  ◌≡◌, refl, Bool, false, ◌||◌, List, [], ◌∷◌, arith, Bool-cases, inl, inr, All, ◌==◌,
}
use busd.Order.{nat_order, bytes_order, same, same_refl}
use busd.Map.{keys, Map, remove, contains_key, contains}
use busd.Map.Keys.{
  IsAscending, IsAscending-remove, Entries, Entries_mono, Entries-remove_ne, Entries-remove,
}
use busd.Map.Laws.{contains_key-remove}
use busd.Protocol.Types.{Text, PeerId, MessageId, Channel}
use busd.Broker.Types.{Broker, PendingDelivery}
use busd.Broker.Registry.{Subscribers}
use busd.Broker.Disconnect.{
  retain_others, keep_subscribed, unsubscribe_all, remove_peer, affected, drop_all, fail_waiting,
  disconnect_with_events, disconnect,
}
use busd.Broker.Session.{record_monitor}
use busd.Broker.Invariant.{Peers, IsConnected, IsSubscribed, IsPeer, IsPending, IsWellFormed}
use busd.Broker.Invariant.Session.{after, ring_bound}

module _ (ps : Peers) (peer : PeerId) where
  pub others_stay :
      (p : PeerId) → IsConnected ps p → (p == peer) ≡ false → IsConnected (remove peer ps) p
  others_stay p h k = ground (arith, contains_key-remove p peer ps)

  retain_others-IsConnected :
      (m : Map Text PeerId)
      → Entries (λ n p. IsConnected ps p) m
      → Entries (λ n p. IsConnected (remove peer ps) p) (retain_others peer m)
  unfolding retain_others
  retain_others-IsConnected [] h = tt
  retain_others-IsConnected ((n, p) ∷ m) h = elim (Bool-cases (p == peer)) [
    | inl e ↦ rw e (retain_others-IsConnected m h.1)
    | inr e ↦ rw e (others_stay p h.0 e, retain_others-IsConnected m h.1)
  ]

  keep_subscribed-IsSubscribed :
      (c : Channel) (s : Subscribers) (m : Map Channel Subscribers)
      → Entries (λ p f. IsConnected (remove peer ps) p) s
      → IsAscending (keys s)
      → Entries (IsSubscribed (remove peer ps)) m
      → Entries (IsSubscribed (remove peer ps)) (keep_subscribed c s m)
  keep_subscribed-IsSubscribed c [] m h a e = e
  keep_subscribed-IsSubscribed c (x ∷ s) m h a e = ((h, omega arith, a), e)

  unsubscribe_all-IsSubscribed :
      (m : Map Channel Subscribers)
      → Entries (IsSubscribed ps) m
      → Entries (IsSubscribed (remove peer ps)) (unsubscribe_all peer m)
  unfolding unsubscribe_all
  unsubscribe_all-IsSubscribed [] h = tt
  unsubscribe_all-IsSubscribed ((c, s) ∷ m) h =
      keep_subscribed-IsSubscribed c (remove peer s) (unsubscribe_all peer m)
        (Entries-remove_ne (λ p f. IsConnected ps p) (λ p f. IsConnected (remove peer ps) p) peer
          (λ p f known ne. others_stay p known (ground arith)) s h.0.0)
        (IsAscending-remove peer s h.0.2) (unsubscribe_all-IsSubscribed m h.1)

  recipients_stay :
      (l : List PeerId)
      → All (IsConnected ps) l
      → contains peer l ≡ false
      → All (IsConnected (remove peer ps)) l
  recipients_stay [] a h = tt
  recipients_stay (r ∷ l) a h =
      (others_stay r a.0 (ground arith), recipients_stay l a.1 (ground arith))

  IsPending-stays :
      (id : MessageId) (d : PendingDelivery)
      → IsPending ps id d × (contains peer d.recipients ≡ false)
      → IsPending (remove peer ps) id d
  IsPending-stays id d (h, k) = record {
    recipients = recipients_stay d.recipients h.recipients k;
    acknowledgements = h.acknowledgements;
    responses = h.responses;
    tracked = h.tracked;
  }

-- Whether a delivery is among those that failed.
abbrev listed : MessageId → List (MessageId × PeerId) → Bool
listed id [] = false
listed id ((j, sender) ∷ l) = same j id || listed id l

abbrev pub remove_all :
    List (MessageId × PeerId) → Map MessageId PendingDelivery → Map MessageId PendingDelivery
remove_all [] m = m
remove_all ((id, sender) ∷ l) m = remove_all l (remove id m)

pub drop_all-remove_all :
    (l : List (MessageId × PeerId)) (b : Broker)
    → drop_all l b ≡ record b { deliveries = remove_all l b.deliveries }
unfolding drop_all
drop_all-remove_all [] b = refl
drop_all-remove_all ((id, sender) ∷ l) b = drop_all-remove_all l _

module _ (P Q : MessageId → PendingDelivery → Type 0) where
  abbrev Unless : List (MessageId × PeerId) → MessageId → PendingDelivery → Type 0
  Unless l id d = P id d × (listed id l ≡ false → Q id d)

  remove_all-Entries :
      (l : List (MessageId × PeerId)) (m : Map MessageId PendingDelivery)
      → Entries (Unless l) m
      → Entries (λ id d. P id d × Q id d) (remove_all l m)
  remove_all-Entries [] m h = Entries_mono (Unless []) _ (λ id d x. (x.0, x.1 refl)) m h
  remove_all-Entries ((j, sender) ∷ l) m h = remove_all-Entries l (remove j m) (
      Entries-remove_ne (Unless ((j, sender) ∷ l)) (Unless l) j
        (λ id d x ne. (x.0, λ k. x.1 (ground arith))) m h)

remove_all-IsAscending :
    (l : List (MessageId × PeerId)) (m : Map MessageId PendingDelivery)
    → IsAscending (keys m)
    → IsAscending (keys (remove_all l m))
remove_all-IsAscending [] m a = a
remove_all-IsAscending ((j, sender) ∷ l) m a =
    remove_all-IsAscending l (remove j m) (IsAscending-remove j m a)

affected_head :
    (peer : PeerId) (id : MessageId) (d : PendingDelivery) (m : Map MessageId PendingDelivery)
    → listed id (affected peer ((id, d) ∷ m)) ≡ false
    → contains peer d.recipients ≡ false
unfolding affected
affected_head peer id d m h = ground (arith, same_refl id)

affected_tail :
    (peer : PeerId) (j id : MessageId) (d : PendingDelivery) (m : Map MessageId PendingDelivery)
    → listed j (affected peer ((id, d) ∷ m)) ≡ false
    → listed j (affected peer m) ≡ false
unfolding affected
affected_tail peer j id d m h = ground arith

-- Every delivery that waits for the peer is among the affected ones.
affected-listed :
    (peer : PeerId) (P : MessageId → PendingDelivery → Type 0) (m : Map MessageId PendingDelivery)
    → Entries P m
    → Entries (Unless P (λ id d. contains peer d.recipients ≡ false) (affected peer m)) m
affected-listed peer P [] h = tt
affected-listed peer P ((id, d) ∷ m) h = (
  (h.0, affected_head peer id d m),
  Entries_mono _ _ (λ j e x. (x.0, λ k. x.1 (affected_tail peer j id d m k))) m
      (affected-listed peer P m h.1),
)

-- After the failures no delivery waits for the peer.
pub survivors :
    (peer : PeerId) (P : MessageId → PendingDelivery → Type 0) (m : Map MessageId PendingDelivery)
    → Entries P m
    → Entries
        (λ id d. P id d × (contains peer d.recipients ≡ false))
        (remove_all (affected peer m) m)
survivors peer P m h =
    remove_all-Entries P (λ id d. contains peer d.recipients ≡ false) (affected peer m) m
      (affected-listed peer P m h)

pub disconnect_with_events-IsWellFormed :
    (peer : PeerId) (b : Broker) → IsWellFormed b → IsWellFormed (disconnect_with_events peer b).1
unfolding disconnect_with_events remove_peer fail_waiting
disconnect_with_events-IsWellFormed peer b w = elim (Bool-cases (contains_key peer b.peers)) [
  | inr e ↦ rw e w
  | inl e ↦
      rw (e, drop_all-remove_all)
        (unfold record_monitor in
          record {
            next_low = w.next_low;
            next_high = w.next_high;
            peers = Entries-remove (IsPeer b.next_peer) peer b.peers w.peers;
            ascending = IsAscending-remove peer b.peers w.ascending;
            owners = retain_others-IsConnected b.peers peer b.namespaces w.owners;
            dbus_owners = retain_others-IsConnected b.peers peer b.dbus_names w.dbus_owners;
            subscriptions =
                unsubscribe_all-IsSubscribed b.peers peer b.subscriptions w.subscriptions;
            deliveries =
                Entries_mono _ _ (IsPending-stays b.peers peer) _
                  (survivors peer (IsPending b.peers) b.deliveries w.deliveries);
            sorted = remove_all-IsAscending (affected peer b.deliveries) b.deliveries w.sorted;
            monitored = ring_bound b.monitor_events _ w.monitored;
          })
]

pub disconnect-IsWellFormed :
    (peer : PeerId) (b : Broker) → IsWellFormed b → IsWellFormed (disconnect peer b).1
unfolding disconnect
disconnect-IsWellFormed peer b w =
    let w' = disconnect_with_events-IsWellFormed peer b w in
    after IsWellFormed (disconnect_with_events peer b).0 _ (disconnect_with_events peer b).1 w'
      λ _ _. w'
