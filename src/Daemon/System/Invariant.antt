-- ===== src/Daemon/System/Invariant.antt =====
-- What holds in every state of the daemon's threads.
use busd.Prelude.{
  ap, ◌∙◌, ◌<◌, ◌≤◌, ◌≡◌, ◌⊎◌, refl, Bool, true, false, Option, none, some, arith, if◌then◌else◌,
  inr,
}
use busd.Order.{nat_order, bytes_order, same, same→eq}
use busd.Map.{get, insert, contains_key}
use busd.Map.Laws.{get-insert, get-remove}
use busd.Protocol.Types.{PeerId}
use busd.Broker.Types.{Broker}
use busd.Broker.Invariant.{IsWellFormed}
use busd.Broker.Steps.Fixed.{Quiet}
use busd.Transport.{Sent}
use busd.Daemon.System.{
  set_phase, end_thread, Phase, receiving, replying, leaving, reporting, System,
}

-- The thread has connected its peer to the broker and not yet disconnected it.
abbrev pub is_attached : Option Phase → Bool
is_attached none = false
is_attached (some (reporting events)) = false
is_attached (some _) = true

-- The thread has registered its connection and not yet removed it.
abbrev pub is_registered : Option Phase → Bool
is_registered (some (receiving connection)) = true
is_registered (some (replying connection reply)) = true
is_registered (some leaving) = true
is_registered _ = false

abbrev pub is_live : Option Phase → Bool
is_live none = false
is_live (some phase) = true

pub attached-live : (o : Option Phase) → is_attached o ≡ true → is_live o ≡ true
attached-live none h = cc
attached-live (some phase) h = refl

pub record IsRunning (s : System) : Type 0 where
  pub broker : IsWellFormed s.broker
  pub attached :
      (id : PeerId) → is_attached (get id s.threads) ≡ true → contains_key id s.broker.peers ≡ true
  pub registered : (id : PeerId) → contains_key id s.sessions ≡ is_registered (get id s.threads)
  pub below : (id : PeerId) → is_live (get id s.threads) ≡ true → id < s.broker.next_peer

-- `t` is `s` with the thread of `id` in the phase `o`, if any, and its connection registered or not
-- as that phase has it.
pub record Turns (id : PeerId) (o : Option Phase) (s t : System) : Type 0 where
  pub threads : (j : PeerId) → get j t.threads ≡ (if same j id then o else get j s.threads)
  pub sessions :
      (j : PeerId)
      → contains_key j t.sessions
        ≡ (if same j id then is_registered o else contains_key j s.sessions)

-- A move of the thread of `id`, which alone may connect or disconnect its peer.
pub record Turn (id : PeerId) (o : Option Phase) (s t : System) : Type 0 where
  pub turns : Turns id o s t
  pub broker : IsWellFormed t.broker
  pub later : s.broker.next_peer ≤ t.broker.next_peer
  pub others :
      (j : PeerId)
      → same j id ≡ false
      → contains_key j t.broker.peers ≡ contains_key j s.broker.peers
  pub attached : is_attached o ≡ true → contains_key id t.broker.peers ≡ true
  pub live : is_live o ≡ true → id < t.broker.next_peer
  pub known : (id ≡ s.broker.next_peer) ⊎ (is_live (get id s.threads) ≡ true)
  pub ended : is_live o ≡ false → contains_key id t.broker.peers ≡ contains_key id s.broker.peers
  -- While the thread is attached exactly if its peer is connected, and does not end attached.
  pub exact :
      (is_attached (get id s.threads) ≡ true → is_live o ≡ true)
      → contains_key id s.broker.peers ≡ is_attached (get id s.threads)
      → contains_key id t.broker.peers ≡ is_attached o

-- What a move does: a call of the broker by the scheduler at most, or a turn of one thread.
pub data Effect (s t : System) : Type 0 where
  still :
      t.threads ≡ s.threads
      → t.sessions ≡ s.sessions
      → Quiet s.broker t.broker
      → IsWellFormed t.broker
      → Effect s t
  turn : (id : PeerId) (o : Option Phase) → Turn id o s t → Effect s t

pub none-Effect : (s : System) → IsRunning s → Effect s s
none-Effect s r = still refl refl (refl, refl, refl) r.broker

pub Effect-IsRunning : (s t : System) → Effect s t → IsRunning s → IsRunning t
Effect-IsRunning s t (still h k q w) r = record {
  broker = w;
  attached = λ id a. ground (arith, h, r.attached id, q.2);
  registered = λ id. ground (arith, h, k, r.registered id);
  below = λ id a. ground (arith, h, r.below id, q.1);
}
Effect-IsRunning s t (turn id o u) r = record {
  broker = u.broker;
  attached =
      λ j h. ground (arith, u.turns.threads j, r.attached j, same→eq j id, u.others j, u.attached);
  registered = λ j. ground (arith, u.turns.threads j, u.turns.sessions j, r.registered j);
  below = λ j h. ground (arith, u.turns.threads j, r.below j, same→eq j id, u.later, u.live);
}

-- A thread that stays attached, or is no longer, while the peers stay as they are.
pub keeps-Effect :
    (id : PeerId) (o : Option Phase) (s t : System)
    → Turns id o s t
    → Quiet s.broker t.broker
    → IsWellFormed t.broker
    → is_live (get id s.threads) ≡ true
    → (is_live o ≡ true → is_attached (get id s.threads) ≡ is_attached o)
    → IsRunning s
    → Effect s t
keeps-Effect id o s t u q w l a r = turn id o (record {
  turns = u;
  broker = w;
  later = omega (arith, q.1);
  others = λ j h. ap (contains_key j) q.2;
  attached = λ h. ground (arith, q.2, r.attached id, a, attached-live o);
  live = λ h. omega (arith, r.below id l, q.1);
  known = inr l;
  ended = λ h. ap (contains_key id) q.2;
  exact = λ h e. ground (arith, q.2, a, attached-live o, attached-live (get id s.threads));
})

module _ (id : PeerId) (s : System) (r : IsRunning s) (o : Option Phase)
    (e : get id s.threads ≡ o) where
  set-Turns :
      (phase : Phase) (t : System)
      → t.threads ≡ insert id phase s.threads
      → t.sessions ≡ s.sessions
      → is_registered (some phase) ≡ is_registered o
      → Turns id (some phase) s t
  set-Turns phase t h k p = record {
    threads = λ j. rw h (get-insert j id phase s.threads);
    sessions = λ j. ground (arith, ap is_registered e, r.registered j, same→eq j id);
  }

  -- The thread goes on to a phase of the same kind, and the broker keeps its peers.
  pub calls-Effect :
      (phase : Phase) (b : Broker)
      → is_registered (some phase) ≡ is_registered o
      → is_attached o ≡ is_attached (some phase)
      → is_live o ≡ true
      → Quiet s.broker b
      → IsWellFormed b
      → Effect s (set_phase id phase (record s { broker = b }))
  calls-Effect phase b p a l q w =
      keeps-Effect id (some phase) s _ (set-Turns phase _ refl refl p) q w (ap is_live e ∙ l)
        (λ x. ap is_attached e ∙ a) r

  pub set-Effect :
      (phase : Phase) (sent : Sent)
      → is_registered (some phase) ≡ is_registered o
      → is_attached o ≡ is_attached (some phase)
      → is_live o ≡ true
      → Effect s (set_phase id phase (record s { sent = sent }))
  set-Effect phase sent p a l =
      keeps-Effect id (some phase) s (set_phase id phase (record s { sent = sent }))
        (set-Turns phase _ refl refl p) (refl, refl, refl) r.broker (ap is_live e ∙ l)
        (λ x. ap is_attached e ∙ a) r

  -- The thread ends, its connection being registered no more or never.
  pub end-Effect :
      (sent : Sent)
      → is_registered o ≡ false
      → is_live o ≡ true
      → Effect s (end_thread id (record s { sent = sent }))
  end-Effect sent p l =
      keeps-Effect id none s (end_thread id (record s { sent = sent }))
        (record {
          threads = λ j. get-remove j id s.threads;
          sessions = λ j. ground (arith, ap is_registered e, r.registered j, same→eq j id);
        })
        (refl, refl, refl) r.broker (ap is_live e ∙ l) (λ x. cc) r
