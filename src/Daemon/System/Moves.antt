-- ===== src/Daemon/System/Moves.antt =====
-- Every move keeps the invariant of the threads.
use busd.Prelude.{ℕ, ◌≡◌, refl, Option, some, [], ◌∷◌, arith, Result, ok, err}
use busd.Order.{nat_order, bytes_order}
use busd.Map.{get}
use busd.Map.Laws.{get-insert, contains_key-insert, contains_key-remove}
use busd.Protocol.Types.{Bytes, PeerId, FrameLimits}
use busd.Transport.{IoError, Connection, Sent, Sockets}
use busd.Daemon.Requests.{handle_packet-Quiet, handle_packet-IsWellFormed}
use busd.Daemon.Session.{Reply, answer, dispatch, refuse}
use busd.Daemon.System.{
  registered, unregisters, reports, set_phase, end_thread, Phase, welcoming, registering, receiving,
  replying, leaving, departing, reporting, System, sends, greets, registers, receives, hangs_up,
  proceeds, replies,
}
use busd.Daemon.System.Invariant.{
  IsRunning, Turns, set-Effect, calls-Effect, end-Effect, keeps-Effect, none-Effect, Effect,
}

pub sends-Effect :
    (good bad : System → System) (x : Result IoError (Unit {0}) × Sent) (s : System)
    → ((sent : Sent) → Effect s (good (record s { sent = sent })))
    → ((sent : Sent) → Effect s (bad (record s { sent = sent })))
    → Effect s (sends good bad x s)
sends-Effect good bad (ok u, sent) s g b = g sent
sends-Effect good bad (err e, sent) s g b = b sent

module _ (sockets : Sockets) (limits : FrameLimits) (id : PeerId) (s : System)
    (r : IsRunning s) where
  pub greets-Effect :
      (o : Option Phase) → get id s.threads ≡ o → Effect s (greets sockets limits id o s)
  greets-Effect (some (welcoming session connection)) e =
      sends-Effect (set_phase id (registering connection)) (end_thread id) _ s
        (λ sent. set-Effect id s r _ e (registering connection) sent refl refl refl)
        (λ sent. end-Effect id s r _ e sent refl refl)
  greets-Effect _ e = none-Effect s r

  registered-Turns :
      (connection : Connection) (sent : Sent)
      → Turns id
          (some (receiving connection))
          s
          (registered id connection (record s { sent = sent }))
  registered-Turns connection sent = record {
    threads = λ j. get-insert j id (receiving connection) s.threads;
    sessions = λ j. contains_key-insert j id connection s.sessions;
  }

  pub registers-Effect :
      (o : Option Phase) → get id s.threads ≡ o → Effect s (registers sockets limits id o s)
  registers-Effect (some (registering connection)) e =
      sends-Effect (registered id connection) (end_thread id) _ s
        (λ sent.
          keeps-Effect id (some (receiving connection)) s _ (registered-Turns connection sent)
            (refl, refl, refl) r.broker (ground arith) (λ x. ground arith) r)
        (λ sent. end-Effect id s r _ e sent refl refl)
  registers-Effect _ e = none-Effect s r

  pub receives-Effect :
      (bytes : Bytes) (now : ℕ) (o : Option Phase)
      → get id s.threads ≡ o
      → Effect s (receives sockets limits id bytes now o s)
  receives-Effect bytes now (some (receiving connection)) e =
      calls-Effect id s r _ e _ _ refl refl refl (handle_packet-Quiet id limits bytes now s.broker)
        (handle_packet-IsWellFormed id limits bytes now s.broker r.broker)
  receives-Effect bytes now _ e = none-Effect s r

  pub hangs_up-Effect :
      (o : Option Phase) → get id s.threads ≡ o → Effect s (hangs_up sockets limits id o s)
  hangs_up-Effect (some (receiving connection)) e =
      set-Effect id s r _ e leaving s.sent refl refl refl
  hangs_up-Effect _ e = none-Effect s r

  pub replies-Effect :
      (connection : Connection) (reply : Reply)
      → get id s.threads ≡ some (replying connection reply)
      → Effect s (replies sockets limits id connection reply s)
  replies-Effect connection (answer frame) e =
      sends-Effect (set_phase id (receiving connection)) (set_phase id leaving) _ s
        (λ sent. set-Effect id s r _ e (receiving connection) sent refl refl refl)
        (λ sent. set-Effect id s r _ e leaving sent refl refl refl)
  replies-Effect connection (dispatch []) e =
      set-Effect id s r _ e (receiving connection) s.sent refl refl refl
  replies-Effect connection (dispatch (event ∷ events)) e =
      sends-Effect (set_phase id (replying connection (dispatch events))) (set_phase id leaving) _ s
        (λ sent. set-Effect id s r _ e (replying connection (dispatch events)) sent refl refl refl)
        (λ sent. set-Effect id s r _ e leaving sent refl refl refl)
  replies-Effect connection (refuse code diagnostic) e =
      sends-Effect (set_phase id leaving) (set_phase id leaving) _ s
        (λ sent. set-Effect id s r _ e leaving sent refl refl refl)
        (λ sent. set-Effect id s r _ e leaving sent refl refl refl)

  pub proceeds-Effect :
      (o : Option Phase) → get id s.threads ≡ o → Effect s (proceeds sockets limits id o s)
  proceeds-Effect (some (replying connection reply)) e = replies-Effect connection reply e
  proceeds-Effect _ e = none-Effect s r

  pub unregisters-Effect :
      (o : Option Phase) → get id s.threads ≡ o → Effect s (unregisters sockets limits id o s)
  unregisters-Effect (some leaving) e =
      keeps-Effect id (some departing) s _
        (record {
          threads = λ j. get-insert j id departing s.threads;
          sessions = λ j. contains_key-remove j id s.sessions;
        })
        (refl, refl, refl) r.broker (ground arith) (λ x. ground arith) r
  unregisters-Effect _ e = none-Effect s r

  pub reports-Effect :
      (o : Option Phase) → get id s.threads ≡ o → Effect s (reports sockets limits id o s)
  reports-Effect (some (reporting [])) e = end-Effect id s r _ e s.sent refl refl
  reports-Effect (some (reporting (event ∷ events))) e =
      sends-Effect (set_phase id (reporting events)) (end_thread id) _ s
        (λ sent. set-Effect id s r _ e (reporting events) sent refl refl refl)
        (λ sent. end-Effect id s r _ e sent refl refl)
  reports-Effect _ e = none-Effect s r
